-- ===== src/Routing/Profiles/Bounds.antt =====
-- The speeds of the profiles against the speed of the heuristic. How far the heuristic takes two
-- points to be apart is no part of it.
use geo.Routing.Profiles.Tables.{
  at_most, motorcycle_table-at_most, bus_table-at_most, train_table-at_most, walking_table-at_most,
}
use geo.Base.{
  from_some, ℕ, suc, true, false, Option, none, some, leb, leb→le, refl, ◌≡◌, ◌≤◌, ◌*◌, ap, ◌∙◌,
  if_cases, arith,
}
use geo.Base.Float.{Float, IsOrdered, le_float}
use geo.Routing.Graph.{Edge}
use geo.Routing.Profiles.{
  motorcycle_table, bus_table, train_table, walking_table, TransportMode, car, motorcycle, bus,
  walking, airplane, train, public_transport, min_speed, motorcycle_speed, bus_speed, train_speed,
  walking_speed, profile, ModeProfile,
}

-- A bound of a table is one in the scale of a literal.
weaken : (v n m : ℕ) → v ≤ n → leb n m ≡ true → v ≤ m
weaken v n m h k = let fits = leb→le n m k in omega arith

weaken_tenths : (v : ℕ) → v ≤ 50 → v ≤ 6 * 10
weaken_tenths v h = omega arith

-- The literals of a float are in the order of the numbers.
pub record HasLiterals (f : Float) : Type 0 where
  pub lit_mono : (a b : ℕ) → a ≤ b → f.lt (f.lit b 0) (f.lit a 0) ≡ false
  pub lit_tenths : (a b : ℕ) → a ≤ b * 10 → f.lt (f.lit b 0) (f.lit a 1) ≡ false
  pub lit_pos : (a : ℕ) → f.lt f.zero (f.lit (suc a) 0) ≡ true

module _ {f : Float} (ordered : IsOrdered f) (literals : HasLiterals f) where
  -- The edges whose speed a mode bounds by its own table; the others have the speed of their tag.
  abbrev pub HasOwnSpeed : TransportMode → Edge f → Type 0
  HasOwnSpeed motorcycle e = (v : ℕ) × (motorcycle_table e.kind ≡ some v)
  HasOwnSpeed bus e = (v : ℕ) × (bus_table e.kind ≡ some (suc v))
  HasOwnSpeed walking e = Unit
  HasOwnSpeed train e = (v : ℕ) × (train_table e.kind ≡ some v)
  HasOwnSpeed _ e = ⊥

  min_speed-le : (a b : f.F) → f.lt f.zero a ≡ true → f.lt a (min_speed f a b) ≡ false
  unfolding min_speed
  min_speed-le a b pos = rw pos (
      if_cases (λ x. f.lt a x ≡ false) (le_float f b f.zero) (λ _. ordered.lt_irrefl a)
        (λ _.
          if_cases (λ x. f.lt a x ≡ false) (f.lt b a) (ordered.le_of_lt b a)
            (λ _. ordered.lt_irrefl a)))

  table_speed-le :
      (t o : ℕ) (e : Edge f) (own : Option ℕ) (d : f.F) (v : ℕ)
      → own ≡ some v
      → at_most t own ≡ true
      → leb t o ≡ true
      → f.lt (f.lit o 0) (elim own [ none ↦ d | some v ↦ f.lit v 0 ]) ≡ false
  table_speed-le t o e none d v own h k = cc
  table_speed-le t o e (some v) d w own h k = literals.lit_mono v o (weaken v t o (leb→le v t h) k)

  motorcycle_speed-le :
      (e : Edge f) → HasOwnSpeed motorcycle e → f.lt (f.lit 150 0) (motorcycle_speed f e) ≡ false
  unfolding motorcycle_speed
  motorcycle_speed-le e (v, own) =
      table_speed-le 120 150 e (motorcycle_table e.kind) _ v own (motorcycle_table-at_most e.kind)
        refl

  train_speed-le : (e : Edge f) → HasOwnSpeed train e → f.lt (f.lit 200 0) (train_speed f e) ≡ false
  unfolding train_speed
  train_speed-le e (v, own) =
      table_speed-le 60 200 e (train_table e.kind) _ v own (train_table-at_most e.kind) refl

  walking_speed-le : (e : Edge f) → f.lt (f.lit 6 0) (walking_speed f e) ≡ false
  unfolding walking_speed
  walking_speed-le e =
      literals.lit_tenths (walking_table e.kind) 6
        (weaken_tenths (walking_table e.kind) (leb→le _ 50 (walking_table-at_most e.kind)))

  bounded_speed-le :
      (own : Option ℕ) (d s : f.F) (v : ℕ)
      → own ≡ some (suc v)
      → at_most 90 own ≡ true
      → f.lt (f.lit 100 0) (elim own [ none ↦ d | some v ↦ min_speed f (f.lit v 0) s ]) ≡ false
  bounded_speed-le none d s v own h = cc
  bounded_speed-le (some w) d s v own h =
      let above_zero : f.lt f.zero (f.lit w 0) ≡ true =
        ap (λ n. f.lt f.zero (f.lit n 0)) (from_some own) ∙ literals.lit_pos v in
      ordered.le_trans _ _ _ (min_speed-le (f.lit w 0) s above_zero)
        (literals.lit_mono w 100 (weaken w 90 100 (leb→le w 90 h) refl))

  bus_speed-le : (e : Edge f) → HasOwnSpeed bus e → f.lt (f.lit 100 0) (bus_speed f e) ≡ false
  unfolding bus_speed
  bus_speed-le e (v, own) =
      bounded_speed-le (bus_table e.kind) _ e.speed_kmh v own (bus_table-at_most e.kind)

  -- The mode has a profile with a speed of its own, and the speed that it gives the edge is at most
  -- that of its heuristic.
  abbrev pub IsAdmissible : Option (ModeProfile f) → Edge f → Type 0
  IsAdmissible none e = ⊥
  IsAdmissible (some p) e = elim p.edge_speed [
    | none ↦ ⊥
    | some speed ↦ f.lt p.heuristic_speed_kmh (speed e) ≡ false
  ]

  -- The profiles of motorcycles, buses, trains and of walking give an edge at most the speed that
  -- their heuristic divides by, whatever the edge's tag of speed says, where the kind of the road is
  -- in the mode's own table.
  pub profile-IsAdmissible :
      (mode : TransportMode) (e : Edge f) → HasOwnSpeed mode e → IsAdmissible (profile f mode) e
  unfolding profile
  profile-IsAdmissible car e own = absurd own
  profile-IsAdmissible motorcycle e own = motorcycle_speed-le e own
  profile-IsAdmissible bus e own = bus_speed-le e own
  profile-IsAdmissible walking e own = walking_speed-le e
  profile-IsAdmissible airplane e own = absurd own
  profile-IsAdmissible train e own = train_speed-le e own
  profile-IsAdmissible public_transport e own = absurd own
