-- ===== src/Route/Waypoints/Order.antt =====
-- The order of the waypoints is a permutation that goes to a nearest one each time.
use mathlib.Core.List.{
  Perm, Mem, mem-append, eq-or-mem_of_mem-cons, not-mem-nil, append_assoc, append-nil,
}
use mathlib.Core.Path.{subst}
use mathlib.Core.List.Perm
use mathlib.Core.Logic.Or
use mathlib.Core.Bool.{Bool-set}
use geo.Base.{
  ℕ, zero, suc, List, [], ◌∷◌, ◌++◌, get_elem?, ◌≡◌, length, some, false, from_some, ap, ◌∙◌, refl,
  sym, Option, arith, length-append, Bool-cases, inl, get_elem?-append_last, inr, get_elem?-append,
}
use geo.Base.Float.{Float, IsOrdered}
use geo.Route.Waypoints.{
  Waypoint, erase_idx, distance, nearest_loop, order_loop, order_waypoints_nearest_neighbor,
}

-- An element taken out and put in front.
cons-erase_idx-Perm :
    {A : Type 0} (xs : List A) (i : ℕ) (x : A)
    → get_elem? xs i ≡ some x
    → Perm (x ∷ erase_idx xs i) xs
cons-erase_idx-Perm [] i x h = cc
cons-erase_idx-Perm (y ∷ xs) zero x h =
    subst (λ z. Perm (z ∷ xs) (y ∷ xs)) (from_some h) (Perm.refl (y ∷ xs))
cons-erase_idx-Perm (y ∷ xs) (suc i) x h =
    Perm.trans (Perm.swap y x (erase_idx xs i)) (Perm.cons y (cons-erase_idx-Perm xs i x h))

length-erase_idx :
    {A : Type 0} (xs : List A) (i : ℕ) (x : A)
    → get_elem? xs i ≡ some x
    → suc (length (erase_idx xs i)) ≡ length xs
length-erase_idx [] i x h = cc
length-erase_idx (y ∷ xs) zero x h = refl
length-erase_idx (y ∷ []) (suc i) x h = cc
length-erase_idx (y ∷ z ∷ xs) (suc i) x h = ap suc (length-erase_idx (z ∷ xs) i x h)

module _ {f : Float} (ordered : IsOrdered f) where
  -- No waypoint of the list is nearer to `current` than a distance.
  abbrev NoneCloser : Waypoint f → f.F → List (Waypoint f) → Type 0
  NoneCloser current d ws = (x : Waypoint f) → Mem x ws → f.lt (distance f current x) d ≡ false

  -- Each waypoint is followed by one that is nearest to it among those that come later.
  abbrev pub IsGreedy : Waypoint f → List (Waypoint f) → Type 0
  IsGreedy current [] = Unit
  IsGreedy current (w ∷ ws) = NoneCloser current (distance f current w) (w ∷ ws) × IsGreedy w ws

  -- The best index so far, at the end of a prefix.
  record Picked (current : Waypoint f) (seen : List (Waypoint f)) (idx : ℕ) (d : f.F) : Type 0 where
    waypoint : Waypoint f
    at_idx : get_elem? seen idx ≡ some waypoint
    at_dist : d ≡ distance f current waypoint
    least : NoneCloser current d seen

  NoneCloser-one :
      (current : Waypoint f) (d : f.F) (w : Waypoint f)
      → f.lt (distance f current w) d ≡ false
      → NoneCloser current d (w ∷ [])
  NoneCloser-one current d w k x m =
      Or.elim (Bool-set _ _) (eq-or-mem_of_mem-cons m)
        (λ e. ap (λ y. f.lt (distance f current y) d) e ∙ k) (λ n. absurd (not-mem-nil n))

  NoneCloser-append :
      (current : Waypoint f) (d : f.F) (ws vs : List (Waypoint f))
      → NoneCloser current d ws
      → NoneCloser current d vs
      → NoneCloser current d (ws ++ vs)
  NoneCloser-append current d ws vs h k x m = Or.elim (Bool-set _ _) (mem-append.0 m) (h x) (k x)

  nearest_loop-Picked :
      (current : Waypoint f) (seen ws : List (Waypoint f)) (i idx : ℕ) (d : f.F)
      → i ≡ length seen
      → Picked current seen idx d
      → (best : f.F) × Picked current (seen ++ ws) (nearest_loop f current i ws idx d) best
  unfolding nearest_loop
  nearest_loop-Picked current seen [] i idx d at_end p = (d, rw append-nil p)
  nearest_loop-Picked current seen (w ∷ ws) i idx d at_end p =
      let next = nearest_loop-Picked current (seen ++ w ∷ []) ws (suc i) in
      let more : suc i ≡ length (seen ++ w ∷ []) =
        omega (arith, at_end, length-append seen (w ∷ [])) in
      let flat = append_assoc seen (w ∷ []) ws in
      elim (Bool-cases (f.lt (distance f current w) d)) [
        | inl closer ↦
            rw (sym flat, closer)
              (next i (distance f current w) more (record {
                waypoint = w;
                at_idx = ap (get_elem? (seen ++ w ∷ [])) at_end ∙ get_elem?-append_last seen w;
                at_dist = refl;
                least =
                    NoneCloser-append current _ seen (w ∷ [])
                      (λ x m. ordered.le_trans _ d _ (ordered.le_of_lt _ _ closer) (p.least x m))
                      (NoneCloser-one current _ w (ordered.lt_irrefl _));
              }))
        | inr farther ↦
            rw (sym flat, farther)
              (next idx d more (record {
                waypoint = p.waypoint;
                at_idx = get_elem?-append seen w idx p.waypoint p.at_idx;
                at_dist = p.at_dist;
                least =
                    NoneCloser-append current d seen (w ∷ []) p.least
                      (NoneCloser-one current d w farther);
              }))
      ]

  -- The waypoint that a round of the outer loop takes.
  round-Picked :
      (current w : Waypoint f) (ws : List (Waypoint f))
      → (next : Waypoint f) × (get_elem?
            (w ∷ ws)
            (nearest_loop f current 1 ws 0 (distance f current w))
          ≡ some next)
        × NoneCloser current (distance f current next) (w ∷ ws)
  round-Picked current w ws =
      let (best, p) =
        nearest_loop-Picked current (w ∷ []) ws 1 0 (distance f current w) refl (record {
          waypoint = w;
          at_idx = refl;
          at_dist = refl;
          least = NoneCloser-one current _ w (ordered.lt_irrefl _);
        }) in
      (p.waypoint, p.at_idx, λ x m. ap (f.lt (distance f current x)) (sym p.at_dist) ∙ p.least x m)

  record Visits (current : Waypoint f) (done remaining : List (Waypoint f))
      (r : Option (List (Waypoint f))) : Type 0 where
    rest : List (Waypoint f)
    returns : r ≡ some (done ++ rest)
    same : Perm rest remaining
    greedy : IsGreedy current rest

  order_loop-Visits :
      (fuel : ℕ) (done : List (Waypoint f)) (current : Waypoint f) (remaining : List (Waypoint f))
      → length remaining ≡ fuel
      → Visits current done remaining (order_loop f fuel done current remaining)
  unfolding order_loop
  order_loop-Visits fuel done current [] enough = record {
    rest = [];
    returns = ap some (sym (append-nil done));
    same = Perm.nil;
    greedy = tt;
  }
  order_loop-Visits zero done current (w ∷ ws) enough = absurd (omega arith)
  order_loop-Visits (suc fuel) done current (w ∷ ws) enough =
      let (next, place, least) = round-Picked current w ws in
      let best = nearest_loop f current 1 ws 0 (distance f current w) in
      let others = erase_idx (w ∷ ws) best in
      let v =
        order_loop-Visits fuel (done ++ next ∷ []) next others
          (omega (arith, enough, length-erase_idx (w ∷ ws) best next place)) in
      let same =
        Perm.trans (Perm.cons next v.same) (cons-erase_idx-Perm (w ∷ ws) best next place) in
      record {
        rest = next ∷ v.rest;
        returns =
            rw (place, order_loop) (v.returns ∙ ap some (append_assoc done (next ∷ []) v.rest));
        same = same;
        greedy = (λ x m. least x ((Perm.mem_iff same).0 m), v.greedy);
      }

  -- The order always comes out, starts with the first waypoint, has each waypoint as often as the
  -- request does, and goes from each waypoint to one that is nearest to it among those that come
  -- later.
  pub order_waypoints_nearest_neighbor-IsGreedy :
      (w : Waypoint f) (ws : List (Waypoint f))
      → (rest : List (Waypoint f)) × (order_waypoints_nearest_neighbor f (w ∷ ws) ≡ some (w ∷ rest))
        × Perm rest ws
        × IsGreedy w rest
  unfolding order_waypoints_nearest_neighbor
  order_waypoints_nearest_neighbor-IsGreedy w ws =
      let v = order_loop-Visits (length ws) (w ∷ []) w ws refl in
      (v.rest, v.returns, v.same, v.greedy)
