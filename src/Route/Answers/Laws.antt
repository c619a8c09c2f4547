-- ===== src/Route/Answers/Laws.antt =====
-- The number of alternatives that is asked for, and the journey that the legs make up.
use mathlib.Core.List.{append-nil, append_assoc}
use geo.Base.{
  ℕ, suc, List, [], ◌∷◌, ◌++◌, Option, none, some, map, ◌≡◌, arith, ◌≤◌, ap, Bool-cases, ltb, inl,
  inr, zero, refl, ◌∙◌, if◌then◌else◌, true, All, ◌⊎◌,
}
use geo.Base.Int.{ℤ, pos, negsuc}
use geo.Base.Float.{Float}
use geo.Routing.Profiles.{TransportMode}
use geo.Routing.Polyline.{Point, decoded, encode_polyline, decode_polyline}
use geo.Routing.Polyline.Text.{PointInRange, snap, decode_polyline-encode_polyline}
use geo.Route.Model.{Route, MultiModalLeg}
use geo.Route.Answers.{
  normalize_alternatives, max_alternatives, coord, decode_points, leg_of, Journey, journey_loop,
  build_multi_modal_response,
}

-- One less than the number that is meant: what is not positive stands for one.
abbrev pub wanted : ℤ → ℕ
wanted (pos (suc n)) = n
wanted _ = 0

max_alternatives-least :
    (configured : ℤ)
    → (m : ℕ) × (max_alternatives configured ≡ pos (suc m))
      × (m ≤ wanted configured)
      × (m ≤ 2)
      × ((m ≡ wanted configured) ⊎ (m ≡ 2))
unfolding max_alternatives
max_alternatives-least (pos zero) = (0, refl, omega arith, omega arith, inl refl)
max_alternatives-least (pos (suc n)) =
    let positive : ltb 0 (suc n) ≡ true = ground arith in
    elim (Bool-cases (ltb 3 (suc n))) [
      | inl large ↦ (
        2,
        rw (positive, max_alternatives, large) refl,
        ground (arith, large),
        omega arith,
        inr refl,
      )
      | inr small ↦ (
        n,
        rw (positive, max_alternatives, small) refl,
        omega arith,
        ground (arith, small),
        inl refl,
      )
    ]
max_alternatives-least (negsuc n) = (0, refl, omega arith, omega arith, inl refl)

least_lem :
    (m n : ℕ)
    → (k : ℕ) × ((if ltb (suc m) (suc n) then pos (suc m) else pos (suc n)) ≡ pos (suc k))
      × (k ≤ m)
      × (k ≤ n)
      × ((k ≡ m) ⊎ (k ≡ n))
least_lem m n = elim (Bool-cases (ltb (suc m) (suc n))) [
  | inl large ↦ (m, rw large refl, omega arith, ground (arith, large), inl refl)
  | inr small ↦ (n, rw small refl, ground (arith, small), omega arith, inr refl)
]

capped_lem :
    (m : ℕ) (n : ℤ)
    → m ≤ 2
    → (k : ℕ) × (normalize_alternatives n (pos (suc m)) ≡ pos (suc k))
      × (k ≤ m)
      × (k ≤ wanted n)
      × ((k ≡ m) ⊎ (k ≡ wanted n))
unfolding normalize_alternatives
capped_lem m (negsuc n) small = (0, refl, omega arith, omega arith, inr refl)
capped_lem m (pos zero) small = (0, refl, omega arith, omega arith, inr refl)
capped_lem zero (pos (suc n)) small =
    let positive : ltb 0 (suc n) ≡ true = ground arith in
    rw (positive, normalize_alternatives) (least_lem 0 n)
capped_lem (suc zero) (pos (suc n)) small =
    let positive : ltb 0 (suc n) ≡ true = ground arith in
    rw (positive, normalize_alternatives) (least_lem 1 n)
capped_lem (suc (suc zero)) (pos (suc n)) small =
    let positive : ltb 0 (suc n) ≡ true = ground arith in
    rw (positive, normalize_alternatives) (least_lem 2 n)
capped_lem (suc (suc (suc m))) (pos (suc n)) small = absurd (omega arith)

-- `k` is the least of the three.
pub record IsLeast (k a b c : ℕ) : Type 0 where
  pub first : k ≤ a
  pub second : k ≤ b
  pub third : k ≤ c
  pub one_of : (k ≡ a) ⊎ ((k ≡ b) ⊎ (k ≡ c))

-- Whatever is configured and asked for, the number of routes that are computed is the least of what
-- is asked for, what the service is configured for, and three; where one of the first two is not
-- positive it counts as one.
pub normalize_alternatives-bounds :
    (configured n : ℤ)
    → (k : ℕ) × (normalize_alternatives n (max_alternatives configured) ≡ pos (suc k))
      × IsLeast k (wanted n) (wanted configured) 2
normalize_alternatives-bounds configured n =
    let (m, most, le_c, le_2, is_c) = max_alternatives-least configured in
    let (k, asked, le_m, le_n, is_m) = capped_lem m n le_2 in
    (
      k,
      ap (normalize_alternatives n) most ∙ asked,
      record {
        first = le_n;
        second = omega arith;
        third = omega arith;
        one_of = elim is_m [
          | inr same ↦ inl same
          | inl same ↦ elim is_c [ inl c ↦ inr (inl (same ∙ c)) | inr two ↦ inr (inr (same ∙ two)) ]
        ];
      },
    )

module _ (f : Float) where
  -- The legs that have a route: their modes and routes.
  abbrev pub present : List (MultiModalLeg f) → List (TransportMode × Route f)
  present [] = []
  present (leg ∷ legs) = elim leg.route [
    | none ↦ present legs
    | some r ↦ (leg.mode, r) ∷ present legs
  ]

  abbrev pub sum : (Route f → f.F) → f.F → List (TransportMode × Route f) → f.F
  sum part acc [] = acc
  sum part acc ((mode, r) ∷ legs) = sum part (f.add acc (part r)) legs

  -- The points of all legs, one leg after another.
  abbrev pub points_of : List (TransportMode × Route f) → List (Point (coord f))
  points_of [] = []
  points_of ((mode, r) ∷ legs) = decode_points f r.polyline ++ points_of legs

  -- What the loop makes of the legs, from the sums so far.
  abbrev Summed : Journey f → List (MultiModalLeg f) → Type 0
  Summed j legs = journey_loop f j legs ≡ record {
    legs = j.legs ++ map (λ x. leg_of f x.0 x.1) (present legs);
    dist = sum (λ r. r.distance) j.dist (present legs);
    dur = sum (λ r. r.duration) j.dur (present legs);
    points = j.points ++ points_of (present legs);
  }

  one_leg :
      (j : Journey f) (mode : TransportMode) (route : Option (Route f))
      (legs : List (MultiModalLeg f))
      → ((j' : Journey f) → Summed j' legs)
      → Summed j (record { mode = mode; route = route } ∷ legs)
  unfolding journey_loop
  one_leg j mode none legs rest = rest j
  one_leg j mode (some r) legs rest =
      let later = rest (record {
        legs = j.legs ++ leg_of f mode r ∷ [];
        dist = f.add j.dist r.distance;
        dur = f.add j.dur r.duration;
        points = j.points ++ decode_points f r.polyline;
      }) in
      rw
        (
          append_assoc j.legs (leg_of f mode r ∷ []) (map (λ x. leg_of f x.0 x.1) (present legs)),
          append_assoc j.points (decode_points f r.polyline) (points_of (present legs)),
        )
        at later

  journey_loop-Summed : (j : Journey f) (legs : List (MultiModalLeg f)) → Summed j legs
  unfolding journey_loop
  journey_loop-Summed j [] = rw (append-nil j.legs, append-nil j.points) refl
  journey_loop-Summed j (leg ∷ legs) =
      one_leg j leg.mode leg.route legs (λ j'. journey_loop-Summed j' legs)

  -- The answer for a journey shows the legs that have a route, in order; its distance and duration
  -- are their sums; and its polyline, read again, is the points of the legs one after another, in
  -- units of the fifth decimal place, when their coordinates are in range.
  pub build_multi_modal_response-journey :
      (mode : TransportMode) (legs : List (MultiModalLeg f))
      → All (PointInRange (coord f)) (points_of (present legs))
      → let resp = build_multi_modal_response f mode legs in
        (resp.legs ≡ map (λ x. leg_of f x.0 x.1) (present legs))
        × (resp.distance ≡ sum (λ r. r.distance) f.zero (present legs))
        × (resp.duration ≡ sum (λ r. r.duration) f.zero (present legs))
        × (decode_polyline (coord f) resp.polyline
            ≡ decoded (map (snap (coord f)) (points_of (present legs))))
  unfolding build_multi_modal_response
  build_multi_modal_response-journey mode legs small =
      let start : Journey f = record { legs = []; dist = f.zero; dur = f.zero; points = [] } in
      let made = journey_loop-Summed start legs in
      (
        ap (λ j. j.legs) made,
        ap (λ j. j.dist) made,
        ap (λ j. j.dur) made,
        ap (λ j. decode_polyline (coord f) (encode_polyline (coord f) j.points)) made
            ∙ decode_polyline-encode_polyline (coord f) (points_of (present legs)) small,
      )
