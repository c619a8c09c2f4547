-- ===== src/Route/Multi/Checks.antt =====
-- The first waypoint that is invalid, and the first leg that has no route.
use geo.Base.{
  ℕ, suc, ◌+◌, List, [], ◌∷◌, true, false, Option, none, some, map, take, ◌≡◌, All, arith,
  Bool-cases, ap, get_elem?, inl, refl, inr,
}
use geo.Base.Float.{Float}
use geo.Base.Result.{Result, ok, err}
use geo.Coords.{valid_coords}
use geo.Route.Model.{RouteError, RouteResponse}
use geo.Route.Waypoints.{Waypoint}
use geo.Route.Multi.{
  MultiError, too_few, too_many, panicked, invalid_waypoint, no_route, leg_failed, LegResult,
  first_invalid, check_legs,
}

module _ {f : Float} where
  abbrev pub IsValid : Waypoint f → Type 0
  IsValid wp = valid_coords f wp.lat wp.lng ≡ true

  -- The index of the first waypoint whose coordinates are wrong, counted from `i`.
  abbrev pub FirstInvalid : ℕ → List (Waypoint f) → ℕ → Type 0
  FirstInvalid i wps k =
      (j : ℕ) × (wp : Waypoint f) × (k ≡ i + j)
      × (get_elem? wps j ≡ some wp)
      × (valid_coords f wp.lat wp.lng ≡ false)
      × All IsValid (take j wps)

  abbrev pub InvalidOr : ℕ → List (Waypoint f) → Option ℕ → Type 0
  InvalidOr i wps none = All IsValid wps
  InvalidOr i wps (some k) = FirstInvalid i wps k

  first_invalid-later :
      (i : ℕ) (wp : Waypoint f) (wps : List (Waypoint f)) (r : Option ℕ)
      → IsValid wp
      → InvalidOr (suc i) wps r
      → InvalidOr i (wp ∷ wps) r
  first_invalid-later i wp wps none here h = (here, h)
  first_invalid-later i wp wps (some k) here (j, x, at, place, bad, before) =
      (suc j, x, omega (arith, at), place, bad, (here, before))

  pub first_invalid-InvalidOr :
      (i : ℕ) (wps : List (Waypoint f)) → InvalidOr i wps (first_invalid f i wps)
  unfolding first_invalid
  first_invalid-InvalidOr i [] = tt
  first_invalid-InvalidOr i (wp ∷ wps) = elim (Bool-cases (valid_coords f wp.lat wp.lng)) [
    | inl good ↦ rw good (first_invalid-later i wp wps _ good (first_invalid-InvalidOr (suc i) wps))
    | inr bad ↦ rw bad (0, wp, omega arith, refl, bad, tt)
  ]

  -- A leg that has a route.
  abbrev pub Answered : LegResult f → Type 0
  Answered l = (l.error ≡ none) × ((r : RouteResponse f) × (l.resp ≡ some r))

  -- A leg at which the check stops, counted from `i`.
  abbrev pub StopsAt : (LegResult f → Type 0) → ℕ → List (LegResult f) → ℕ → Type 0
  StopsAt P i legs k =
      (j : ℕ) × (l : LegResult f) × (k ≡ i + j)
      × (get_elem? legs j ≡ some l)
      × P l
      × All Answered (take j legs)

  -- The answer is the one that the leg has, and no error came with it.
  abbrev pub GivenBy : LegResult f × RouteResponse f → Type 0
  GivenBy x = (x.0.error ≡ none) × (x.0.resp ≡ some x.1)

  abbrev pub Checked :
      ℕ → List (LegResult f) → Result MultiError (List (LegResult f × RouteResponse f)) → Type 0
  Checked i legs (ok answers) = (map (λ x. x.0) answers ≡ legs) × All GivenBy answers
  Checked i legs (err (leg_failed k e)) = StopsAt (λ l. l.error ≡ some e) i legs k
  Checked i legs (err (no_route k)) = StopsAt (λ l. (l.error ≡ none) × (l.resp ≡ none)) i legs k
  Checked i legs (err _) = ⊥

  StopsAt-later :
      (P : LegResult f → Type 0) (i : ℕ) (l : LegResult f) (legs : List (LegResult f)) (k : ℕ)
      → Answered l
      → StopsAt P (suc i) legs k
      → StopsAt P i (l ∷ legs) k
  StopsAt-later P i l legs k here (j, x, at, place, bad, before) =
      (suc j, x, omega (arith, at), place, bad, (here, before))

  Checked-later :
      (i : ℕ) (l : LegResult f) (r : RouteResponse f) (legs : List (LegResult f))
      (rest : Result MultiError (List (LegResult f × RouteResponse f)))
      → GivenBy (l, r)
      → Checked (suc i) legs rest
      → Checked i (l ∷ legs) (elim rest [ err e ↦ err e | ok answers ↦ ok ((l, r) ∷ answers) ])
  Checked-later i l r legs (ok answers) here h = (ap (λ t. l ∷ t) h.0, (here, h.1))
  Checked-later i l r legs (err (leg_failed k e)) here h =
      StopsAt-later _ i l legs k (here.0, (r, here.1)) h
  Checked-later i l r legs (err (no_route k)) here h =
      StopsAt-later _ i l legs k (here.0, (r, here.1)) h
  Checked-later i l r legs (err too_few) here h = h
  Checked-later i l r legs (err too_many) here h = h
  Checked-later i l r legs (err panicked) here h = h
  Checked-later i l r legs (err (invalid_waypoint k)) here h = h

  leg-Checked :
      (i : ℕ) (l : LegResult f) (legs : List (LegResult f)) (e : Option RouteError)
      (r : Option (RouteResponse f))
      (rest : Result MultiError (List (LegResult f × RouteResponse f)))
      → Checked (suc i) legs rest
      → l.error ≡ e
      → l.resp ≡ r
      → Checked i (l ∷ legs) (elim e [
        | some e ↦ err (leg_failed i e)
        | none ↦ elim r [
          | none ↦ err (no_route i)
          | some r ↦ elim rest [ err e ↦ err e | ok answers ↦ ok ((l, r) ∷ answers) ]
        ]
      ])
  leg-Checked i l legs (some e) r rest h failed same = (0, l, omega arith, refl, failed, tt)
  leg-Checked i l legs none none rest h fine missing =
      (0, l, omega arith, refl, (fine, missing), tt)
  leg-Checked i l legs none (some r) rest h fine there =
      Checked-later i l r legs rest (fine, there) h

  pub check_legs-Checked :
      (i : ℕ) (legs : List (LegResult f)) → Checked i legs (check_legs f i legs)
  unfolding check_legs
  check_legs-Checked i [] = (refl, tt)
  check_legs-Checked i (l ∷ legs) =
      leg-Checked i l legs l.error l.resp _ (check_legs-Checked (suc i) legs) refl refl
