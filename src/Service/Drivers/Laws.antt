-- ===== src/Service/Drivers/Laws.antt =====
-- What a sender gets to see: visible drivers only, never itself, and no more than the limit.
use geo.Base.Every.{All-take}
use geo.Base.{
  if◌then◌else◌, ◌≤◌, suc, ◌&&◌, ◌≡◌, ◌++◌, take, ◌-◌, [], All, sym, true, some, ◌∙◌, false, ap,
  Bool-cases, inr, inl, ltb, arith, length-append, Option-cases, Option, refl, zero, length-take,
  List-cases, map, ◌<◌, ℕ, from_some,
}
use mathlib.Core.List.{append-nil, append_assoc}
use mathlib.Core.Path.{subst}
use geo.Base.Int.{ℤ, pos, negsuc, ◌==ℤ◌, is_pos}
use geo.Base.Float.{Float}
use geo.Service.Ids.{positive_ids}
use geo.Service.Limits.{effective_limit, effective_radius, candidate_limit, effective_limit_pos}
use geo.Service.Drivers.{
  Shippings, ActiveJob, LatestTrip, DriverState, Driver, DriverService, NearbyDrivers, to_drivers,
  visible_loop, filter_visible_on_map, attach_job, attach_active_shippings, search_nearby,
  driver_ids, Bool, List, ℕ, ◌∷◌, length, if◌then◌else◌, parse_driver_user_id,
}

take-nil : {A : Type 0} (k : ℕ) → take k (let l : List A = [] in l) ≡ []
take-nil zero = refl
take-nil (suc k) = refl

take-cons :
    {A : Type 0} {k j : ℕ} → k ≡ suc j → (x : A) (xs : List A) → take k (x ∷ xs) ≡ x ∷ take j xs
take-cons e x xs = rw e

zero_not_self : (x : ℤ) → is_pos x && pos 0 ==ℤ x ≡ false
zero_not_self (pos n) = ground arith
zero_not_self (negsuc n) = refl

module _ (f : Float) where
  -- The drivers that the map may show, in the order of the search.
  pub shown : (ℤ → Bool) → List (Driver f) → List (Driver f)
  shown visible [] = []
  shown visible (d ∷ drivers) =
      let rest = shown visible drivers in
      if is_pos d.driver_id && visible d.driver_id then d ∷ rest else rest

  -- The loop over the drivers with a limit of n + 1 adds to `out` the drivers with a user id that the
  -- profiles show, in their order, as many as the limit leaves room for; `out` is at most n long.
  pub visible_loop-shown :
      (visible : ℤ → Bool) (n : ℕ) (out drivers : List (Driver f))
      → length out ≤ n
      → visible_loop f visible (pos (suc n)) out drivers
        ≡ out ++ take (suc n - length out) (shown visible drivers)
  unfolding visible_loop shown
  visible_loop-shown visible n out [] room =
      sym (append-nil out) ∙ ap (◌++◌ out) (sym (take-nil (suc n - length out)))
  visible_loop-shown visible n out (d ∷ drivers) room =
      let live : ltb 0 (suc n) ≡ true = ground arith in
      elim (Bool-cases (is_pos d.driver_id)) [
        | inr no_user ↦ rw no_user (visible_loop-shown visible n out drivers room)
        | inl user ↦ elim (Bool-cases (visible d.driver_id)) [
          | inr hidden ↦ rw (user, hidden) (visible_loop-shown visible n out drivers room)
          | inl seen ↦
              rw (user, seen)
                (elim (Bool-cases (ltb (length (out ++ d ∷ [])) (suc n))) [
                  | inl more ↦
                      let size = length-append out (d ∷ []) in
                      let left : suc n - length out ≡ suc (suc n - length (out ++ d ∷ [])) =
                        ground arith in
                      rw (live, more)
                        (visible_loop-shown visible n (out ++ d ∷ []) drivers (ground arith)
                          ∙ append_assoc out (d ∷ []) _
                          ∙ ap (◌++◌ out) (sym (take-cons left d _)))
                  | inr full ↦
                      let size = length-append out (d ∷ []) in
                      let left : suc n - length out ≡ 1 = ground arith in
                      rw (live, full) (ap (◌++◌ out) (sym (take-cons left d _)))
                ])
        ]
      ]

  -- A driver that the sender may see: a user, visible by the lookup, and not the sender.
  pub record MayBeShown (repo : Shippings) (exclude : ℤ) (d : Driver f) : Type 0 where
    pub user : is_pos d.driver_id ≡ true
    pub not_self : is_pos exclude && d.driver_id ==ℤ exclude ≡ false
    pub visible :
        (ids : List ℤ) × (set : ℤ → Bool) × (repo.visible_on_map ids ≡ some set)
        × (set d.driver_id ≡ true)

  shown-All :
      (repo : Shippings) (exclude : ℤ) (ids : List ℤ) (visible : ℤ → Bool)
      (drivers : List (Driver f))
      → repo.visible_on_map ids ≡ some visible
      → All (λ d. is_pos exclude && d.driver_id ==ℤ exclude ≡ false) drivers
      → All (MayBeShown repo exclude) (shown visible drivers)
  unfolding shown
  shown-All repo exclude ids visible [] e h = tt
  shown-All repo exclude ids visible (d ∷ drivers) e h =
      elim (Bool-cases (is_pos d.driver_id && visible d.driver_id)) [
        | inr other ↦ rw other (shown-All repo exclude ids visible drivers e h.1)
        | inl both ↦ rw both (
          record { user = ground arith; not_self = h.0; visible = (ids, visible, e, ground arith) },
          shown-All repo exclude ids visible drivers e h.1,
        )
      ]

  to_drivers-All :
      (exclude : ℤ) (states : List (DriverState f))
      → All (λ d. is_pos exclude && d.driver_id ==ℤ exclude ≡ false) (to_drivers f exclude states)
  unfolding to_drivers
  to_drivers-All exclude [] = tt
  to_drivers-All exclude (s ∷ states) = elim (Option-cases (parse_driver_user_id s.id)) [
    | inl unknown ↦ rw (unknown, to_drivers) (zero_not_self exclude, to_drivers-All exclude states)
    | inr (id, parsed) ↦ elim (Bool-cases (is_pos exclude && id ==ℤ exclude)) [
      | inl self ↦ rw (parsed, to_drivers, self) (to_drivers-All exclude states)
      | inr other ↦ rw (parsed, to_drivers, other) (other, to_drivers-All exclude states)
    ]
  ]

  -- A result of at most `n` drivers, all of which the sender may see.
  abbrev pub MayBeResult : Shippings → ℤ → ℕ → List (Driver f) → Type 0
  MayBeResult repo exclude n drivers = (length drivers ≤ n) × All (MayBeShown repo exclude) drivers

  visible_loop-MayBeResult :
      (repo : Shippings) (exclude : ℤ) (n : ℕ) (ids : List ℤ) (visible : ℤ → Bool)
      (drivers : List (Driver f))
      → repo.visible_on_map ids ≡ some visible
      → All (λ d. is_pos exclude && d.driver_id ==ℤ exclude ≡ false) drivers
      → MayBeResult repo exclude (suc n) (visible_loop f visible (pos (suc n)) [] drivers)
  visible_loop-MayBeResult repo exclude n ids visible drivers e h =
      rw (visible_loop-shown visible n [] drivers (omega arith)) (
        omega (arith, length-take (suc n - 0) (shown visible drivers)),
        All-take (MayBeShown repo exclude) (suc n - 0) _
            (shown-All repo exclude ids visible drivers e h),
      )

  filter_visible_on_map-MayBeResult :
      (repo : Shippings) (exclude : ℤ) (drivers : List (Driver f)) (n : ℕ)
      → All (λ d. is_pos exclude && d.driver_id ==ℤ exclude ≡ false) drivers
      → MayBeResult repo exclude (suc n) (filter_visible_on_map f (some repo) drivers (pos (suc n)))
  unfolding filter_visible_on_map
  filter_visible_on_map-MayBeResult repo exclude [] n h = (omega arith, tt)
  filter_visible_on_map-MayBeResult repo exclude (d ∷ drivers) n h =
      elim (List-cases (positive_ids (driver_ids f (d ∷ drivers)))) [
        | inl no_user ↦ rw (no_user, filter_visible_on_map) (omega arith, tt)
        | inr (id, ids, users) ↦ elim (Option-cases (repo.visible_on_map (id ∷ ids))) [
          | inl failed ↦ rw (users, filter_visible_on_map, failed) (omega arith, tt)
          | inr (visible, e) ↦
              rw (users, filter_visible_on_map, e)
                (visible_loop-MayBeResult repo exclude n (id ∷ ids) visible (d ∷ drivers) e h)
        ]
      ]

  attach_job-driver_id :
      (by_user : ℤ → Option ActiveJob) (trips : ℤ → Option LatestTrip) (d : Driver f)
      → (attach_job f by_user trips d).driver_id ≡ d.driver_id
  unfolding attach_job
  attach_job-driver_id by_user trips d = ground arith

  map_attach-MayBeResult :
      (repo : Shippings) (exclude : ℤ) (n : ℕ) (by_user : ℤ → Option ActiveJob)
      (trips : ℤ → Option LatestTrip) (drivers : List (Driver f))
      → MayBeResult repo exclude n drivers
      → MayBeResult repo exclude n (map (attach_job f by_user trips) drivers)
  map_attach-MayBeResult repo exclude n by_user trips [] h = h
  map_attach-MayBeResult repo exclude zero by_user trips (d ∷ drivers) h = absurd (omega arith)
  map_attach-MayBeResult repo exclude (suc n) by_user trips (d ∷ drivers) h =
      let rest = map_attach-MayBeResult repo exclude n by_user trips drivers (omega arith, h.1.1) in
      let same = attach_job-driver_id by_user trips d in
      let first = h.1.0 in
      let (ids, set, e, member) = first.visible in
      (
        omega arith,
        (
          record {
            user = rw same first.user;
            not_self = rw same first.not_self;
            visible = (ids, set, e, rw same member);
          },
          rest.1,
        ),
      )

  attach_active_shippings-MayBeResult :
      (repo : Shippings) (exclude : ℤ) (n : ℕ) (drivers : List (Driver f))
      → MayBeResult repo exclude n drivers
      → MayBeResult repo exclude n (attach_active_shippings f (some repo) drivers)
  unfolding attach_active_shippings
  attach_active_shippings-MayBeResult repo exclude n drivers h =
      elim (List-cases (positive_ids (driver_ids f drivers))) [
        | inl no_user ↦ rw (no_user, attach_active_shippings) h
        | inr (id, ids, users) ↦ elim (Option-cases (repo.active_shippings (id ∷ ids))) [
          | inl failed ↦ rw (users, attach_active_shippings, failed) h
          | inr (by_user, e) ↦
              rw (users, attach_active_shippings, e)
                (map_attach-MayBeResult repo exclude n by_user _ drivers h)
        ]
      ]

  -- What a search answers: no more drivers than its limit, which lies between 1 and 500, and
  -- only such as the sender may see.
  pub record IsAnswer (repo : Shippings) (exclude : ℤ) (r : NearbyDrivers f) : Type 0 where
    pub bound : ℕ
    pub limited : r.limit ≡ pos (suc bound)
    pub capped : bound < 500
    pub counted : r.count ≡ length r.drivers
    pub fits : length r.drivers ≤ suc bound
    pub allowed : All (MayBeShown repo exclude) r.drivers

  -- A search that succeeds returns at most as many drivers as its limit, which lies between 1 and
  -- 500, with their number; each is a user, is not the sender and is visible on the map by the
  -- profiles. It needs a default limit of at least 1, which NewDriverService sees to.
  pub search_nearby-IsAnswer :
      (s : DriverService f) (repo : Shippings)
      (find : f.F → f.F → f.F → ℤ → Option (List (DriverState f))) (lat lng radius : f.F)
      (limit exclude : ℤ) (r : NearbyDrivers f)
      → s.shippings ≡ some repo
      → is_pos s.default_limit ≡ true
      → search_nearby f s find lat lng radius limit exclude ≡ some r
      → IsAnswer repo exclude r
  unfolding search_nearby
  search_nearby-IsAnswer s repo find lat lng radius limit exclude r has positive e =
      let (n, lim, small) = effective_limit_pos s.default_limit limit positive in
      let cap = effective_limit s.default_limit limit in
      elim (Option-cases
        (find lat lng (effective_radius f s.default_radius_km radius) (candidate_limit cap))) [
          | inl failed ↦ cc (rw (failed, search_nearby) at e)
          | inr (states, found) ↦
              let drivers = to_drivers f exclude states in
              let fits = attach_active_shippings-MayBeResult repo exclude (suc n) _ (
                filter_visible_on_map-MayBeResult repo exclude drivers n
                  (to_drivers-All exclude states)) in
              subst (IsAnswer repo exclude) (from_some (rw (found, search_nearby) at e)) (
                rw (has, lim)
                  (record {
                    bound = n;
                    limited = refl;
                    capped = small;
                    counted = refl;
                    fits = fits.0;
                    allowed = fits.1;
                  }))
        ]
