-- ===== src/Realtime/LocationGuard/Laws.antt =====
-- How far apart the updates are that the guard lets through, where they come one after another.
use mathlib.Core.Path.{subst}
use geo.Base.{
  ◌*◌, ◌/◌, ℕ, ◌+◌, List, [], ◌∷◌, true, Option, none, some, ◌<◌, ◌≤◌, ◌/◌, ◌≡◌, if_cases, not,
  Bool-cases, leb, inl, arith, inr, ltb, false, sym, refl,
}
use geo.Base.Float.{Float}
use geo.Coords.{valid_coords}
use geo.Realtime.LocationGuard.{
  LocationGuardConfig, Entry, GuardError, too_frequent, Calls, get_entry, store, validate_entry,
  validate,
}

-- Redis is there and answers.
abbrev pub all_up : Calls
all_up = record { redis = true; get_up = true; set_up = true }

-- An update: when it comes, and where it is.
pub record Update (f : Float) : Type 0 where
  pub now : ℕ
  pub lat : f.F
  pub lng : f.F

-- The time of an update that was let through.
abbrev pub accepted_at : ℕ → Option GuardError → List ℕ → List ℕ
accepted_at now none rest = now ∷ rest
accepted_at now (some e) rest = rest

-- Each time is at least the interval after the one before it, up to the millisecond that is cut.
abbrev pub SpacedFrom : ℕ → ℕ → List ℕ → Type 0
SpacedFrom interval last [] = Unit
SpacedFrom interval last (t ∷ ts) = (last + interval < t + 1000000) × SpacedFrom interval t ts

abbrev pub Spaced : ℕ → List ℕ → Type 0
Spaced interval [] = Unit
Spaced interval (t ∷ ts) = SpacedFrom interval t ts

module _ {f : Float} (cfg : LocationGuardConfig) where
  -- The times of the updates of one subject that are let through, each decided before the next begins.
  pub accepted_times : List (Update f) → Option (Entry f) → List ℕ
  accepted_times [] entry = []
  accepted_times (u ∷ us) entry =
      let step = validate cfg all_up u.now u.lat u.lng entry in
      accepted_at u.now step.1 (accepted_times us step.0)

  -- What is stored is the update of this time.
  abbrev entry_of : ℕ → f.F → f.F → Option (Entry f)
  entry_of now lat lng = some (record {
    state = some (record { lat = lat; lng = lng; ts = now / 1000000 });
    expires = now + cfg.state_ttl;
  })

  -- A step after an update that was let through: refused with the entry kept, or far enough and stored.
  abbrev Next : ℕ → Option (Entry f) → Update f → Option (Entry f) × Option GuardError → Type 0
  Next last entry u (entry', none) =
      (last + cfg.min_update_interval < u.now + 1000000) × (entry' ≡ entry_of u.now u.lat u.lng)
  Next last entry u (entry', some e) = entry' ≡ entry

  validate-Next :
      (last : ℕ) (lat lng : f.F) (u : Update f)
      → cfg.min_update_interval ≤ cfg.state_ttl
      → Next last
          (entry_of last lat lng)
          u
          (validate cfg all_up u.now u.lat u.lng (entry_of last lat lng))
  unfolding validate get_entry validate_entry store
  validate-Next last lat lng u room =
      let entry = entry_of last lat lng in
      if_cases (Next last entry u) (not (valid_coords f u.lat u.lng)) (λ _. refl)
        λ valid. elim (Bool-cases (leb (last + cfg.state_ttl) u.now)) [
          | inl gone ↦ rw (gone, validate) (ground (arith, gone, room), refl)
          | inr there ↦
              rw (there, validate)
                (if_cases (Next last entry u)
                  (ltb u.now (last / 1000000 * 1000000 + cfg.min_update_interval)) (λ _. refl)
                  (λ far. (ground (arith, far), refl)))
        ]

  abbrev RestSpaced : List (Update f) → Type 0
  RestSpaced us =
      (last : ℕ) (lat lng : f.F)
      → SpacedFrom cfg.min_update_interval last (accepted_times us (entry_of last lat lng))

  step_lem :
      (last : ℕ) (lat lng : f.F) (u : Update f) (us : List (Update f))
      (step : Option (Entry f) × Option GuardError)
      → RestSpaced us
      → Next last (entry_of last lat lng) u step
      → SpacedFrom cfg.min_update_interval last
          (accepted_at u.now step.1 (accepted_times us step.0))
  step_lem last lat lng u us (entry', none) rest (far, same) = (
    far,
    subst (λ e. SpacedFrom cfg.min_update_interval u.now (accepted_times us e)) (sym same)
        (rest u.now u.lat u.lng),
  )
  step_lem last lat lng u us (entry', some e) rest same =
      subst (λ e. SpacedFrom cfg.min_update_interval last (accepted_times us e)) (sym same)
        (rest last lat lng)

  rest_lem : (us : List (Update f)) → cfg.min_update_interval ≤ cfg.state_ttl → RestSpaced us
  unfolding accepted_times
  rest_lem [] room last lat lng = tt
  rest_lem (u ∷ us) room last lat lng =
      step_lem last lat lng u us _ (rest_lem us room) (validate-Next last lat lng u room)

  -- Where each update of a subject is decided before the next one begins, so that no other GET or SET
  -- of its key comes between its own two, and while Redis answers and the state lives as long as the
  -- interval, the updates of the subject that the guard lets through come at least the configured
  -- interval apart, less the millisecond that the stored time may have lost.
  pub accepted_times-Spaced :
      (us : List (Update f))
      → cfg.min_update_interval ≤ cfg.state_ttl
      → Spaced cfg.min_update_interval (accepted_times us none)
  unfolding accepted_times validate get_entry validate_entry store
  accepted_times-Spaced [] room = tt
  accepted_times-Spaced (u ∷ us) room = elim (Bool-cases (valid_coords f u.lat u.lng)) [
    | inl valid ↦ rw (valid, validate) (rest_lem us room u.now u.lat u.lng)
    | inr wrong ↦ rw (wrong, validate) (accepted_times-Spaced us room)
  ]

  -- While Redis answers and the state lives as long as the interval, of two updates of a subject of
  -- which nothing is stored, at legal places and the second one at most the interval less a
  -- millisecond after the first, the second is refused where it comes after the first one is decided;
  -- but where each has read the key before the other one writes it, both are let through.
  pub overlap_passes_both :
      (u v : Update f)
      → valid_coords f u.lat u.lng ≡ true
      → valid_coords f v.lat v.lng ≡ true
      → cfg.min_update_interval ≤ cfg.state_ttl
      → v.now + 1000000 ≤ u.now + cfg.min_update_interval
      → let first = validate {f = f} cfg all_up u.now u.lat u.lng none in
        let early =
          validate_entry {f = f} cfg all_up v.now v.lat v.lng first.0 (get_entry cfg v.now none) in
        (first.1 ≡ none)
        × ((validate cfg all_up v.now v.lat v.lng first.0).1 ≡ some too_frequent)
        × (early.1 ≡ none)
  unfolding validate get_entry validate_entry store
  overlap_passes_both u v here there room near =
      let lives : leb (u.now + cfg.state_ttl) v.now ≡ false = ground (arith, room, near) in
      let soon : ltb v.now (u.now / 1000000 * 1000000 + cfg.min_update_interval) ≡ true =
        ground (arith, near) in
      rw (here, there, lives, soon) (refl, refl, refl)
