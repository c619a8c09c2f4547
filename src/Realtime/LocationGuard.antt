-- ===== src/Realtime/LocationGuard.antt =====
-- internal/wsplatform/location_guard.go: the guard against updates that come too often. Times are
-- nanoseconds, and what is stored is whole milliseconds. The state is what Redis holds under the key
-- of the subject, with the time at which it expires. Nothing in the code joins the GET and the SET of
-- an update: `get_entry` and `validate_entry` are its two steps, and `validate` takes them at once,
-- which is what an update does that no other update of the subject overlaps.
pub mod Laws
use geo.Base.{ℕ, ◌+◌, ◌*◌, ◌/◌, Bool, true, false, not, Option, none, some, ltb, leb, if◌then◌else◌}
use geo.Base.Float.{Float}
use geo.Coords.{valid_coords}

-- LocationGuardConfig
pub record LocationGuardConfig : Type 0 where
  pub min_update_interval : ℕ
  pub state_ttl : ℕ

-- locationState
pub record LocationState (f : Float) : Type 0 where
  pub lat : f.F
  pub lng : f.F
  pub ts : ℕ

-- What Redis holds; the state is none where json.Unmarshal fails.
pub record Entry (f : Float) : Type 0 where
  pub state : Option (LocationState f)
  pub expires : ℕ

pub data GuardError : Type 0 where
  invalid_coords too_frequent set_failed : GuardError

-- Is Redis configured, and do Get and Set go through?
pub record Calls : Type 0 where
  pub redis : Bool
  pub get_up : Bool
  pub set_up : Bool

-- NewLocationGuard, with its defaults of a second and of ten minutes
pub new_location_guard : LocationGuardConfig → LocationGuardConfig
new_location_guard cfg = record {
  min_update_interval =
      if leb cfg.min_update_interval 0 then 1000000000 else cfg.min_update_interval;
  state_ttl = if leb cfg.state_ttl 0 then 600000000000 else cfg.state_ttl;
}

module _ {f : Float} (cfg : LocationGuardConfig) where
  -- Get: an entry that has expired is gone.
  pub get_entry : ℕ → Option (Entry f) → Option (Entry f)
  get_entry now none = none
  get_entry now (some e) = if leb e.expires now then none else some e

  -- store
  pub store : Calls → ℕ → f.F → f.F → Option (Entry f) → Option (Entry f) × Option GuardError
  store calls now lat lng entry =
      if calls.set_up
      then (
        some (record {
          state = some (record { lat = lat; lng = lng; ts = now / 1000000 });
          expires = now + cfg.state_ttl;
        }),
        none,
      )
      else (entry, some set_failed)

  -- Validate once the entry was read
  pub validate_entry :
      Calls
      → ℕ
      → f.F
      → f.F
      → Option (Entry f)
      → Option (Entry f)
      → Option (Entry f) × Option GuardError
  unfolding store
  validate_entry calls now lat lng entry none = store calls now lat lng entry
  validate_entry calls now lat lng entry (some e) = elim e.state [
    | none ↦ store calls now lat lng entry
    | some prev ↦
        if ltb now (prev.ts * 1000000 + cfg.min_update_interval)
        then (entry, some too_frequent)
        else store calls now lat lng entry
  ]

  -- Validate, with no other update of the subject between its GET and its SET.
  pub validate : Calls → ℕ → f.F → f.F → Option (Entry f) → Option (Entry f) × Option GuardError
  unfolding get_entry validate_entry
  validate calls now lat lng entry =
      if not (valid_coords f lat lng)
      then (entry, some invalid_coords)
      else if not calls.redis
      then (entry, none)
      else if not calls.get_up
      then (entry, none)
      else validate_entry calls now lat lng entry (get_entry now entry)
