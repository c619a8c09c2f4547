-- ===== src/Service/Drivers.antt =====
-- internal/service/driver.go: the search for drivers near a sender. Redis and the Laravel database
-- are arguments: what a call of them gives, with `none` for an error. Texts are lists of bytes.
use Prim.Native.Nat.{ℕ}
use geo.Base.{
  Bool, ◌∷◌, Option, map, ◌==◌, if◌then◌else◌, some, none, ◌++◌, ◌||◌, false, [], not, length, ◌*◌,
  leb, ◌&&◌, true, ◌+◌, ◌-◌, ◌^◌, ltb,
}
pub mod Laws
use mathlib.Core.List.{reverse, List}
use geo.Base.Int.{ℤ, pos, negsuc, ◌==ℤ◌, is_pos, ltb_ℤ}
use geo.Base.Float.{Float}
use geo.Service.Ids.{positive_ids}
use geo.Service.Limits.{effective_limit, effective_radius, candidate_limit}

-- strings.TrimSpace, on ASCII.
abbrev is_space : ℕ → Bool
is_space c = c == 32 || (leb 9 c && leb c 13)

trim_left : List ℕ → List ℕ
trim_left [] = []
trim_left (c ∷ s) = let rest = trim_left s in if is_space c then rest else c ∷ s

pub trim_space : List ℕ → List ℕ
unfolding trim_left
trim_space s = reverse (trim_left (reverse (trim_left s)))

-- strconv.ParseInt(s, 10, 64): digits behind an optional sign, in the range of an int64.
digits_value : ℕ → List ℕ → Option ℕ
digits_value acc [] = some acc
digits_value acc (c ∷ s) =
    let rest = digits_value (acc * 10 + (c - b'0')) s in
    if leb b'0' c && leb c b'9' then rest else none

pub parse_int : List ℕ → Option ℤ
unfolding digits_value
parse_int [] = none
parse_int (c ∷ s) =
    let digits = if c == b'-' || c == b'+' then s else c ∷ s in
    elim digits [
      | [] ↦ none
      | d ∷ ds ↦ elim (digits_value 0 (d ∷ ds)) [
        | none ↦ none
        | some n ↦
            if c == b'-'
            then (if leb n (2 ^ 63) then some (if n == 0 then pos 0 else negsuc (n - 1)) else none)
            else if ltb n (2 ^ 63)
            then some (pos n)
            else none
      ]
    ]

-- parseDriverUserID
pub parse_driver_user_id : List ℕ → Option ℤ
unfolding trim_space parse_int
parse_driver_user_id raw = elim (trim_space raw) [
  | [] ↦ none
  | c ∷ s ↦ elim (parse_int (c ∷ s)) [ none ↦ none | some id ↦ if is_pos id then some id else none ]
]

pub record LatestTrip : Type 0 where
  pub trip_id : ℤ
  pub destination : List ℕ
  pub vehicle_type_id : ℤ
  pub vehicle_type_image : List ℕ

pub record ActiveJob : Type 0 where
  pub destination : List ℕ
  pub trip_id : ℤ
  pub vehicle_type_id : ℤ
  pub vehicle_type_image : List ℕ
  pub has_shipping : Bool
  pub latest_trip : Option LatestTrip

-- What the service calls of DriverShippingRepository.
pub record Shippings : Type 0 where
  pub visible_on_map : List ℤ → Option (ℤ → Bool)
  pub active_shippings : List ℤ → Option (ℤ → Option ActiveJob)
  pub latest_trips : List ℤ → Option (ℤ → Option LatestTrip)

module _ (f : Float) where
  pub record DriverState : Type 0 where
    pub id : List ℕ
    pub lat : f.F
    pub lng : f.F
    pub timestamp_ms : ℤ
    pub distance_km : f.F

  pub record Driver : Type 0 where
    pub id : List ℕ
    pub driver_id : ℤ
    pub lat : f.F
    pub lng : f.F
    pub timestamp_ms : ℤ
    pub distance_km : f.F
    pub active : Option ActiveJob

  -- The loop over the states: the sender does not see itself. An id that is no number stays 0.
  pub to_drivers : ℤ → List DriverState → List Driver
  to_drivers exclude [] = []
  to_drivers exclude (s ∷ states) =
      let rest = to_drivers exclude states in
      let driver_id = parse_driver_user_id s.id in
      let hidden : Bool = elim driver_id [
        | none ↦ false
        | some id ↦ is_pos exclude && id ==ℤ exclude
      ] in
      if hidden
      then rest
      else record {
        id = s.id;
        driver_id = elim driver_id [ none ↦ pos 0 | some id ↦ id ];
        lat = s.lat;
        lng = s.lng;
        timestamp_ms = s.timestamp_ms;
        distance_km = s.distance_km;
        active = none;
      }
        ∷ rest

  abbrev pub driver_ids : List Driver → List ℤ
  driver_ids = map (λ (d : Driver). d.driver_id)

  -- The last loop of filterVisibleOnMap: it stops at the limit.
  pub visible_loop : (ℤ → Bool) → ℤ → List Driver → List Driver → List Driver
  visible_loop visible limit out [] = out
  visible_loop visible limit out (d ∷ drivers) =
      let skipped = visible_loop visible limit out drivers in
      let taken = visible_loop visible limit (out ++ d ∷ []) drivers in
      if not (is_pos d.driver_id)
      then skipped
      else if not (visible d.driver_id)
      then skipped
      else if is_pos limit && not (ltb_ℤ (pos (length (out ++ d ∷ []))) limit)
      then out ++ d ∷ []
      else taken

  -- filterVisibleOnMap
  pub filter_visible_on_map : Option Shippings → List Driver → ℤ → List Driver
  unfolding visible_loop
  filter_visible_on_map shippings [] limit = []
  filter_visible_on_map shippings (d ∷ drivers) limit = elim shippings [
    | none ↦ []
    | some repo ↦
        let user_ids = positive_ids (driver_ids (d ∷ drivers)) in
        elim user_ids [
          | [] ↦ []
          | id ∷ ids ↦ elim (repo.visible_on_map (id ∷ ids)) [
            | none ↦ []
            | some visible ↦ visible_loop visible limit [] (d ∷ drivers)
          ]
        ]
  ]

  -- noShippingIDs
  without_shipping : (ℤ → Option ActiveJob) → List ℤ → List ℤ
  without_shipping by_user [] = []
  without_shipping by_user (id ∷ ids) =
      let rest = without_shipping by_user ids in
      elim (by_user id) [ none ↦ id ∷ rest | some job ↦ rest ]

  -- Step 3 for one driver: a shipping takes priority, the latest trip is the fallback.
  pub attach_job : (ℤ → Option ActiveJob) → (ℤ → Option LatestTrip) → Driver → Driver
  attach_job by_user trips d = if not (is_pos d.driver_id) then d else elim (by_user d.driver_id) [
    | some job ↦ record d { active = some (record job { has_shipping = true }) }
    | none ↦ elim (trips d.driver_id) [
      | none ↦ d
      | some trip ↦ record d {
        active = some (record {
          destination = trip.destination;
          trip_id = trip.trip_id;
          vehicle_type_id = trip.vehicle_type_id;
          vehicle_type_image = trip.vehicle_type_image;
          has_shipping = false;
          latest_trip = some trip;
        });
      }
    ]
  ]

  -- attachActiveShippings
  pub attach_active_shippings : Option Shippings → List Driver → List Driver
  unfolding without_shipping attach_job
  attach_active_shippings none drivers = drivers
  attach_active_shippings (some repo) drivers =
      let user_ids = positive_ids (driver_ids drivers) in
      elim user_ids [
        | [] ↦ drivers
        | id ∷ ids ↦ elim (repo.active_shippings (id ∷ ids)) [
          | none ↦ drivers
          | some by_user ↦
              let trips : ℤ → Option LatestTrip = elim (without_shipping by_user (id ∷ ids)) [
                | [] ↦ λ id. none
                | i ∷ is ↦ elim (repo.latest_trips (i ∷ is)) [
                  | none ↦ λ id. none
                  | some trips ↦ trips
                ]
              ] in
              map (attach_job by_user trips) drivers
        ]
      ]

  pub record DriverService : Type 0 where
    pub default_radius_km : f.F
    pub default_limit : ℤ
    pub shippings : Option Shippings

  pub record NearbyDrivers : Type 0 where
    pub radius_km : f.F
    pub limit : ℤ
    pub count : ℕ
    pub drivers : List Driver

  -- SearchNearby, with FindNearbyDrivers as an argument.
  unfoldable pub search_nearby :
      DriverService
      → (f.F → f.F → f.F → ℤ → Option (List DriverState))
      → f.F
      → f.F
      → f.F
      → ℤ
      → ℤ
      → Option NearbyDrivers
  unfolding filter_visible_on_map attach_active_shippings to_drivers
  search_nearby s find_nearby lat lng radius_km limit exclude =
      let radius = effective_radius f s.default_radius_km radius_km in
      let max_count = effective_limit s.default_limit limit in
      elim (find_nearby lat lng radius (candidate_limit max_count)) [
        | none ↦ none
        | some states ↦
            let shown = filter_visible_on_map s.shippings (to_drivers exclude states) max_count in
            let drivers = attach_active_shippings s.shippings shown in
            some (record {
              radius_km = radius;
              limit = max_count;
              count = length drivers;
              drivers = drivers;
            })
      ]
