-- ===== src/Route/Service.antt =====
-- internal/route/service.go: CalculateWithMeta, and the keys of internal/cache/keys.go. Redis holds the
-- routes and the routes of trips; that it answers is `answers`. A call that singleflight lets share
-- the result of another one is given that result. What a goroutine saves or publishes later counts
-- as done.
pub mod Kept
pub mod Missed
pub mod Laws
use text.Mathlib.Text.{◌==◌ as str_eq}
use geo.Base.{
  ℕ, suc, List, [], ◌∷◌, Bool, true, false, not, ◌&&◌, Option, none, some, String, leb, ltb,
  if◌then◌else◌,
}
use geo.Base.Int.{ℤ, pos, is_pos, is_neg, ltb_ℤ, ◌==ℤ◌}
use geo.Base.Float.{Float}
use geo.Base.Result.{Result, ok, err}
use geo.Routing.Profiles.{TransportMode, normalize_mode}
use geo.Route.Model.{RouteError, overloaded, timeout, other, RouteRequest, RouteResponse}
use geo.Route.Answers.{mode_name, route_mode, normalize_alternatives}
use geo.Route.Backends.{
  Asked, RouteComputeResult, RouteBackend, compute_route_result, Slots, Waited, slot, timer, done,
  take_slot, free_slot,
}

-- NormalizeRoutePrecision
pub normalize_route_precision : ℤ → ℤ
normalize_route_precision precision =
    if is_neg precision then pos 0 else if ltb_ℤ (pos 6) precision then pos 6 else precision

-- The parts of a key of the routes' cache, with the texts of its coordinates.
pub record RouteKey : Type 0 where
  pub backend : String
  pub mode : String
  pub alternatives : ℤ
  pub start_lat : String
  pub start_lng : String
  pub end_lat : String
  pub end_lng : String

abbrev pub same_key : RouteKey → RouteKey → Bool
same_key a b =
    str_eq a.backend b.backend
    && str_eq a.mode b.mode
    && a.alternatives ==ℤ b.alternatives
    && str_eq a.start_lat b.start_lat
    && str_eq a.start_lng b.start_lng
    && str_eq a.end_lat b.end_lat
    && str_eq a.end_lng b.end_lng

-- RouteService with what it writes to: Redis, the repository and the bus.
pub record RouteService (f : Float) (W : Type 0) : Type 0 where
  pub redis : Bool
  pub routes : RouteKey → Option (RouteResponse f)
  pub trips : ℤ → Option (RouteResponse f)
  pub has_repo : Bool
  pub saved : List (RouteRequest f × RouteResponse f)
  pub has_bus : Bool
  pub published : List (ℤ × RouteResponse f)
  pub sem : Option Slots
  pub cache_precision : ℤ
  pub max_alternatives : ℤ
  pub backend : W

module _ {f : Float} where
  -- RouteKeyWithPrecision; `format` is fmt.Sprintf("%.<n>f", x).
  pub route_key_with_precision : (ℤ → f.F → String) → String → String → ℤ → ℤ → Asked f → RouteKey
  unfolding normalize_route_precision
  route_key_with_precision format backend mode alternatives precision asked =
      let n = normalize_route_precision precision in
      record {
        backend = if str_eq backend "" then "internal" else backend;
        mode = if str_eq mode "" then "car" else mode;
        alternatives = if is_pos alternatives then alternatives else pos 1;
        start_lat = format n asked.start_lat;
        start_lng = format n asked.start_lng;
        end_lat = format n asked.end_lat;
        end_lng = format n asked.end_lng;
      }

  module _ {W : Type 0} where
    -- `if s.redis != nil && req.TripID > 0 {SetTripRoute}`, whose error is dropped
    pub set_trip_route :
        Bool → RouteRequest f → RouteResponse f → RouteService f W → RouteService f W
    set_trip_route answers req resp s =
        if s.redis && answers && is_pos req.trip_id
        then record s { trips = λ t. if t ==ℤ req.trip_id then some resp else s.trips t }
        else s

    -- persistRoute
    pub persist_route : RouteRequest f → RouteResponse f → RouteService f W → RouteService f W
    persist_route req resp s = if s.has_repo then record s { saved = (req, resp) ∷ s.saved } else s

    -- publishRouteCalculated
    pub publish_route_calculated : ℤ → RouteResponse f → RouteService f W → RouteService f W
    publish_route_calculated trip_id resp s =
        if is_pos trip_id && s.has_bus
        then record s { published = (trip_id, resp) ∷ s.published }
        else s

    -- The route of the cache, where it is one: cached.Distance > 0
    pub cached_route : Bool → RouteKey → RouteService f W → Option (RouteResponse f)
    cached_route answers key s =
        if s.redis && answers
        then elim (s.routes key) [
          | none ↦ none
          | some resp ↦ if f.lt f.zero resp.distance then some resp else none
        ]
        else none

    -- SetRoute, whose error is dropped
    pub set_route : Bool → RouteKey → RouteResponse f → RouteService f W → RouteService f W
    set_route answers key resp s =
        if s.redis && answers
        then record s { routes = λ k. if same_key k key then some resp else s.routes k }
        else s

  module _ {W : Type 0} (b : RouteBackend f W) (waits : (s : Slots) → Waited s) (answers : Bool)
      (shared : Option (Result RouteError (RouteResponse f))) where
    -- What the function under singleflight does
    pub compute_and_cache :
        RouteKey
        → Asked f
        → RouteService f W
        → RouteService f W × Result RouteError (RouteResponse f)
    unfolding set_route
    compute_and_cache key asked s =
        let (w, answer) = compute_route_result b s.backend asked in
        let s' : RouteService f W = record s { backend = w } in
        elim answer [
          | err e ↦ (s', err e)
          | ok r ↦ (set_route answers key r.response s', ok r.response)
        ]

    -- group.Do, and what follows it
    pub calculate_missed :
        RouteRequest f
        → RouteKey
        → Asked f
        → RouteService f W
        → RouteService f W × Result RouteError (RouteResponse f)
    unfolding compute_and_cache set_trip_route persist_route publish_route_calculated
    calculate_missed req key asked s =
        let own = compute_and_cache key asked s in
        let step : RouteService f W × Result RouteError (RouteResponse f) = elim shared [
          | none ↦ own
          | some r ↦ (s, r)
        ] in
        elim step.1 [
          | err e ↦ (step.0, err e)
          | ok resp ↦ (
            publish_route_calculated req.trip_id resp
                (persist_route req resp (set_trip_route answers req resp step.0)),
            ok resp,
          )
        ]

    -- The slot that is taken is given back when the call returns.
    abbrev pub with_slots :
        Option Slots
        → RouteService f W × Result RouteError (RouteResponse f)
        → RouteService f W × Result RouteError (RouteResponse f)
    with_slots sem (s, r) = (record s { sem = sem }, r)

    -- The wait for a slot of the semaphore
    pub calculate_limited :
        RouteRequest f
        → RouteKey
        → Asked f
        → RouteService f W
        → RouteService f W × Result RouteError (RouteResponse f)
    unfolding calculate_missed
    calculate_limited req key asked s = elim s.sem [
      | none ↦ calculate_missed req key asked s
      | some slots ↦ elim (waits slots) [
        | slot free ↦
            with_slots (some (free_slot (take_slot slots)))
              (calculate_missed req key asked (record s { sem = some (take_slot slots) }))
        | timer ↦ (s, err overloaded)
        | done ↦ (s, err timeout)
      ]
    ]

    -- CalculateWithMeta for a mode that is known
    pub calculate_mode :
        (ℤ → f.F → String)
        → RouteRequest f
        → TransportMode
        → RouteService f W
        → RouteService f W × Result RouteError (RouteResponse f)
    unfolding calculate_limited cached_route set_trip_route persist_route
    calculate_mode format req mode s =
        let alternatives = normalize_alternatives req.alternatives s.max_alternatives in
        let asked : Asked f = record {
          mode = mode;
          alternatives = alternatives;
          start_lat = req.start_lat;
          start_lng = req.start_lng;
          end_lat = req.end_lat;
          end_lng = req.end_lng;
        } in
        let key =
          route_key_with_precision format b.backend_name (mode_name mode) alternatives
            s.cache_precision asked in
        let missed = calculate_limited req key asked s in
        elim (cached_route answers key s) [
          | some cached ↦
              (persist_route req cached (set_trip_route answers req cached s), ok cached)
          | none ↦ missed
        ]

    -- CalculateWithMeta; `fold` trims the mode and puts it in lower case.
    pub calculate_with_meta :
        (ℤ → f.F → String)
        → (String → String)
        → RouteRequest f
        → RouteService f W
        → RouteService f W × Result RouteError (RouteResponse f)
    unfolding calculate_mode
    calculate_with_meta format fold req s = elim (normalize_mode (fold (route_mode f req))) [
      | none ↦ (s, err other)
      | some mode ↦ calculate_mode format req mode s
    ]
