-- ===== src/Tests/Routes.antt =====
-- Routes through waypoints, and backends at work, at concrete inputs.
use geo.Base.{
  refl, ℕ, List, [], ◌∷◌, Option, none, some, Bool, true, false, map, ◌≡◌, ◌*◌, if◌then◌else◌,
  arith, ◌==◌, suc, Bool-cases, ltb, inl, ltb→lt, inr,
}
use geo.Base.Int.{◌+ℤ◌, ℤ, pos}
use geo.Base.Result.{ok, err}
use geo.Tests.Fixed.{fixed, fixed-IsOrdered}
use geo.Routing.Profiles.{TransportMode}
use geo.Routing.Polyline.{
  Coord, Point, decoded, encode_polyline, decode_polyline, decode_loop, decode_chunk,
}
use geo.Routing.Polyline.Text.{snap, decode_polyline-encode_polyline}
use geo.Coords.Polyline.{combine_polylines, decode_unchecked}
use geo.Coords.Polyline.Agree.{
  joined_points, combine_polylines-join, decode_unchecked-decode_polyline,
}
use geo.Route.Model.{Route, MultiModalLeg, RouteRequest, RouteResponse, RouteError, not_found}
use geo.Route.Answers.{
  coord, decode_points, leg_of, build_route_response, build_multi_modal_response,
  normalize_alternatives, max_alternatives,
}
use geo.Route.Answers.Laws.{
  present, sum, points_of, wanted, IsLeast, normalize_alternatives-bounds,
  build_multi_modal_response-journey,
}
use geo.Route.Waypoints.{Waypoint, order_waypoints_nearest_neighbor}
use geo.Route.Waypoints.Order.{IsGreedy, order_waypoints_nearest_neighbor-IsGreedy}
use geo.Route.Service.{RouteService, calculate_with_meta}
use geo.Route.Service.Laws.{IsCalculated, calculate_with_meta-IsCalculated}
use geo.Route.Multi.{MultiRouteRequest}
use geo.Route.Backends.{slot, Asked, Slots, Waited, timer, Limited, limited_result, fallback_result}
use geo.Route.Backends.Laws.{
  IsFallback, IsLimited, fallback_result-IsFallback, limited_result-IsLimited,
}
use geo.Route.Backends.Osrm.{Client, osrm_backend}
use geo.Route.Backends.Internal.{
  Engine, InternalBackend, running, deadline_exceeded, engine_for, load_locked, internal_backend,
  can_serve_mode_without_load, loaded_answer,
}
use geo.Route.Backends.Internal.Laws.{IsServed, engine_for-IsServed, run_loads, load_locked-once}
use mathlib.Core.List.{Perm}

-- Coordinates in units of the fifth decimal place, and two legs that meet.
abbrev units : Coord
units = record { F = ℤ; quantize = λ z. z; restore = λ z. z }

abbrev at : ℕ → ℕ → Point units
at lat lng = record { lat = pos lat; lng = pos lng }

abbrev two_legs : List (List (Point units))
two_legs =
    (at 3572000 5133000 ∷ at 3573000 5134000 ∷ [])
    ∷ (at 3573000 5134000 ∷ at 3574000 5136000 ∷ [])
    ∷ []

combine_polylines-join_example :
    combine_polylines units (map (encode_polyline units) two_legs)
    ≡ decoded (encode_polyline units (joined_points units two_legs))
combine_polylines-join_example = combine_polylines-join units two_legs (
  (
    ((omega arith, omega arith), (omega arith, omega arith)),
    (((omega arith, omega arith), (omega arith, omega arith)), tt),
  ),
  (
    (
      ((omega arith, omega arith), (omega arith, omega arith)),
      (((omega arith, omega arith), (omega arith, omega arith)), tt),
    ),
    tt,
  ),
)

abbrev a_leg : List (Point units)
a_leg = at 3572000 5133000 ∷ []

decode_unchecked-decode_polyline_example :
    decode_unchecked units (encode_polyline units a_leg) ≡ decoded (map (snap units) a_leg)
decode_unchecked-decode_polyline_example =
    decode_unchecked-decode_polyline units (encode_polyline units a_leg) (map (snap units) a_leg) (
      decode_polyline-encode_polyline units a_leg
        (((omega arith, omega arith), (omega arith, omega arith)), tt))

abbrev stop : ℕ → Waypoint fixed
stop n = record { lat = n * 1000; lng = 51000; label = "" }

order_waypoints_nearest_neighbor-IsGreedy_example :
    (rest : List (Waypoint fixed)) × (order_waypoints_nearest_neighbor fixed
        (stop 35 ∷ stop 38 ∷ stop 36 ∷ [])
      ≡ some (stop 35 ∷ rest))
    × Perm rest (stop 38 ∷ stop 36 ∷ [])
    × IsGreedy fixed-IsOrdered (stop 35) rest
order_waypoints_nearest_neighbor-IsGreedy_example =
    order_waypoints_nearest_neighbor-IsGreedy fixed-IsOrdered (stop 35) (stop 38 ∷ stop 36 ∷ [])

-- A route of 2 km without points, for every request but the second leg's.
abbrev a_route : Route fixed
a_route = record { distance = 2000; duration = 3000; points = []; polyline = []; instructions = [] }

abbrev found_route : RouteResponse fixed
found_route = build_route_response fixed TransportMode.car (a_route ∷ [])

abbrev calculated : ℕ → RouteRequest fixed → Option (RouteResponse fixed) × Option RouteError
calculated i req = if i == 1 then (none, some not_found) else (some found_route, none)

abbrev three_stops : MultiRouteRequest fixed
three_stops = record { waypoints = stop 35 ∷ stop 38 ∷ stop 36 ∷ []; mode = "car"; trip_id = pos 0 }

normalize_alternatives-bounds_example :
    (k : ℕ) × (normalize_alternatives (pos 9) (max_alternatives (pos 2)) ≡ pos (suc k))
    × IsLeast k (wanted (pos 9)) (wanted (pos 2)) 2
normalize_alternatives-bounds_example = normalize_alternatives-bounds (pos 2) (pos 9)

-- An engine with a road graph, and a backend that has not loaded it yet.
abbrev an_engine : Bool → Engine fixed
an_engine road = record {
  has_graph = road;
  has_rail_graph = false;
  has_transit_graph = false;
  compute_train_route = λ a b c d. [];
  compute_transit_route = λ a b c d. [];
  calculate_alternatives = λ a b c d mode n. a_route ∷ [];
}

abbrev loads_once : ℕ → Option (Option (Engine fixed))
loads_once n = if n == 0 then none else some (some (an_engine true))

abbrev idle : ℕ → InternalBackend fixed
idle loads = record {
  engine = none;
  without_graph = an_engine false;
  graph_enabled = true;
  lazy_load = true;
  load_engine = some loads_once;
  loads = loads;
}

engine_for-IsServed_example :
    IsServed TransportMode.car deadline_exceeded
      (engine_for (idle 0) TransportMode.car deadline_exceeded).1
    × (can_serve_mode_without_load (idle 0) TransportMode.car ≡ true
        → (e : Engine fixed) × (engine_for (idle 0) TransportMode.car deadline_exceeded
            ≡ (idle 0, ok e)))
engine_for-IsServed_example = engine_for-IsServed (idle 0) TransportMode.car deadline_exceeded

abbrev loaded : InternalBackend fixed
loaded = record (idle 2) { engine = some (an_engine true) }

load_locked-once_example :
    run_loads loaded loads_once (running ∷ deadline_exceeded ∷ [])
    ≡ (loaded, map (λ c. ok (an_engine true)) (running ∷ deadline_exceeded ∷ []))
unfolding load_locked loaded_answer
load_locked-once_example =
    load_locked-once (idle 1) loaded loads_once running (an_engine true)
      (running ∷ deadline_exceeded ∷ []) refl

abbrev asked_for : TransportMode → Asked fixed
asked_for mode = record {
  mode = mode;
  alternatives = pos 1;
  start_lat = 35000;
  start_lng = 51000;
  end_lat = 36000;
  end_lng = 52000;
}

-- A server of routes that does not answer in time, before the engine.
abbrev late_client : Client fixed Unit
late_client = record {
  route = λ w asked. (w, err (record { is_deadline = true; msg = "" }));
  contains = λ s t. false;
}

fallback_result-IsFallback_example :
    IsFallback
      (osrm_backend late_client)
      (internal_backend running)
      tt
      loaded
      (asked_for TransportMode.car)
      (fallback_result
        (osrm_backend late_client)
        (internal_backend running)
        (tt, loaded)
        (asked_for TransportMode.car))
fallback_result-IsFallback_example =
    fallback_result-IsFallback (osrm_backend late_client) (internal_backend running) tt loaded
      (asked_for TransportMode.car)

abbrev when_free : (s : Slots) → Waited s
when_free s = elim (Bool-cases (ltb s.in_use s.capacity)) [
  | inl room ↦ slot (ltb→lt s.in_use s.capacity room)
  | inr full ↦ timer
]

abbrev one_slot : Limited (InternalBackend fixed)
one_slot = record { inner = loaded; sem = some (record { capacity = 1; in_use = 1 }) }

limited_result-IsLimited_example :
    IsLimited
      (internal_backend running)
      "internal"
      when_free
      one_slot
      (asked_for TransportMode.car)
      (limited_result
        (internal_backend running)
        "internal"
        when_free
        one_slot
        (asked_for TransportMode.car))
limited_result-IsLimited_example =
    limited_result-IsLimited (internal_backend running) "internal" when_free one_slot
      (asked_for TransportMode.car)

-- A walk, a leg without a route, and a ride.
abbrev a_journey : List (MultiModalLeg fixed)
a_journey =
    record {
      mode = TransportMode.walking;
      route = some (record a_route { polyline = b'?' ∷ b'A' ∷ [] });
    }
    ∷ record { mode = TransportMode.bus; route = none }
    ∷ record { mode = TransportMode.train; route = some a_route }
    ∷ []

build_multi_modal_response-journey_example :
    let resp = build_multi_modal_response fixed TransportMode.train a_journey in
    (resp.legs ≡ map (λ x. leg_of fixed x.0 x.1) (present fixed a_journey))
    × (resp.distance ≡ sum fixed (λ r. r.distance) 0 (present fixed a_journey))
    × (resp.duration ≡ sum fixed (λ r. r.duration) 0 (present fixed a_journey))
    × (decode_polyline (coord fixed) resp.polyline
        ≡ decoded (map (snap (coord fixed)) (points_of fixed (present fixed a_journey))))
unfolding decode_points decode_polyline decode_loop decode_chunk ◌+ℤ◌
build_multi_modal_response-journey_example =
    build_multi_modal_response-journey fixed TransportMode.train a_journey
      (((omega arith, omega arith), (omega arith, omega arith)), tt)

-- A service with an empty cache and one slot, over the engine.
abbrev a_service : RouteService fixed (InternalBackend fixed)
a_service = record {
  redis = true;
  routes = λ key. none;
  trips = λ t. none;
  has_repo = true;
  saved = [];
  has_bus = true;
  published = [];
  sem = some (record { capacity = 1; in_use = 0 });
  cache_precision = pos 5;
  max_alternatives = pos 3;
  backend = loaded;
}

abbrev a_request : RouteRequest fixed
a_request = record {
  trip_id = pos 4;
  start_lat = 35000;
  start_lng = 51000;
  end_lat = 36000;
  end_lng = 52000;
  mode = "car";
  vehicle_type = "";
  alternatives = pos 1;
}

calculate_with_meta-IsCalculated_example :
    IsCalculated
      (internal_backend running)
      when_free
      true
      none
      (λ n c. "")
      a_request
      a_service
      (calculate_with_meta
        (internal_backend running)
        when_free
        true
        none
        (λ n c. "")
        (λ m. m)
        a_request
        a_service)
calculate_with_meta-IsCalculated_example =
    calculate_with_meta-IsCalculated (internal_backend running) when_free true none (λ n c. "")
      (λ m. m) a_request a_service
