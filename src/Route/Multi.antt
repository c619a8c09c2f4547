-- ===== src/Route/Multi.antt =====
-- internal/route/multi_service.go: Compute, which orders the waypoints, asks for a route of each leg
-- and joins the legs. The legs run at the same time; `calculate i` is what RouteService.Calculate
-- gives to the i-th, and `ctx_done i` its error where the context is done before it has a slot.
pub mod Checks
pub mod Laws
use geo.Base.{
  ℕ, zero, suc, ◌+◌, List, [], ◌∷◌, Bool, not, Option, none, some, String, map, ltb, length,
  if◌then◌else◌,
}
use geo.Base.Int.{ℤ, pos}
use geo.Base.Float.{Float}
use geo.Base.Result.{Result, ok, err}
use geo.Coords.{valid_coords}
use geo.Coords.Polyline.{combine_polylines}
use geo.Routing.Polyline.{decoded, malformed, out_of_fuel}
use geo.Route.Model.{RouteError, RouteRequest, RouteResponse}
use geo.Route.Answers.{coord}
use geo.Route.Waypoints.{Waypoint, order_waypoints_nearest_neighbor}

pub record MultiRouteRequest (f : Float) : Type 0 where
  pub waypoints : List (Waypoint f)
  pub mode : String
  pub trip_id : ℤ

pub record MultiRouteLeg (f : Float) : Type 0 where
  pub from : Waypoint f
  pub to : Waypoint f
  pub distance_km : f.F
  pub duration_min : f.F

pub record MultiRouteResponse (f : Float) : Type 0 where
  pub total_distance_km : f.F
  pub total_duration_min : f.F
  pub polyline : List ℕ
  pub mode : String
  pub legs : List (MultiRouteLeg f)

-- The errors of Compute; `panicked` stands for an index out of range.
pub data MultiError : Type 0 where
  too_few too_many panicked : MultiError
  invalid_waypoint no_route : ℕ → MultiError
  leg_failed : ℕ → RouteError → MultiError

-- legResult
pub record LegResult (f : Float) : Type 0 where
  pub from : Waypoint f
  pub to : Waypoint f
  pub resp : Option (RouteResponse f)
  pub error : Option RouteError

module _ (f : Float) where
  -- The check of the coordinates, from index `i` on.
  pub first_invalid : ℕ → List (Waypoint f) → Option ℕ
  first_invalid i [] = none
  first_invalid i (wp ∷ wps) =
      let rest = first_invalid (suc i) wps in
      if not (valid_coords f wp.lat wp.lng) then some i else rest

  module _ (calculate : ℕ → RouteRequest f → Option (RouteResponse f) × Option RouteError)
      (ctx_done : ℕ → Option RouteError) where
    -- One of the goroutines
    pub leg : MultiRouteRequest f → ℕ → Waypoint f → Waypoint f → LegResult f
    leg req i from to = elim (ctx_done i) [
      | some e ↦ record { from = from; to = to; resp = none; error = some e }
      | none ↦
          let answer = calculate i (record {
            trip_id = req.trip_id;
            start_lat = from.lat;
            start_lng = from.lng;
            end_lat = to.lat;
            end_lng = to.lng;
            mode = req.mode;
            vehicle_type = "";
            alternatives = pos 0;
          }) in
          record { from = from; to = to; resp = answer.0; error = answer.1 }
    ]

    -- The legs from the i-th waypoint on, each to the next one.
    pub legs_from : MultiRouteRequest f → ℕ → List (Waypoint f) → List (LegResult f)
    unfolding leg
    legs_from req i [] = []
    legs_from req i (from ∷ []) = []
    legs_from req i (from ∷ to ∷ rest) = leg req i from to ∷ legs_from req (suc i) (to ∷ rest)

  -- The first error in the order of the legs, or the answers of all.
  pub check_legs : ℕ → List (LegResult f) → Result MultiError (List (LegResult f × RouteResponse f))
  check_legs i [] = ok []
  check_legs i (l ∷ legs) =
      let rest = check_legs (suc i) legs in
      elim l.error [
        | some e ↦ err (leg_failed i e)
        | none ↦ elim l.resp [
          | none ↦ err (no_route i)
          | some r ↦ elim rest [ err e ↦ err e | ok answers ↦ ok ((l, r) ∷ answers) ]
        ]
      ]

  pub out_leg : LegResult f × RouteResponse f → MultiRouteLeg f
  out_leg (l, r) = record {
    from = l.from;
    to = l.to;
    distance_km = r.distance;
    duration_min = r.duration;
  }

  pub sum_of : (RouteResponse f → f.F) → f.F → List (LegResult f × RouteResponse f) → f.F
  sum_of part acc [] = acc
  sum_of part acc ((l, r) ∷ legs) = sum_of part (f.add acc (part r)) legs

  -- The answer that is built of the legs
  pub stitch :
      String → List (LegResult f × RouteResponse f) → Result MultiError (MultiRouteResponse f)
  unfolding out_leg sum_of
  stitch mode legs = elim (combine_polylines (coord f) (map (λ x. x.1.polyline) legs)) [
    | malformed ↦ err panicked
    | out_of_fuel ↦ err panicked
    | decoded line ↦ ok (record {
      total_distance_km = sum_of (λ r. r.distance) f.zero legs;
      total_duration_min = sum_of (λ r. r.duration) f.zero legs;
      polyline = line;
      mode = mode;
      legs = map out_leg legs;
    })
  ]

  module _ (calculate : ℕ → RouteRequest f → Option (RouteResponse f) × Option RouteError)
      (ctx_done : ℕ → Option RouteError) where
    -- Compute once the request is accepted
    pub route_through : MultiRouteRequest f → Result MultiError (MultiRouteResponse f)
    unfolding legs_from check_legs stitch
    route_through req = elim (order_waypoints_nearest_neighbor f req.waypoints) [
      | none ↦ err panicked
      | some ordered ↦ elim (check_legs 0 (legs_from calculate ctx_done req 0 ordered)) [
        | err e ↦ err e
        | ok answers ↦ stitch req.mode answers
      ]
    ]

    -- Compute
    pub compute : MultiRouteRequest f → Result MultiError (MultiRouteResponse f)
    unfolding first_invalid route_through
    compute req =
        if ltb (length req.waypoints) 2
        then err too_few
        else if ltb 50 (length req.waypoints)
        then err too_many
        else elim (first_invalid 0 req.waypoints) [
          | some i ↦ err (invalid_waypoint i)
          | none ↦ route_through req
        ]
