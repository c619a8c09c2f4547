-- ===== src/Route/Multi/Laws.antt =====
-- What Compute answers: legs along the order of the waypoints, or the first thing that is wrong.
use geo.Base.{ℕ, List, [], ◌∷◌, Option, none, some, map, ◌≡◌, All, ◌≢◌, length, ◌<◌}
use geo.Base.Float.{Float}
use geo.Base.Result.{Result, ok, err}
use geo.Coords.Polyline.{combine_polylines}
use geo.Routing.Polyline.{decoded}
use geo.Route.Model.{RouteError, RouteRequest, RouteResponse}
use geo.Route.Answers.{coord}
use geo.Route.Waypoints.{Waypoint}
use geo.Route.Multi.Checks.{IsValid, GivenBy, FirstInvalid, StopsAt}
use geo.Route.Multi.{
  MultiRouteRequest, MultiRouteLeg, MultiRouteResponse, MultiError, too_few, too_many, panicked,
  invalid_waypoint, no_route, leg_failed, LegResult, legs_from, order_waypoints_nearest_neighbor,
}

-- A sum from the left.
abbrev pub total : (g : Float) → g.F → List g.F → g.F
total g acc [] = acc
total g acc (x ∷ xs) = total g (g.add acc x) xs

module _ {f : Float} where
  abbrev first : List (LegResult f) → Option (LegResult f)
  first [] = none
  first (l ∷ legs) = some l

  abbrev others : List (LegResult f) → List (LegResult f)
  others [] = []
  others (l ∷ legs) = legs

  -- The legs lead from each waypoint to the next one.
  abbrev pub Along : List (Waypoint f) → List (MultiRouteLeg f) → Type 0
  Along [] [] = Unit
  Along (w ∷ []) [] = Unit
  Along (from ∷ to ∷ rest) (l ∷ legs) = (l.from ≡ from) × (l.to ≡ to) × Along (to ∷ rest) legs
  Along _ _ = ⊥

  module _ (calculate : ℕ → RouteRequest f → Option (RouteResponse f) × Option RouteError)
      (ctx_done : ℕ → Option RouteError) where
    -- Every leg of the order has come without an error and with the answer that stands beside it.
    abbrev pub AnsweredBy :
        MultiRouteRequest f → List (Waypoint f) → List (LegResult f × RouteResponse f) → Type 0
    AnsweredBy req ordered answers =
        (map (λ x. x.0) answers ≡ legs_from f calculate ctx_done req 0 ordered)
        × All GivenBy answers

    -- The response is made of the answers, in their order.
    abbrev pub AddsUp : MultiRouteResponse f → List (LegResult f × RouteResponse f) → Type 0
    AddsUp resp answers =
        (map (λ l. l.distance_km) resp.legs ≡ map (λ x. x.1.distance) answers)
        × (map (λ l. l.duration_min) resp.legs ≡ map (λ x. x.1.duration) answers)
        × (resp.total_distance_km ≡ total f f.zero (map (λ x. x.1.distance) answers))
        × (resp.total_duration_min ≡ total f f.zero (map (λ x. x.1.duration) answers))
        × (combine_polylines (coord f) (map (λ x. x.1.polyline) answers) ≡ decoded resp.polyline)

    -- What is true of the order of the waypoints and of the legs' results in each case.
    abbrev pub Stitched :
        MultiRouteRequest f → List (Waypoint f) → Result MultiError (MultiRouteResponse f) → Type 0
    Stitched req ordered (ok resp) =
        Along ordered resp.legs
        × (resp.mode ≡ req.mode)
        × ((answers : List (LegResult f × RouteResponse f)) × AnsweredBy req ordered answers
            × AddsUp resp answers)
    Stitched req ordered (err (leg_failed k e)) =
        StopsAt (λ l. l.error ≡ some e) 0 (legs_from f calculate ctx_done req 0 ordered) k
    Stitched req ordered (err (no_route k)) =
        StopsAt (λ l. (l.error ≡ none) × (l.resp ≡ none)) 0
          (legs_from f calculate ctx_done req 0 ordered) k
    Stitched req ordered (err panicked) =
        (answers : List (LegResult f × RouteResponse f)) × AnsweredBy req ordered answers
        × ((line : List ℕ)
            → combine_polylines (coord f) (map (λ x. x.1.polyline) answers) ≢ decoded line)
    Stitched req ordered (err _) = ⊥

    abbrev Ordered : MultiRouteRequest f → List (Waypoint f) → Type 0
    Ordered req ordered = order_waypoints_nearest_neighbor f req.waypoints ≡ some ordered

    -- What each outcome of Compute tells.
    abbrev pub IsComputed : MultiRouteRequest f → Result MultiError (MultiRouteResponse f) → Type 0
    IsComputed req (err too_few) = length req.waypoints < 2
    IsComputed req (err too_many) = 50 < length req.waypoints
    IsComputed req (err (invalid_waypoint k)) = FirstInvalid 0 req.waypoints k
    IsComputed req r =
        All IsValid req.waypoints
        × ((ordered : List (Waypoint f)) × Ordered req ordered × Stitched req ordered r)
