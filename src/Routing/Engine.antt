-- ===== src/Routing/Engine.antt =====
-- internal/routing/engine.go: the engine over a road graph, from two points to routes. A mode that is
-- empty is `none`. The turn instructions and the arc of a flight are arguments, as is what the
-- context says at the start, in the searches and at the end. A result that is `none` stands for
-- what it stands for in Yen.
pub mod Points
pub mod Trips
pub mod Answers
use geo.Base.{
  ℕ, List, [], ◌∷◌, ◌++◌, map, Option, none, some, Bool, true, false, not, ◌&&◌, ◌==◌, ◌>>=◌,
  if◌then◌else◌, ltb, value_or,
}
use geo.Base.Result.{Result, ok, err}
use geo.Base.Float.{Float, le_float}
use geo.Routing.Graph.{Node, Edge, Graph}
use geo.Routing.Heap.{PriorityQueue}
use geo.Routing.AStar.{SearchError, PathResult}
use geo.Routing.Snap.{haversine, nearest_node_within}
use geo.Routing.Profiles.{TransportMode, ModeProfile, profile}
use geo.Routing.Polyline.{Point, encode_polyline}
use geo.Routing.Yen.{Profile, Way, read_nodes, k_fastest_paths}
use geo.Route.Model.{RoutePoint, Instruction, Route}
use geo.Route.Answers.{coord}

module _ (f : Float) where
  -- The fields of Engine that its routes on the road are made with.
  pub record RoadEngine : Type 0 where
    pub graph : Option (Graph f)
    pub avg_speed_kmh : f.F
    pub yen_spur_cap : ℕ

  pub record Context : Type 0 where
    pub cancelled_before : Bool
    pub cancelled_after : Bool
    pub done : ℕ → ℕ → ℕ → Bool

  -- fallbackSpeed
  pub fallback_speed : RoadEngine → TransportMode → f.F
  fallback_speed e mode =
      let of_engine = if f.lt f.zero e.avg_speed_kmh then e.avg_speed_kmh else f.lit 40 0 in
      elim (profile f mode) [
        | none ↦ of_engine
        | some p ↦ if f.lt f.zero p.fallback_speed then p.fallback_speed else of_engine
      ]

  -- math.Abs(a - b) < 1e-7
  pub is_close : f.F → f.F → Bool
  is_close a b =
      let gap = f.sub a b in f.lt (if f.lt gap f.zero then f.sub f.zero gap else gap) (f.lit 1 7)

  pub same_place : RoutePoint f → RoutePoint f → Bool
  same_place p r = is_close p.lat r.lat && is_close p.lng r.lng

  -- appendPoint
  pub append_point : List (RoutePoint f) → RoutePoint f → List (RoutePoint f)
  append_point [] p = p ∷ []
  append_point (last ∷ []) p = if same_place last p then last ∷ [] else last ∷ p ∷ []
  append_point (x ∷ y ∷ points) p = x ∷ append_point (y ∷ points) p

  pub place_of : Node f → RoutePoint f
  place_of n = record { lat = n.lat; lng = n.lng }

  pub append_nodes : List (RoutePoint f) → List (Node f) → List (RoutePoint f)
  append_nodes points [] = points
  append_nodes points (n ∷ ns) = append_nodes (append_point points (place_of n)) ns

  -- The points of a route: the start, the nodes, and the end.
  pub points_of : RoutePoint f → List (Node f) → RoutePoint f → List (RoutePoint f)
  points_of start nodes end = append_point (append_nodes (append_point [] start) nodes) end

  pub last_node : Node f → List (Node f) → Node f
  last_node n [] = n
  last_node n (m ∷ ns) = last_node m ns

  -- The way from the ends to the first and to the last node.
  pub snap_distance : RoutePoint f → List (Node f) → RoutePoint f → f.F
  snap_distance start [] end = f.zero
  snap_distance start (n ∷ ns) end =
      let last = last_node n ns in
      f.add (f.add f.zero (haversine f start.lat start.lng n.lat n.lng))
        (haversine f end.lat end.lng last.lat last.lng)

  -- Round of internal/utils, with the power of ten.
  pub round_to : f.F → f.F → f.F
  round_to ratio v = f.div (f.of_int (f.round (f.mul v ratio))) ratio

  pub polyline_of : List (RoutePoint f) → List ℕ
  polyline_of points =
      encode_polyline (coord f)
        (map (λ (p : RoutePoint f). record { lat = p.lat; lng = p.lng }) points)

  -- haversineRoute
  pub haversine_route : RoadEngine → RoutePoint f → RoutePoint f → TransportMode → Route f
  haversine_route e start end mode =
      let dist = haversine f start.lat start.lng end.lat end.lng in
      record {
        distance = round_to (f.lit 1000 0) dist;
        duration = round_to (f.lit 100 0) (f.mul (f.div dist (fallback_speed e mode)) (f.lit 60 0));
        points = start ∷ end ∷ [];
        polyline = polyline_of (start ∷ end ∷ []);
        instructions = [];
      }

  -- airplaneRoute, over flightArc
  pub airplane_route :
      (RoutePoint f → RoutePoint f → List (RoutePoint f)) → RoutePoint f → RoutePoint f → Route f
  airplane_route flight_arc start end =
      let dist = haversine f start.lat start.lng end.lat end.lng in
      let points = flight_arc start end in
      record {
        distance = round_to (f.lit 1000 0) dist;
        duration =
            round_to (f.lit 100 0)
              (f.add (f.mul (f.div dist (f.lit 800 0)) (f.lit 60 0)) (f.lit 30 0));
        points = points;
        polyline = polyline_of points;
        instructions = [];
      }

  -- buildInstructions, with the names that it resolves.
  abbrev pub Instructor : Type 0
  Instructor =
      PathResult f → TransportMode → RoutePoint f → RoutePoint f → f.F → List (Instruction f)

  -- pathToRoute, with the nodes of the path.
  pub route_along :
      Instructor
      → RoadEngine
      → RoutePoint f
      → RoutePoint f
      → TransportMode
      → PathResult f
      → List (Node f)
      → Route f
  route_along build_instructions e start end mode path nodes =
      let snapped = snap_distance start nodes end in
      let speed = fallback_speed e mode in
      let distance = f.add path.distance_km snapped in
      let driven = f.mul path.time_hours (f.lit 60 0) in
      let walked =
        if f.lt f.zero snapped
        then f.add driven (f.mul (f.div snapped speed) (f.lit 60 0))
        else driven in
      let is_zero = not (f.lt walked f.zero) && not (f.lt f.zero walked) in
      let duration =
        if is_zero && f.lt f.zero distance
        then f.mul (f.div distance speed) (f.lit 60 0)
        else walked in
      record {
        distance = round_to (f.lit 1000 0) distance;
        duration = round_to (f.lit 100 0) duration;
        points = points_of start nodes end;
        polyline = polyline_of (points_of start nodes end);
        instructions = build_instructions path mode start end speed;
      }

  pub path_to_route :
      Instructor
      → RoadEngine
      → RoutePoint f
      → RoutePoint f
      → TransportMode
      → PathResult f
      → Option (Route f)
  path_to_route build_instructions e start end mode path = do
    nodes ← read_nodes f path.nodes
    some (route_along build_instructions e start end mode path nodes)

  pub paths_to_routes :
      Instructor
      → RoadEngine
      → RoutePoint f
      → RoutePoint f
      → TransportMode
      → List (PathResult f)
      → Option (List (Route f))
  paths_to_routes build_instructions e start end mode [] = some []
  paths_to_routes build_instructions e start end mode (p ∷ paths) = do
    route ← path_to_route build_instructions e start end mode p
    routes ← paths_to_routes build_instructions e start end mode paths
    some (route ∷ routes)

  -- The node of a point: within snapThresholdKm, else within snapFallbackKm.
  pub snap_node : Graph f → ModeProfile f → RoutePoint f → Option (Node f)
  snap_node g p point =
      elim (nearest_node_within f g point.lat point.lng (f.lit 3 1) (some p.edge_allowed)) [
        | some n ↦ some n
        | none ↦ nearest_node_within f g point.lat point.lng (f.lit 2 0) (some p.edge_allowed)
      ]

  -- effectiveK: one route only beyond longRouteAltsThresholdKm.
  pub effective_k : RoutePoint f → RoutePoint f → ℕ → ℕ
  effective_k start end k =
      if ltb 1 k && f.lt (f.lit 50 0) (haversine f start.lat start.lng end.lat end.lng)
      then 1
      else k

  module _ (pq : PriorityQueue f)
      (sort_slice : (Way f → Way f → Bool) → List (Way f) → List (Way f))
      (build_instructions : Instructor)
      (flight_arc : RoutePoint f → RoutePoint f → List (RoutePoint f)) (e : RoadEngine)
      (ctx : Context) where
    -- The part of graphRoutesCtx between two nodes.
    pub routes_between :
        Graph f
        → ModeProfile f
        → RoutePoint f
        → RoutePoint f
        → TransportMode
        → ℕ
        → Node f
        → Node f
        → Option (List (Route f))
    routes_between g p start end mode k start_node end_node = do
      answer ←
          k_fastest_paths f pq sort_slice g
            (record {
              edge_ok = some p.edge_allowed;
              speed_fn = p.edge_speed;
              heuristic_speed_kmh = p.heuristic_speed_kmh;
              done = ctx.done;
            })
            start_node.id end_node.id (effective_k start end k) e.yen_spur_cap
      elim answer [
        | err reason ↦ some []
        | ok paths ↦ paths_to_routes build_instructions e start end mode paths
      ]

    -- graphRoutesCtx
    pub graph_routes_ctx :
        Graph f → RoutePoint f → RoutePoint f → TransportMode → ℕ → Option (List (Route f))
    graph_routes_ctx g start end mode k =
        if ctx.cancelled_before then some [] else elim (profile f mode) [
          | none ↦ some []
          | some p ↦ elim (snap_node g p start) [
            | none ↦ some []
            | some start_node ↦ elim (snap_node g p end) [
              | none ↦ some []
              | some end_node ↦ routes_between g p start end mode k start_node end_node
            ]
          ]
        ]

    -- What CalculateAlternativesCtx does for a mode on the ground.
    pub ground_routes : RoutePoint f → RoutePoint f → TransportMode → ℕ → Option (List (Route f))
    ground_routes start end mode k = elim e.graph [
      | none ↦ some (haversine_route e start end mode ∷ [])
      | some g ↦ do
        routes ← graph_routes_ctx g start end mode k
        some (if ctx.cancelled_after then [] else routes)
    ]

    -- CalculateAlternativesCtx
    pub calculate_alternatives_ctx :
        RoutePoint f → RoutePoint f → Option TransportMode → ℕ → Option (List (Route f))
    calculate_alternatives_ctx start end none k =
        ground_routes start end TransportMode.car (if k == 0 then 1 else k)
    calculate_alternatives_ctx start end (some TransportMode.airplane) k =
        some (airplane_route flight_arc start end ∷ [])
    calculate_alternatives_ctx start end (some mode) k =
        ground_routes start end mode (if k == 0 then 1 else k)

    -- Calculate; `some none` stands for nil.
    pub calculate : RoutePoint f → RoutePoint f → Option TransportMode → Option (Option (Route f))
    calculate start end mode = do
      routes ← calculate_alternatives_ctx start end mode 1
      some (elim routes [
        | r ∷ rest ↦ some r
        | [] ↦ elim e.graph [
          | some g ↦ none
          | none ↦ some (haversine_route e start end TransportMode.car)
        ]
      ])
