-- ===== src/Routing/Engine/Trips.antt =====
-- The routes that the engine answers with, over the alternatives of KFastestPaths.

use geo.Base.{
  ℕ, ◌≡◌, refl, List, [], ◌∷◌, some, All, Yields, Yields-bind, Yields-some, map, none, Option, ◌≤◌,
  ◌⊎◌, inl, inr, Option-cases, Bool-cases, ltb, arith, if◌then◌else◌,
}
use geo.Base.Float.{Float}
use geo.Routing.Graph.{Node, Graph}
use geo.Routing.AStar.{PathResult, Query}
use geo.Routing.AStar.Walk.{IsRoute}
use geo.Routing.Profiles.{TransportMode, ModeProfile}
use geo.Routing.Yen.{read_nodes}
use geo.Routing.Yen.Walk.{HasOwnIds, IsWalk, node_ids, edge_ends, read_nodes-IsWalk}
use geo.Route.Model.{RoutePoint, Route}
use geo.Routing.Engine.{
  RoadEngine, Instructor, path_to_route, paths_to_routes, route_along, snap_node, effective_k,
  haversine_route, airplane_route, round_to, polyline_of, points_of, snap_distance, fallback_speed,
}
use geo.Routing.Snap.{haversine, nearest_node_within}
use geo.Routing.Engine.Points.{IsOutline, points_of-IsOutline}

-- What is yielded, with the equation that says so.
pub Yields-known :
    {A : Type 0} (P : A → Type 0) (o : Option A) → Yields P o → Yields (λ a. P a × (o ≡ some a)) o
Yields-known P none h = h
Yields-known P (some a) h = (h, refl)

module _ {f : Float} where
  -- Every node of the path can be read.
  abbrev pub IsReadable : PathResult f → Type 0
  IsReadable p = Yields (λ ns. Unit) (read_nodes f p.nodes)

  abbrev nearest : f.F → Graph f → ModeProfile f → RoutePoint f → Option (Node f)
  nearest radius g p point =
      nearest_node_within f g point.lat point.lng radius (some p.edge_allowed)

  -- The node is the nearest one within 300 m, or where there is none the nearest within 2 km.
  abbrev pub IsSnapped : Graph f → ModeProfile f → RoutePoint f → Node f → Type 0
  IsSnapped g p point n =
      (nearest (f.lit 3 1) g p point ≡ some n)
      ⊎ ((nearest (f.lit 3 1) g p point ≡ none) × (nearest (f.lit 2 0) g p point ≡ some n))

  -- There is no node within 2 km.
  abbrev pub IsFarOff : Graph f → ModeProfile f → RoutePoint f → Type 0
  IsFarOff g p point =
      (nearest (f.lit 3 1) g p point ≡ none) × (nearest (f.lit 2 0) g p point ≡ none)

  abbrev pub Snaps : Graph f → ModeProfile f → RoutePoint f → Option (Node f) → Type 0
  Snaps g p point none = IsFarOff g p point
  Snaps g p point (some n) = IsSnapped g p point n

  second_radius :
      (g : Graph f) (p : ModeProfile f) (point : RoutePoint f) (o : Option (Node f))
      → nearest (f.lit 3 1) g p point ≡ none
      → nearest (f.lit 2 0) g p point ≡ o
      → Snaps g p point o
  second_radius g p point none missing far = (missing, far)
  second_radius g p point (some n) missing found = inr (missing, found)

  pub snap_node-Snaps :
      (g : Graph f) (p : ModeProfile f) (point : RoutePoint f)
      → Snaps g p point (snap_node f g p point)
  unfolding snap_node
  snap_node-Snaps g p point = elim (Option-cases (nearest (f.lit 3 1) g p point)) [
    | inr (n, here) ↦ rw (here, snap_node) (inl here)
    | inl missing ↦ rw (missing, snap_node) (second_radius g p point _ missing refl)
  ]

  -- How many routes are computed: one for ends that are more than 50 km apart.
  abbrev pub number : RoutePoint f → RoutePoint f → ℕ → ℕ
  number start end k =
      if f.lt (f.lit 50 0) (haversine f start.lat start.lng end.lat end.lng) then 1 else k

  pub effective_k-number :
      (start end : RoutePoint f) (k : ℕ) → 1 ≤ k → effective_k f start end k ≡ number start end k
  unfolding effective_k
  effective_k-number start end k some_asked =
      let far = f.lt (f.lit 50 0) (haversine f start.lat start.lng end.lat end.lng) in
      elim (Bool-cases far) [
        | inr near ↦ elim (Bool-cases (ltb 1 k)) [
          | inl many ↦ rw (near, many) refl
          | inr one ↦ rw (near, one) refl
        ]
        | inl apart ↦ elim (Bool-cases (ltb 1 k)) [
          | inl many ↦ rw (apart, many) refl
          | inr one ↦ rw (apart, one) (ground (arith, one, some_asked))
        ]
      ]

  -- One straight line from the start to the end, at the fallback speed.
  abbrev pub IsStraight :
      RoadEngine f → TransportMode → RoutePoint f → RoutePoint f → Route f → Type 0
  IsStraight e mode start end r =
      (r.points ≡ start ∷ end ∷ [])
      × (r.distance ≡ round_to f (f.lit 1000 0) (haversine f start.lat start.lng end.lat end.lng))
      × (r.duration
          ≡ round_to f (f.lit 100 0) (
              f.mul
                (f.div (haversine f start.lat start.lng end.lat end.lng) (fallback_speed f e mode))
                (f.lit 60 0)))
      × (r.polyline ≡ polyline_of f (start ∷ end ∷ []))
      × (r.instructions ≡ [])

  pub haversine_route-IsStraight :
      (e : RoadEngine f) (start end : RoutePoint f) (mode : TransportMode)
      → IsStraight e mode start end (haversine_route f e start end mode)
  unfolding haversine_route
  haversine_route-IsStraight e start end mode = (refl, refl, refl, refl, refl)

  -- The one arc of a flight, at 800 km/h and with half an hour for the start and the landing.
  abbrev pub IsFlight :
      (RoutePoint f → RoutePoint f → List (RoutePoint f))
      → RoutePoint f
      → RoutePoint f
      → Route f
      → Type 0
  IsFlight flight_arc start end r =
      let dist = haversine f start.lat start.lng end.lat end.lng in
      (r.points ≡ flight_arc start end)
      × (r.distance ≡ round_to f (f.lit 1000 0) dist)
      × (r.duration
          ≡ round_to f (f.lit 100 0)
              (f.add (f.mul (f.div dist (f.lit 800 0)) (f.lit 60 0)) (f.lit 30 0)))
      × (r.polyline ≡ polyline_of f (flight_arc start end))
      × (r.instructions ≡ [])

  pub airplane_route-IsFlight :
      (flight_arc : RoutePoint f → RoutePoint f → List (RoutePoint f)) (start end : RoutePoint f)
      → IsFlight flight_arc start end (airplane_route f flight_arc start end)
  unfolding airplane_route
  airplane_route-IsFlight flight_arc start end = (refl, refl, refl, refl, refl)

  module _ (build_instructions : Instructor f) (e : RoadEngine f) (start end : RoutePoint f)
      (mode : TransportMode) where
    -- The route shows the path: its points go through the nodes of the path, and its distance is that
    -- of the path with the way to its ends.
    pub record Shows (p : PathResult f) (r : Route f) : Type 0 where
      pub read : List (Node f)
      pub as_read : read_nodes f p.nodes ≡ some read
      pub through : r.points ≡ points_of f start read end
      pub outlined : IsOutline start end r.points
      pub long :
          r.distance
          ≡ round_to f (f.lit 1000 0) (f.add p.distance_km (snap_distance f start read end))
      pub drawn : r.polyline ≡ polyline_of f r.points
      pub told : r.instructions ≡ build_instructions p mode start end (fallback_speed f e mode)

    -- Each path is shown by the route in its place.
    abbrev pub Shown : List (PathResult f) → List (Route f) → Type 0
    Shown [] [] = Unit
    Shown (p ∷ paths) (r ∷ routes) = Shows p r × Shown paths routes
    Shown _ _ = ⊥

    path_to_route-Yields :
        (p : PathResult f)
        → IsReadable p
        → Yields (Shows p) (path_to_route f build_instructions e start end mode p)
    unfolding path_to_route route_along
    path_to_route-Yields p readable =
        Yields-bind (λ ns. Unit × (read_nodes f p.nodes ≡ some ns)) (Shows p) (read_nodes f p.nodes)
          _ (Yields-known (λ ns. Unit) (read_nodes f p.nodes) readable)
          (λ ns h. record {
            read = ns;
            as_read = h.1;
            through = refl;
            outlined = points_of-IsOutline start ns end;
            long = refl;
            drawn = refl;
            told = refl;
          })

    pub paths_to_routes-Yields :
        (paths : List (PathResult f))
        → All IsReadable paths
        → Yields (Shown paths) (paths_to_routes f build_instructions e start end mode paths)
    unfolding paths_to_routes
    paths_to_routes-Yields [] h = tt
    paths_to_routes-Yields (p ∷ paths) h =
        Yields-bind (Shows p) (Shown (p ∷ paths))
          (path_to_route f build_instructions e start end mode p) _ (path_to_route-Yields p h.0)
          (λ r drawn.
            Yields-bind (Shown paths) (Shown (p ∷ paths))
              (paths_to_routes f build_instructions e start end mode paths) _
              (paths_to_routes-Yields paths h.1) (λ routes all. (drawn, all)))

  pub route-IsReadable :
      (g : Graph f) (q : Query f) (u v : ℕ) (n : Node f) (p : PathResult f)
      → HasOwnIds g
      → g.nodes u ≡ some n
      → IsRoute g q u v p.edges
      → p.nodes ≡ map g.nodes (u ∷ edge_ends g p.edges)
      → IsReadable p
  route-IsReadable g q u v n p own there route nodes =
      let (ns, read, h) =
        Yields-some (λ ns. IsWalk g u v ns × (node_ids g ns ≡ u ∷ edge_ends g p.edges))
          (read_nodes f (map g.nodes (u ∷ edge_ends g p.edges)))
          (read_nodes-IsWalk g q own u v n p.edges there route) in
      rw (nodes, read) tt
