-- ===== src/Routing/AStar.antt =====
-- internal/routing/astar.go: the search from one node, exact with no heuristic. Go's maps are
-- functions into `Option`, and a map that is nil has no key. The context is what its Err gives at
-- each check: the one at the start, and one every 4096 rounds.
pub mod Walk
pub mod Relax
pub mod Sound
pub mod Ends
pub mod Front
pub mod Improve
pub mod Rounds
pub mod Fastest
use mathlib.Core.List.{reverse}
use geo.Base.{
  ℕ, zero, suc, ◌+◌, ◌%◌, List, [], ◌∷◌, ◌++◌, map, Option, none, some, Bool, true, false, not,
  ◌&&◌, ◌||◌, ◌==◌, if◌then◌else◌, length, value_or,
}
use geo.Base.Float.{Float}
use geo.Routing.Graph.{Node, Edge, Graph, update}
use geo.Routing.Heap.{Item, PriorityQueue}

pub data SearchError : Type 0 where
  no_path cancelled start_not_in_graph goal_not_in_graph : SearchError

pub data Found {ℓ} (A : Type ℓ) : Type ℓ where
  found : A → Found A
  failed : SearchError → Found A
  out_of_fuel : Found A

-- The edges at the nodes that are not settled, where `edge_count` counts those of a node.
pub open_edges : (ℕ → ℕ) → (ℕ → Bool) → List ℕ → ℕ
open_edges edge_count closed [] = 0
open_edges edge_count closed (id ∷ ids) =
    (if closed id then 0 else edge_count id) + open_edges edge_count closed ids

module _ (f : Float) where
  pub record PathResult : Type 0 where
    pub nodes : List (Option (Node f))
    pub edges : List (Edge f)
    pub distance_km : f.F
    pub time_hours : f.F

  -- The arguments of a search beside its ends.
  pub record Query : Type 0 where
    pub edge_ok : Option (Edge f → Bool)
    pub speed_fn : Option (Edge f → f.F)
    pub heuristic_speed_kmh : f.F
    pub blocked_edges : ℕ → ℕ → Bool
    pub blocked_nodes : ℕ → Bool
    pub done : ℕ → Bool

  -- flatDistKm, with kmPerDeg = 111.195.
  pub flat_dist_km : f.F → f.F → f.F → f.F → f.F → f.F
  flat_dist_km lat₁ lng₁ lat₂ lng₂ cos_lat₂ =
      let dlat = f.mul (f.sub lat₂ lat₁) (f.lit 111195 3) in
      let dlng = f.mul (f.mul (f.sub lng₂ lng₁) (f.lit 111195 3)) cos_lat₂ in
      f.sqrt (f.add (f.mul dlat dlat) (f.mul dlng dlng))

  -- heuristicHours for the goal at `goal`
  pub heuristic_hours : Query → Node f → Node f → f.F
  unfolding flat_dist_km
  heuristic_hours q goal n =
      if f.lt f.zero q.heuristic_speed_kmh
      then f.div (flat_dist_km n.lat n.lng goal.lat goal.lng (f.cos_degrees goal.lat))
          q.heuristic_speed_kmh
      else f.zero

  -- edgeTravelTimeHours
  pub edge_travel_time_hours : Edge f → Option (Edge f → f.F) → f.F
  edge_travel_time_hours edge speed_fn =
      let usable = λ (x : f.F). f.lt f.zero x && f.is_finite x in
      let at_speed = λ (x : f.F). f.div edge.distance_km (if usable x then x else f.lit 40 0) in
      elim speed_fn [
        | none ↦ if usable edge.time_hours then edge.time_hours else at_speed edge.speed_kmh
        | some speed ↦ at_speed (speed edge)
      ]

  abbrev pub edge_passes : Query → Edge f → Bool
  edge_passes q edge = elim q.edge_ok [ none ↦ true | some ok ↦ ok edge ]

  -- !seen || tentTime < prev
  abbrev pub improves : f.F → Option f.F → Bool
  improves tent_time none = true
  improves tent_time (some prev) = f.lt tent_time prev

  -- The maps and the queue of aStar.
  pub record Search : Type 0 where
    pub time_score : ℕ → Option f.F
    pub dist_score : ℕ → Option f.F
    pub came_from : ℕ → Option (ℕ × Edge f)
    pub closed : ℕ → Bool
    pub queue : List (Item f)

  -- The loop of buildPath: the nodes and the edges from the goal back.
  pub backtrack :
      ℕ → (ℕ → Option (ℕ × Edge f)) → ℕ → List ℕ → List (Edge f) → Option (List ℕ × List (Edge f))
  backtrack zero came_from cur ids edges = none
  backtrack (suc fuel) came_from cur ids edges = elim (came_from cur) [
    | none ↦ some (ids, edges)
    | some (prev, edge) ↦ backtrack fuel came_from prev (ids ++ prev ∷ []) (edges ++ edge ∷ [])
  ]

  module _ (pq : PriorityQueue f) (g : Graph f) (q : Query) where
    -- A shorter way to edge.To: the scores, the way back, and heap.Push.
    pub improve : Node f → Node f → ℕ → Edge f → f.F → Search → Search
    improve goal neighbor cur edge tent_time s = record {
      time_score = update s.time_score edge.to (some tent_time);
      dist_score =
          update s.dist_score edge.to
            (some (f.add (value_or (s.dist_score cur) f.zero) edge.distance_km));
      came_from = update s.came_from edge.to (some (cur, edge));
      closed = s.closed;
      queue =
          pq.push
            (record {
              node_id = edge.to;
              g_cost = tent_time;
              f_cost = f.add tent_time (heuristic_hours q goal neighbor);
            })
            s.queue;
    }

    -- One edge of the loop over g.Edges[cur.nodeID].
    pub relax : Node f → ℕ → Edge f → Search → Search
    relax goal cur edge s =
        if s.closed edge.to
          || q.blocked_nodes edge.to
          || q.blocked_edges cur edge.to
          || not (edge_passes q edge)
        then s
        else elim (g.nodes edge.to) [
          | none ↦ s
          | some neighbor ↦
              let tent_time =
                f.add (value_or (s.time_score cur) f.zero)
                  (edge_travel_time_hours edge q.speed_fn) in
              if improves tent_time (s.time_score edge.to)
              then improve goal neighbor cur edge tent_time s
              else s
        ]

    pub relax_all : Node f → ℕ → List (Edge f) → Search → Search
    relax_all goal cur [] s = s
    relax_all goal cur (e ∷ es) s = relax_all goal cur es (relax goal cur e s)

    -- Is the item that was popped of a node that is settled, or older than the node's score?
    unfoldable pub is_stale : Item f → Search → Bool
    is_stale item s =
        s.closed item.node_id
        || elim (s.time_score item.node_id) [ none ↦ false | some best ↦ f.lt best item.g_cost ]

    abbrev pub settle : ℕ → Search → Search
    settle cur s = record s { closed = update s.closed cur true }

    -- buildPath
    pub build_path : ℕ → ℕ → Search → Found PathResult
    unfolding backtrack
    build_path fuel goal_id s = elim (backtrack fuel s.came_from goal_id (goal_id ∷ []) []) [
      | none ↦ out_of_fuel
      | some (ids, edges) ↦ found (record {
        nodes = map g.nodes (reverse ids);
        edges = reverse edges;
        distance_km = value_or (s.dist_score goal_id) f.zero;
        time_hours = value_or (s.time_score goal_id) f.zero;
      })
    ]

    -- The loop of aStar. `iter` counts the rounds; a chain of predecessors is no longer than it.
    pub search_loop : ℕ → ℕ → ℕ → Node f → Search → Found PathResult
    search_loop zero iter goal_id goal s = out_of_fuel
    search_loop (suc fuel) iter goal_id goal s = elim (pq.pop s.queue) [
      | none ↦ failed no_path
      | some (cur, rest) ↦
          let s' = record s { queue = rest } in
          let skipped = search_loop fuel (suc iter) goal_id goal s' in
          let expanded =
            search_loop fuel (suc iter) goal_id goal
              (relax_all goal cur.node_id (g.edges cur.node_id) (settle cur.node_id s')) in
          if suc iter % 4096 == 0 && q.done (suc iter)
          then failed cancelled
          else if is_stale cur s'
          then skipped
          else if cur.node_id == goal_id
          then build_path (suc iter) goal_id s'
          else expanded
    ]

    -- Rounds enough: each one takes an item from the queue, and an edge puts one there once.
    pub search_fuel : ℕ
    unfolding open_edges
    search_fuel = suc (suc (open_edges (λ id. length (g.edges id)) (λ id. false) g.ids))

    abbrev pub start_state : ℕ → Item f → Search
    start_state start_id item = record {
      time_score = λ id. if start_id == id then some f.zero else none;
      dist_score = λ id. if start_id == id then some f.zero else none;
      came_from = λ id. none;
      closed = λ id. false;
      queue = pq.push item [];
    }

    -- aStar, with the fuel for its loop.
    pub a_star : ℕ → ℕ → ℕ → Found PathResult
    unfolding search_loop
    a_star fuel start_id goal_id = if q.done 0 then failed cancelled else elim (g.nodes start_id) [
      | none ↦ failed start_not_in_graph
      | some start_node ↦ elim (g.nodes goal_id) [
        | none ↦ failed goal_not_in_graph
        | some goal_node ↦
            if start_id == goal_id
            then found (record {
              nodes = some start_node ∷ [];
              edges = [];
              distance_km = f.zero;
              time_hours = f.zero;
            })
            else search_loop fuel 0 goal_id goal_node (
                start_state start_id (record {
                  node_id = start_id;
                  g_cost = f.zero;
                  f_cost = heuristic_hours q goal_node start_node;
                }))
      ]
    ]
