-- ===== src/Routing/Bidir.antt =====
-- internal/routing/bidir.go: the search from both ends at once. Each side keeps the maps and the
-- queue of a search; index 0 of the slice that a heap keeps is the head of its list.
pub mod Side
pub mod Meet
pub mod Cases
pub mod Inv
pub mod Forward
pub mod Backward
pub mod Path
pub mod Ends
use mathlib.Core.List.{reverse}
use geo.Base.{
  ℕ, zero, suc, ◌+◌, ◌%◌, List, [], ◌∷◌, ◌++◌, map, Option, none, some, Bool, true, false, not,
  ◌&&◌, ◌||◌, ◌==◌, if◌then◌else◌, length, value_or,
}
use geo.Base.Float.{Float, le_float}
use geo.Routing.Graph.{Node, Edge, Graph, update}
use geo.Routing.Heap.{Item, PriorityQueue}
use geo.Routing.Meeting.{
  Meeting, Bidir, try_meet, dist_at, forward_meet, backward_meet, no_items, top_cost,
  cannot_improve, is_forward, forward_chain, backward_chain,
}
use geo.Routing.AStar.{
  Found, found, failed, out_of_fuel, no_path, cancelled, start_not_in_graph, goal_not_in_graph,
  PathResult, Query, Search, heuristic_hours, edge_travel_time_hours, edge_passes, improves,
  is_stale, settle, start_state, open_edges, search_fuel, a_star,
}

module _ (f : Float) where
  module _ (pq : PriorityQueue f) (g : Graph f) (q : Query f) where
    -- A shorter way to `v`, by an edge from or to `cur`: the scores, the way, and heap.Push with
    -- the bound `h` on the rest.
    pub advance : ℕ → ℕ → Edge f → f.F → f.F → Search f → Search f
    advance v cur edge tent_time h s = record {
      time_score = update s.time_score v (some tent_time);
      dist_score = update s.dist_score v (some (f.add (dist_at f s cur) edge.distance_km));
      came_from = update s.came_from v (some (cur, edge));
      closed = s.closed;
      queue =
          pq.push (record { node_id = v; g_cost = tent_time; f_cost = f.add tent_time h }) s.queue;
    }

    -- One edge of the forward step.
    pub forward_edge : Node f → ℕ → Edge f → Bidir f → Bidir f
    forward_edge goal cur edge b =
        if b.fwd.closed edge.to
          || q.blocked_nodes edge.to
          || q.blocked_edges cur edge.to
          || not (edge_passes f q edge)
        then b
        else elim (g.nodes edge.to) [
          | none ↦ b
          | some neighbor ↦
              let tent_time =
                f.add (value_or (b.fwd.time_score cur) f.zero)
                  (edge_travel_time_hours f edge q.speed_fn) in
              if improves f tent_time (b.fwd.time_score edge.to)
              then forward_meet f edge.to tent_time (record b {
                fwd = advance edge.to cur edge tent_time (heuristic_hours f q goal neighbor) b.fwd;
              })
              else b
        ]

    pub forward_edges : Node f → ℕ → List (Edge f) → Bidir f → Bidir f
    forward_edges goal cur [] b = b
    forward_edges goal cur (e ∷ es) b = forward_edges goal cur es (forward_edge goal cur e b)

    pub forward_step : Node f → Bidir f → Bidir f
    forward_step goal b = elim (pq.pop b.fwd.queue) [
      | none ↦ b
      | some (cur, rest) ↦
          let s = record b.fwd { queue = rest } in
          if is_stale f pq g q cur s
          then record b { fwd = s }
          else forward_edges goal cur.node_id (g.edges cur.node_id) (
              forward_meet f cur.node_id cur.g_cost
                (record b { fwd = settle f pq g q cur.node_id s }))
    ]

    -- bestEdge == nil || t < bestTime
    abbrev pub beats : f.F → Option (Edge f × f.F) → Bool
    beats t none = true
    beats t (some (e, best_time)) = f.lt t best_time

    -- The fastest edge to `cur` among the edges of `from_id`, with its time.
    pub best_edge : ℕ → ℕ → List (Edge f) → Option (Edge f × f.F) → Option (Edge f × f.F)
    best_edge from_id cur [] best = best
    best_edge from_id cur (e ∷ es) best =
        let t = edge_travel_time_hours f e q.speed_fn in
        best_edge from_id cur es (
          if not (e.to == cur) || q.blocked_edges from_id cur || not (edge_passes f q e)
          then best
          else if beats t best
          then some (e, t)
          else best)

    -- One fromID of the backward step.
    pub backward_edge : Node f → ℕ → ℕ → Bidir f → Bidir f
    backward_edge start cur from_id b =
        if b.bwd.closed from_id || q.blocked_nodes from_id
        then b
        else elim (best_edge from_id cur (g.edges from_id) none) [
          | none ↦ b
          | some (edge, best_time) ↦ elim (g.nodes from_id) [
            | none ↦ b
            | some from_node ↦
                let tent_time = f.add (value_or (b.bwd.time_score cur) f.zero) best_time in
                if improves f tent_time (b.bwd.time_score from_id)
                then backward_meet f from_id tent_time (record b {
                  bwd =
                      advance from_id cur edge tent_time (heuristic_hours f q start from_node)
                        b.bwd;
                })
                else b
          ]
        ]

    pub backward_edges : Node f → ℕ → List ℕ → Bidir f → Bidir f
    backward_edges start cur [] b = b
    backward_edges start cur (v ∷ vs) b = backward_edges start cur vs (backward_edge start cur v b)

    pub backward_step : (ℕ → List ℕ) → Node f → Bidir f → Bidir f
    backward_step rev start b = elim (pq.pop b.bwd.queue) [
      | none ↦ b
      | some (cur, rest) ↦
          let s = record b.bwd { queue = rest } in
          if is_stale f pq g q cur s
          then record b { bwd = s }
          else backward_edges start cur.node_id (rev cur.node_id) (
              backward_meet f cur.node_id cur.g_cost
                (record b { bwd = settle f pq g q cur.node_id s }))
    ]

    -- buildBidirPath
    pub build_bidir_path : ℕ → ℕ → ℕ → ℕ → Bidir f → Found (PathResult f)
    unfolding forward_chain backward_chain
    build_bidir_path fuel start_id goal_id meeting b =
        elim (forward_chain f fuel b.fwd.came_from start_id meeting [] []) [
          | none ↦ out_of_fuel
          | some (fwd_ids, fwd_edges) ↦
              elim (backward_chain f fuel b.bwd.came_from goal_id meeting [] []) [
                | none ↦ out_of_fuel
                | some (bwd_ids, bwd_edges) ↦ found (record {
                  nodes = map g.nodes (reverse fwd_ids ++ bwd_ids);
                  edges = reverse fwd_edges ++ bwd_edges;
                  distance_km = b.best.mu_dist;
                  time_hours = b.best.mu;
                })
              ]
        ]

    -- What follows the loop.
    pub finish : ℕ → ℕ → ℕ → Bidir f → Found (PathResult f)
    finish fuel start_id goal_id b = elim b.best.meeting_node [
      | none ↦ failed no_path
      | some meeting ↦
          if le_float f f.max_float64 b.best.mu && le_float f b.best.mu f.max_float64
          then failed no_path
          else build_bidir_path fuel start_id goal_id meeting b
    ]

    -- The loop of biAStar. `iter` counts the rounds; a chain is no longer than it.
    pub bidir_loop : ℕ → ℕ → (ℕ → List ℕ) → ℕ → Node f → ℕ → Node f → Bidir f → Found (PathResult f)
    bidir_loop zero iter rev start_id start goal_id goal b = out_of_fuel
    bidir_loop (suc fuel) iter rev start_id start goal_id goal b =
        let next =
          bidir_loop fuel (suc iter) rev start_id start goal_id goal
            (if is_forward f b then forward_step goal b else backward_step rev start b) in
        if no_items f b.fwd.queue && no_items f b.bwd.queue
        then finish (suc iter) start_id goal_id b
        else if suc iter % 4096 == 0 && q.done (suc iter)
        then failed cancelled
        else if cannot_improve f b
        then finish (suc iter) start_id goal_id b
        else next

    -- Rounds enough: each one takes an item from a queue, and an edge puts one into each once.
    abbrev pub both_fuel : (ℕ → List ℕ) → ℕ
    both_fuel rev =
        3
        + (open_edges (λ v. length (g.edges v)) (λ v. false) g.ids
            + open_edges (λ v. length (rev v)) (λ v. false) g.ids)

    abbrev pub fuel_by : Option (ℕ → List ℕ) → ℕ
    fuel_by none = search_fuel f pq g q
    fuel_by (some rev) = both_fuel rev

    abbrev pub bidir_fuel : ℕ
    bidir_fuel = fuel_by g.rev_adj

    -- The maps and the queue of a side, from the item of its end.
    abbrev pub start_both : Item f → Item f → Bidir f
    start_both at_start at_goal = record {
      fwd = start_state f pq g q at_start.node_id at_start;
      bwd = start_state f pq g q at_goal.node_id at_goal;
      best = record { mu = f.max_float64; mu_dist = f.zero; meeting_node = none };
    }

    -- What biAStar does with a reverse adjacency.
    pub search_both : ℕ → (ℕ → List ℕ) → ℕ → ℕ → Found (PathResult f)
    search_both fuel rev start_id goal_id = elim (g.nodes start_id) [
      | none ↦ failed start_not_in_graph
      | some start_node ↦ elim (g.nodes goal_id) [
        | none ↦ failed goal_not_in_graph
        | some goal_node ↦
            if start_id == goal_id
            then found (record {
              nodes = some start_node ∷ [];
              edges = [];
              distance_km = f.zero;
              time_hours = f.zero;
            })
            else bidir_loop fuel 0 rev start_id start_node goal_id goal_node (
                start_both
                  (record {
                    node_id = start_id;
                    g_cost = f.zero;
                    f_cost = heuristic_hours f q goal_node start_node;
                  })
                  (record {
                    node_id = goal_id;
                    g_cost = f.zero;
                    f_cost = heuristic_hours f q start_node goal_node;
                  }))
      ]
    ]

    -- biAStar, with the fuel for its loop.
    pub bi_a_star : ℕ → ℕ → ℕ → Found (PathResult f)
    bi_a_star fuel start_id goal_id = if q.done 0 then failed cancelled else elim g.rev_adj [
      | none ↦ a_star f pq g q fuel start_id goal_id
      | some rev ↦ search_both fuel rev start_id goal_id
    ]
