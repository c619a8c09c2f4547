-- ===== src/Routing/Yen.antt =====
-- internal/routing/yen.go: alternatives to a fastest path. Ids are not negative, and neither are the
-- two caps. Each call of the search has its own context checks, numbered by the round and the spur
-- position; sort.Slice is an argument. `none` stands for the read of a nil node, where Go panics,
-- and for a search out of fuel.
pub mod Walk
pub mod Combine
pub mod Candidates
pub mod Chosen
pub mod Ends
use geo.Base.{
  ℕ, zero, suc, ◌-◌, List, [], ◌∷◌, ◌++◌, map, Option, none, some, Bool, true, false, not, ◌&&◌,
  ◌||◌, ◌==◌, if◌then◌else◌, length, get_elem?, take, ltb, ◌>>=◌,
}
use geo.Base.Result.{Result, ok, err}
use geo.Base.Float.{Float}
use geo.Base.Decimal.{decimal}
use geo.Routing.Graph.{Node, Edge, Graph}
use geo.Routing.Heap.{PriorityQueue}
use geo.Routing.AStar.{
  Found, found, failed, out_of_fuel, SearchError, PathResult, Query, edge_travel_time_hours,
}
use geo.Routing.Bidir.{bi_a_star, bidir_fuel}

-- The equality of two texts, and a set of texts.
abbrev pub same_text : List ℕ → List ℕ → Bool
same_text [] [] = true
same_text (x ∷ xs) (y ∷ ys) = (x == y) && same_text xs ys
same_text _ _ = false

abbrev pub insert_text : List ℕ → (List ℕ → Bool) → List ℕ → Bool
insert_text text seen t = same_text text t || seen t

pub drop {ℓ} : {A : Type ℓ} → ℕ → List A → List A
drop zero xs = xs
drop (suc n) [] = []
drop (suc n) (x ∷ xs) = drop n xs

-- spurEnd, for a path of so many nodes.
pub spur_end : ℕ → ℕ → ℕ
spur_end max_spur_nodes count =
    if ltb 0 max_spur_nodes && ltb max_spur_nodes (count - 1) then max_spur_nodes else count - 1

module _ (f : Float) where
  -- A path all of whose nodes have been read.
  pub record Way : Type 0 where
    pub nodes : List (Node f)
    pub edges : List (Edge f)
    pub distance_km : f.F
    pub time_hours : f.F

  pub read_nodes : List (Option (Node f)) → Option (List (Node f))
  read_nodes [] = some []
  read_nodes (n ∷ ns) = do node ← n; nodes ← read_nodes ns; some (node ∷ nodes)

  pub path_of : Way → PathResult f
  path_of w = record {
    nodes = map some w.nodes;
    edges = w.edges;
    distance_km = w.distance_km;
    time_hours = w.time_hours;
  }

  -- samePrefix
  pub same_prefix : List (Node f) → List (Node f) → Bool
  same_prefix nodes [] = true
  same_prefix [] (p ∷ prefix) = false
  same_prefix (n ∷ nodes) (p ∷ prefix) = (n.id == p.id) && same_prefix nodes prefix

  -- pathSignature
  pub path_signature : List (Node f) → List ℕ
  path_signature [] = []
  path_signature (n ∷ []) = decimal 20 n.id []
  path_signature (n ∷ m ∷ ns) = decimal 20 n.id [] ++ b',' ∷ path_signature (m ∷ ns)

  pub sum_along : (Edge f → f.F) → f.F → List (Edge f) → f.F
  sum_along w acc [] = acc
  sum_along w acc (e ∷ es) = sum_along w (f.add acc (w e)) es

  -- What the spur loop fills: the signatures seen, and the candidates.
  pub record Spurs : Type 0 where
    pub seen : List ℕ → Bool
    pub candidates : List Way

  -- The path leaves `root`, its first nodes, by the edge from `u` to `v`.
  pub leaves_by : ℕ → List (Node f) → ℕ → ℕ → List (Node f) → Bool
  leaves_by spur_idx root u v nodes = elim (drop spur_idx nodes) [
    | [] ↦ false
    | a ∷ rest ↦ elim rest [
      | [] ↦ false
      | b ∷ more ↦ same_prefix nodes root && (a.id == u) && (b.id == v)
    ]
  ]

  -- blockedEdges: the edges by which accepted paths leave the root.
  pub blocked_by : ℕ → List (Node f) → List Way → ℕ → ℕ → Bool
  blocked_by spur_idx root [] u v = false
  blocked_by spur_idx root (w ∷ ws) u v =
      leaves_by spur_idx root u v w.nodes || blocked_by spur_idx root ws u v

  -- blockedNodes: the nodes of the root before the spur node.
  pub has_node : List (Node f) → ℕ → Bool
  has_node [] v = false
  has_node (n ∷ ns) v = (n.id == v) || has_node ns v

  -- What a request asks of the searches.
  pub record Profile : Type 0 where
    pub edge_ok : Option (Edge f → Bool)
    pub speed_fn : Option (Edge f → f.F)
    pub heuristic_speed_kmh : f.F
    pub done : ℕ → ℕ → ℕ → Bool

  abbrev pub query : Profile → (ℕ → ℕ → Bool) → (ℕ → Bool) → ℕ → ℕ → Query f
  query p blocked_edges blocked_nodes round spur_idx = record {
    edge_ok = p.edge_ok;
    speed_fn = p.speed_fn;
    heuristic_speed_kmh = p.heuristic_speed_kmh;
    blocked_edges = blocked_edges;
    blocked_nodes = blocked_nodes;
    done = p.done round spur_idx;
  }

  -- The order that sort.Slice is called with. |a - b| > 1e-9, with the sign of a - b.
  pub comes_before : Way → Way → Bool
  comes_before a b =
      let gap = f.sub a.time_hours b.time_hours in
      let apart = if f.lt gap f.zero then f.sub f.zero gap else gap in
      if f.lt (f.lit 1 9) apart
      then f.lt a.time_hours b.time_hours
      else f.lt a.distance_km b.distance_km

  module _ (pq : PriorityQueue f) (sort_slice : (Way → Way → Bool) → List Way → List Way)
      (g : Graph f) (p : Profile) where
    -- edgeBetween: `best` is the edge of least distance so far.
    pub shortest_edge : ℕ → List (Edge f) → Option (Edge f) → Option (Edge f)
    shortest_edge to [] best = best
    shortest_edge to (e ∷ es) best = shortest_edge to es (
        if not (e.to == to) || not (elim p.edge_ok [ none ↦ true | some edge_ok ↦ edge_ok e ])
        then best
        else elim best [
          | none ↦ some e
          | some b ↦ if f.lt e.distance_km b.distance_km then some e else some b
        ])

    pub edge_between : ℕ → ℕ → Option (Edge f)
    unfolding shortest_edge
    edge_between from_id to = shortest_edge to (g.edges from_id) none

    -- The edges between the nodes of a path, one after another.
    pub edges_along : Node f → List (Node f) → Option (List (Edge f))
    edges_along n [] = some []
    edges_along n (m ∷ ns) = do
      edge ← edge_between n.id m.id
      edges ← edges_along m ns
      some (edge ∷ edges)

    -- combineRootAndSpur
    pub combine_root_and_spur : List (Node f) → List (Node f) → Option Way
    combine_root_and_spur [] spur = none
    combine_root_and_spur (n ∷ root) [] = none
    combine_root_and_spur (n ∷ root) (s ∷ spur) = do
      edges ← edges_along n (root ++ spur)
      some (record {
        nodes = n ∷ root ++ spur;
        edges = edges;
        distance_km = sum_along (λ (e : Edge f). e.distance_km) f.zero edges;
        time_hours = sum_along (λ e. edge_travel_time_hours f e p.speed_fn) f.zero edges;
      })

    -- A new path becomes a candidate.
    pub add_candidate : Way → Spurs → Spurs
    add_candidate total s = if s.seen (path_signature total.nodes) then s else record {
      seen = insert_text (path_signature total.nodes) s.seen;
      candidates = s.candidates ++ total ∷ [];
    }

    -- What is done with the search from a spur node.
    pub take_spur : List (Node f) → Found (PathResult f) → Spurs → Option Spurs
    take_spur root out_of_fuel s = none
    take_spur root (failed e) s = some s
    take_spur root (found spur) s = do
      spur_nodes ← read_nodes spur.nodes
      some (elim (combine_root_and_spur root spur_nodes) [
        | none ↦ s
        | some total ↦ add_candidate total s
      ])

    -- One spur position of the path `base`.
    pub try_spur : ℕ → ℕ → List Way → Way → ℕ → Spurs → Option Spurs
    try_spur goal_id round accepted base spur_idx s = do
      spur_node ← get_elem? base.nodes spur_idx
      take_spur (take (suc spur_idx) base.nodes)
          (bi_a_star f pq g
            (query p (blocked_by spur_idx (take (suc spur_idx) base.nodes) accepted)
              (has_node (take spur_idx base.nodes)) round spur_idx)
            (bidir_fuel f pq g (
              query p (blocked_by spur_idx (take (suc spur_idx) base.nodes) accepted)
                (has_node (take spur_idx base.nodes)) round spur_idx))
            spur_node.id goal_id)
          s

    -- The positions from `spur_idx` on, `left` of them.
    pub spur_loop : ℕ → ℕ → List Way → Way → ℕ → ℕ → Spurs → Option Spurs
    spur_loop goal_id round accepted base zero spur_idx s = some s
    spur_loop goal_id round accepted base (suc left) spur_idx s = do
      next ← try_spur goal_id round accepted base spur_idx s
      spur_loop goal_id round accepted base left (suc spur_idx) next

    -- `for len(accepted) < k`, with `left` paths to come. `base` is the last one that was accepted.
    pub yen_loop : ℕ → ℕ → ℕ → List Way → Way → Spurs → Option (List Way)
    yen_loop goal_id max_spur_nodes zero accepted base s = some accepted
    yen_loop goal_id max_spur_nodes (suc left) accepted base s = do
      next ←
          spur_loop goal_id (length accepted) accepted base
            (spur_end max_spur_nodes (length base.nodes)) 0 s
      elim next.candidates [
        | [] ↦ some accepted
        | c ∷ cs ↦ elim (sort_slice comes_before (c ∷ cs)) [
          | [] ↦ none
          | first ∷ rest ↦
              yen_loop goal_id max_spur_nodes left (accepted ++ first ∷ []) first
                (record next { candidates = rest })
        ]
      ]

    -- What follows the search for the primary path. `k` is positive.
    pub alternatives_to :
        ℕ → ℕ → ℕ → PathResult f → Option (Result SearchError (List (PathResult f)))
    alternatives_to goal_id k max_spur_nodes first =
        if (k == 1) || ltb (length first.nodes) 3 then some (ok (first ∷ [])) else do
          nodes ← read_nodes first.nodes
          accepted ←
              yen_loop goal_id max_spur_nodes (k - 1)
                (record {
                  nodes = nodes;
                  edges = first.edges;
                  distance_km = first.distance_km;
                  time_hours = first.time_hours;
                }
                  ∷ [])
                (record {
                  nodes = nodes;
                  edges = first.edges;
                  distance_km = first.distance_km;
                  time_hours = first.time_hours;
                })
                (record {
                  seen = insert_text (path_signature nodes) (λ text. false);
                  candidates = [];
                })
          some (ok (map path_of accepted))

    -- KFastestPaths
    pub k_fastest_paths : ℕ → ℕ → ℕ → ℕ → Option (Result SearchError (List (PathResult f)))
    k_fastest_paths start_id goal_id k max_spur_nodes =
        elim (bi_a_star f pq g (query p (λ u v. false) (λ v. false) 0 0)
          (bidir_fuel f pq g (query p (λ u v. false) (λ v. false) 0 0)) start_id goal_id) [
            | out_of_fuel ↦ none
            | failed e ↦ some (err e)
            | found first ↦ alternatives_to goal_id (if k == 0 then 1 else k) max_spur_nodes first
          ]
