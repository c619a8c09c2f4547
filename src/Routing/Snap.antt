-- ===== src/Routing/Snap.antt =====
-- internal/routing/graph.go: the search for the node nearest to a point, through the cells of the
-- grid, and internal/utils/geo.go: Haversine. Distances are no NaN. The order in which Go ranges
-- over the map of nodes is that of `ids`.
pub mod Nearest
use geo.Base.{
  ℕ, zero, suc, ◌+◌, ◌*◌, Bool, true, false, not, ◌&&◌, ◌||◌, ◌==◌, Option, none, some, List, [],
  ◌∷◌, ◌++◌, map, if◌then◌else◌, ltb,
}
use geo.Base.Int.{ℤ, pos, pos_part, sub_ℕ, ◌+ℤ◌}
use geo.Base.Float.{Float, le_float}
use geo.Routing.Highway.{HighwayKind}
use geo.Routing.Graph.{Node, Edge, Graph, cell_for}

abbrev pub is_empty {ℓ} : {A : Type ℓ} → List A → Bool
is_empty [] = true
is_empty (x ∷ xs) = false

-- From 0 on, so many numbers.
count_to : ℕ → List ℕ
count_to zero = []
count_to (suc n) = count_to n ++ n ∷ []

-- `for d := -radius; d <= radius; d++`
pub offsets : ℕ → List ℤ
unfolding count_to
offsets radius = map (λ i. sub_ℕ i radius) (count_to (2 * radius + 1))

pub flat_map {ℓ κ} : {A : Type ℓ} {B : Type κ} → (A → List B) → List A → List B
flat_map h [] = []
flat_map h (x ∷ xs) = h x ++ flat_map h xs

module _ (f : Float) where
  -- Haversine
  pub haversine : f.F → f.F → f.F → f.F → f.F
  haversine lat₁ lng₁ lat₂ lng₂ =
      let d_lat = f.div (f.to_rad (f.sub lat₂ lat₁)) (f.lit 2 0) in
      let d_lng = f.div (f.to_rad (f.sub lng₂ lng₁)) (f.lit 2 0) in
      let a = f.add (f.mul (f.sin d_lat) (f.sin d_lat)) (
        f.mul (f.mul (f.mul (f.cos (f.to_rad lat₁)) (f.cos (f.to_rad lat₂))) (f.sin d_lng))
          (f.sin d_lng)) in
      f.mul (f.mul (f.lit 6371 0) (f.lit 2 0)) (f.atan2 (f.sqrt a) (f.sqrt (f.sub (f.lit 1 0) a)))

  pub any_edge : (Edge f → Bool) → List (Edge f) → Bool
  any_edge ok [] = false
  any_edge ok (e ∷ es) = ok e || any_edge ok es

  -- The minimal edge with the flags of a node.
  pub synth : ℕ → Edge f
  synth flags = record {
    to = 0;
    distance_km = f.zero;
    speed_kmh = f.zero;
    time_hours = f.zero;
    kind = HighwayKind.unknown;
    flags = flags;
    name_idx = 0;
  }

  -- nodeRoutable
  pub node_routable : Graph f → Option (Edge f → Bool) → ℕ → Bool
  unfolding synth any_edge
  node_routable g none id = true
  node_routable g (some ok) id = elim (g.nodes id) [
    | none ↦ false
    | some n ↦
        let outgoing = g.edges id in
        if n.flags == 0
        then false
        else if not (ok (synth n.flags)) && is_empty outgoing
        then false
        else if any_edge ok outgoing
        then true
        else is_empty outgoing
  ]

  -- The body of the loops: the nearest so far, and its distance.
  pub scan :
      (Node f → Bool)
      → (Node f → f.F)
      → List (Node f)
      → Option (Node f) × f.F
      → Option (Node f) × f.F
  scan ok dist [] best = best
  scan ok dist (n ∷ ns) best =
      scan ok dist ns (if ok n && f.lt (dist n) best.1 then (some n, dist n) else best)

  abbrev pub distance_from : f.F → f.F → Node f → f.F
  distance_from lat lng n = haversine lat lng n.lat n.lng

  node_list : Graph f → List ℕ → List (Node f)
  node_list g [] = []
  node_list g (id ∷ ids) =
      let rest = node_list g ids in elim (g.nodes id) [ none ↦ rest | some n ↦ n ∷ rest ]

  -- NearestNode
  pub nearest_node : Graph f → f.F → f.F → Option (Node f)
  unfolding haversine scan node_list
  nearest_node g lat lng =
      (scan (λ n. true) (distance_from lat lng) (node_list g g.ids) (none, f.max_float64)).0

  -- The cells to look at, and the nodes in them, in the order of the loops.
  pub cell_radius : f.F → ℕ
  cell_radius max_km =
      let radius = pos_part (f.ceil (f.div max_km (f.mul (f.lit 111 0) (f.lit 2 2))) +ℤ pos 1) in
      if ltb radius 1 then 1 else radius

  pub nodes_around : Graph f → f.F → f.F → f.F → List (Node f)
  unfolding cell_radius offsets flat_map
  nodes_around g lat lng max_km =
      let center = cell_for f lat lng in
      let span = offsets (cell_radius max_km) in
      flat_map (λ d_lat. flat_map (λ d_lng. g.grid (center.0 +ℤ d_lat) (center.1 +ℤ d_lng)) span)
        span

  -- nearestNodeWithin. AddNode fills the grid and the map of nodes alike: one is empty if the other
  -- is.
  pub nearest_node_within : Graph f → f.F → f.F → f.F → Option (Edge f → Bool) → Option (Node f)
  unfolding nearest_node nodes_around node_routable
  nearest_node_within g lat lng max_km edge_ok =
      if le_float f max_km f.zero
      then none
      else if is_empty g.ids
      then elim (nearest_node g lat lng) [
        | none ↦ none
        | some n ↦
            if node_routable g edge_ok n.id && le_float f (distance_from lat lng n) max_km
            then some n
            else none
      ]
      else let best =
          scan (λ n. node_routable g edge_ok n.id) (distance_from lat lng)
            (nodes_around g lat lng max_km) (none, f.max_float64) in
        elim best.0 [ none ↦ none | some n ↦ if f.lt max_km best.1 then none else some n ]
