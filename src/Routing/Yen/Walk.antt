-- ===== src/Routing/Yen/Walk.antt =====
-- Lists of nodes as walks through the graph, and the nodes of a route.

use mathlib.Core.Path.{subst}
use geo.Base.{
  from_some, ℕ, zero, suc, ◌≡◌, refl, ap, ◌∙◌, List, [], ◌∷◌, ◌++◌, map, Option, none, some, All,
  Yields, Yields-bind, get_elem?, take,
}
use geo.Base.Float.{Float}
use geo.Routing.Graph.{Node, Edge, Graph}
use geo.Routing.AStar.{Query}
use geo.Routing.AStar.Walk.{IsRoute}
use geo.Routing.Yen.{read_nodes}

module _ {f : Float} (g : Graph f) where
  -- Every node stands under its own id.
  abbrev pub HasOwnIds : Type 0
  HasOwnIds = (v : ℕ) (n : Node f) → g.nodes v ≡ some n → n.id ≡ v

  abbrev pub IsThere : Node f → Type 0
  IsThere n = g.nodes n.id ≡ some n

  abbrev pub last_id : Node f → List (Node f) → ℕ
  last_id n [] = n.id
  last_id n (m ∷ ms) = last_id m ms

  -- The nodes are of the graph, the first is `start` and the last is `goal`.
  abbrev pub IsWalk : ℕ → ℕ → List (Node f) → Type 0
  IsWalk start goal [] = ⊥
  IsWalk start goal (n ∷ ns) = (n.id ≡ start) × (last_id n ns ≡ goal) × IsThere n × All IsThere ns

  abbrev pub node_ids : List (Node f) → List ℕ
  node_ids = map (λ (n : Node f). n.id)

  abbrev pub edge_ends : List (Edge f) → List ℕ
  edge_ends = map (λ (e : Edge f). e.to)

  pub last_id-append :
      (n m : Node f) (ns ms : List (Node f))
      → last_id n ns ≡ m.id
      → IsThere n
      → All IsThere ns
      → IsThere m
      → last_id n (ns ++ ms) ≡ last_id m ms
  last_id-append n m [] [] same tn tns tm = same
  last_id-append n m [] (x ∷ ms) same tn tns tm = refl
  last_id-append n m (x ∷ ns) ms same tn tns tm = last_id-append x m ns ms same tns.0 tns.1 tm

  -- The node at a position is the last of the nodes up to it.
  pub last_id-take :
      (n m : Node f) (ns : List (Node f)) (i : ℕ)
      → get_elem? (n ∷ ns) i ≡ some m
      → last_id n (take i ns) ≡ m.id
  last_id-take n m ns zero h = ap (λ (o : Option (Node f)). elim o [ none ↦ 0 | some x ↦ x.id ]) h
  last_id-take n m [] (suc i) h = absurd cc
  last_id-take n m (x ∷ ns) (suc i) h = last_id-take x m ns i h

  pub IsThere-get_elem? :
      (ns : List (Node f)) (i : ℕ) (m : Node f)
      → All IsThere ns
      → get_elem? ns i ≡ some m
      → IsThere m
  IsThere-get_elem? [] i m h e = absurd cc
  IsThere-get_elem? (n ∷ ns) zero m h e = let same : n ≡ m = from_some e in subst IsThere same h.0
  IsThere-get_elem? (n ∷ ns) (suc i) m h e = IsThere-get_elem? ns i m h.1 e

  pub map-nodes : (ns : List (Node f)) → All IsThere ns → map g.nodes (node_ids ns) ≡ map some ns
  map-nodes [] h = refl
  map-nodes (n ∷ ns) h = rw (h.0, map-nodes ns h.1) refl

  -- The nodes on a route can all be read.
  pub read_nodes-IsWalk :
      (q : Query f) (own : HasOwnIds) (u v : ℕ) (n : Node f) (es : List (Edge f))
      → g.nodes u ≡ some n
      → IsRoute g q u v es
      → Yields
          (λ ns. IsWalk u v ns × (node_ids ns ≡ u ∷ edge_ends es))
          (read_nodes f (map g.nodes (u ∷ edge_ends es)))
  unfolding read_nodes
  read_nodes-IsWalk q own u v n [] there r =
      let here = own u n there in
      rw (there, read_nodes) ((here, here ∙ r, ap g.nodes here ∙ there, tt), ap (λ x. x ∷ []) here)
  read_nodes-IsWalk q own u v n (e ∷ es) there (usable, r) =
      let (m, next) = usable.ends in
      let here = own u n there in
      rw (there, read_nodes)
        (Yields-bind (λ ns. IsWalk e.to v ns × (node_ids ns ≡ e.to ∷ edge_ends es))
          (λ ns. IsWalk u v ns × (node_ids ns ≡ u ∷ edge_ends (e ∷ es)))
          (read_nodes f (map g.nodes (e.to ∷ edge_ends es))) (λ ns. some (n ∷ ns))
          (read_nodes-IsWalk q own e.to v m es next r)
          (λ ns h. more n ns here (ap g.nodes here ∙ there) h))
    where
      more :
          (n : Node f) (ns : List (Node f))
          → n.id ≡ u
          → IsThere n
          → IsWalk e.to v ns × (node_ids ns ≡ e.to ∷ edge_ends es)
          → IsWalk u v (n ∷ ns) × (node_ids (n ∷ ns) ≡ u ∷ edge_ends (e ∷ es))
      more n [] here tn h = absurd h.0
      more n (m ∷ ns) here tn (walk, same) =
          ((here, walk.1, tn, (walk.2, walk.3)), rw (here, same) refl)
