-- ===== src/Routing/Graph/Keys.antt =====
-- The keys of the map of nodes, through the construction of a graph.
use mathlib.Core.Path.{subst}
use geo.Base.{
  ℕ, ◌≡◌, ◌==◌, ==_iff, Option, some, inl, inr, Bool-cases, Option-cases, In, refl, sym, ap, ◌∙◌,
  from_some, List, [], ◌∷◌,
}
use geo.Base.Float.{Float}
use geo.Routing.Graph.{Node, Edge, Graph, new_graph, add_node, mark, add_edge, update, bit_or}

module _ (f : Float) where
  -- Every key of the map of nodes is in `ids`.
  abbrev pub HasKeys : Graph f → Type 0
  HasKeys g = (v : ℕ) (n : Node f) → g.nodes v ≡ some n → In v g.ids

  pub new_graph-HasKeys : HasKeys (new_graph f)
  unfolding new_graph
  new_graph-HasKeys v n h = cc

  mark_key :
      (nodes : ℕ → Option (Node f)) (id flags v : ℕ) (n : Node f)
      → mark f nodes id flags v ≡ some n
      → (m : Node f) × (nodes v ≡ some m)
  unfolding mark
  mark_key nodes id flags v n h = elim (Option-cases (nodes id)) [
    | inl missing ↦ (n, rw (missing, mark) at h)
    | inr (old, e) ↦ elim (Bool-cases (id == v)) [
      | inl same ↦ (old, subst (λ i. nodes i ≡ some old) ((==_iff id v).0 same) e)
      | inr other ↦ (n, rw (e, mark, other) at h)
    ]
  ]

  add_node-HasKeys : (g : Graph f) (n : Node f) → HasKeys g → HasKeys (add_node f g n)
  unfolding add_node
  add_node-HasKeys g n keys v m h = elim (Option-cases (g.nodes n.id)) [
    | inl new ↦
        rw (new, add_node)
          (elim (Bool-cases (n.id == v)) [
            | inl same ↦ inl ((==_iff n.id v).0 same)
            | inr other ↦ inr (keys v m (rw other at h))
          ])
    | inr (old, e) ↦
        rw (e, add_node)
          (elim (Bool-cases (n.id == v)) [
            | inl same ↦ keys v old (subst (λ i. g.nodes i ≡ some old) ((==_iff n.id v).0 same) e)
            | inr other ↦ keys v m (rw other at h)
          ])
  ]

  add_edge-HasKeys :
      (g : Graph f) (from : ℕ) (e : Edge f) → HasKeys g → HasKeys (add_edge f g from e)
  unfolding add_edge
  add_edge-HasKeys g from e keys v n h =
      let (m, there) = mark_key (mark f g.nodes from e.flags) e.to e.flags v n h in
      let (k, before) = mark_key g.nodes from e.flags v m there in keys v k before

  -- Every node is under its own id.
  abbrev HasOwnIds : Graph f → Type 0
  HasOwnIds g = (v : ℕ) (n : Node f) → g.nodes v ≡ some n → n.id ≡ v

  abbrev AreOwn : (ℕ → Option (Node f)) → Type 0
  AreOwn nodes = (v : ℕ) (n : Node f) → nodes v ≡ some n → n.id ≡ v

  update-AreOwn :
      (nodes : ℕ → Option (Node f)) (id : ℕ) (m : Node f)
      → m.id ≡ id
      → AreOwn nodes
      → AreOwn (update nodes id (some m))
  update-AreOwn nodes id m same own v n h = elim (Bool-cases (id == v)) [
    | inl here ↦
        let given : m ≡ n = from_some (rw here at h) in
        ap (λ x. x.id) (sym given) ∙ same ∙ (==_iff id v).0 here
    | inr other ↦ own v n (rw other at h)
  ]

  mark-AreOwn :
      (nodes : ℕ → Option (Node f)) (id flags : ℕ) → AreOwn nodes → AreOwn (mark f nodes id flags)
  unfolding mark
  mark-AreOwn nodes id flags own = elim (Option-cases (nodes id)) [
    | inl missing ↦ λ v n h. own v n (rw (missing, mark) at h)
    | inr (old, e) ↦ λ v n h.
        update-AreOwn nodes id (record old { flags = bit_or old.flags flags }) (own id old e) own v
          n (rw (e, mark) at h)
  ]

  -- What makes a graph: a node, or an edge with the id that it starts from.
  pub data Part : Type 0 where
    node : Node f → Part
    edge : ℕ → Edge f → Part

  abbrev pub add : Graph f → Part → Graph f
  add g (node n) = add_node f g n
  add g (edge from e) = add_edge f g from e

  -- The graph that the parts make, the last one of the list first.
  abbrev pub built : List Part → Graph f
  built [] = new_graph f
  built (p ∷ parts) = add (built parts) p

  add-HasOwnIds : (g : Graph f) (p : Part) → HasOwnIds g → HasOwnIds (add g p)
  unfolding add_node add_edge
  add-HasOwnIds g (node n) own = update-AreOwn g.nodes n.id n refl own
  add-HasOwnIds g (edge from e) own =
      mark-AreOwn (mark f g.nodes from e.flags) e.to e.flags (mark-AreOwn g.nodes from e.flags own)

  add-HasKeys : (g : Graph f) (p : Part) → HasKeys g → HasKeys (add g p)
  add-HasKeys g (node n) keys = add_node-HasKeys g n keys
  add-HasKeys g (edge from e) keys = add_edge-HasKeys g from e keys

  -- What the searches ask of a graph holds of every graph that AddNode and AddEdge make of the empty
  -- one: each key of its map of nodes is in `ids`, and each node is under its own id.
  pub built-HasKeys : (parts : List Part) → HasKeys (built parts) × HasOwnIds (built parts)
  unfolding new_graph
  built-HasKeys [] = (new_graph-HasKeys, λ v n h. absurd cc)
  built-HasKeys (p ∷ parts) =
      let (keys, own) = built-HasKeys parts in
      (add-HasKeys (built parts) p keys, add-HasOwnIds (built parts) p own)
