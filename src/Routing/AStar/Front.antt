-- ===== src/Routing/AStar/Front.antt =====
-- With no heuristic: what the scores, the settled nodes and the queue say of one another, and that
-- relaxing an edge keeps it.
use mathlib.Core.Path.{subst}
use geo.Base.{
  value_or, ℕ, ◌≡◌, refl, sym, ap, ◌∙◌, ◌⊎◌, inl, inr, List, Option, some, true, false, not, ◌||◌,
  ◌==◌, In, arith, Bool-cases, Option-cases, ==_iff, ==_self,
}
use geo.Base.Float.{Float, IsOrdered}
use geo.Routing.Graph.{Node, Edge, Graph, update}
use geo.Routing.Heap.{Item, PriorityQueue}
use geo.Routing.AStar.{Query, Search, edge_passes, heuristic_hours, improves, improve, relax}
use geo.Routing.AStar.Walk.{Usable, travel_time}
use geo.Routing.AStar.Relax.{tent}

-- The score of a node is defined, and at most `b`.
abbrev pub ScoredBy : (f : Float) → (ℕ → Option f.F) → ℕ → f.F → Type 0
ScoredBy f score v b = (a : f.F) × (score v ≡ some a) × (f.lt b a ≡ false)

module _ {f : Float} (ordered : IsOrdered f) (pq : PriorityQueue f) (g : Graph f) (q : Query f)
    (exact : f.lt f.zero q.heuristic_speed_kmh ≡ false)
    (nonneg : (u : ℕ) (e : Edge f) → Usable g q u e → f.lt (travel_time g q e) f.zero ≡ false) where
  -- `left` are the edges of `cur` that are still to be relaxed.
  pub record Front (start cur : ℕ) (left : List (Edge f)) (s : Search f) : Type 0 where
    pub heap : pq.IsHeap s.queue
    pub started : ScoredBy f s.time_score start f.zero
    pub scored : (it : Item f) → In it s.queue → (t : f.F) × (s.time_score it.node_id ≡ some t)
    pub settled : (v : ℕ) → s.closed v ≡ true → (t : f.F) × (s.time_score v ≡ some t)
    pub waiting :
        (v : ℕ) (t : f.F)
        → s.time_score v ≡ some t
        → s.closed v ≡ false
        → (it : Item f) × In it s.queue × (it.node_id ≡ v) × (it.g_cost ≡ t) × (it.f_cost ≡ t)
    pub past :
        (v : ℕ) (t : f.F) (it : Item f)
        → s.closed v ≡ true
        → s.time_score v ≡ some t
        → In it s.queue
        → f.lt it.f_cost t ≡ false
    pub lower :
        (it : Item f) (t : f.F)
        → In it s.queue
        → s.time_score it.node_id ≡ some t
        → f.lt it.f_cost t ≡ false
    pub relaxed :
        (u : ℕ) (e : Edge f) (t : f.F)
        → s.closed u ≡ true
        → Usable g q u e
        → s.time_score u ≡ some t
        → ScoredBy f s.time_score e.to (f.add t (travel_time g q e)) ⊎ ((u ≡ cur) × In e left)

  -- While the edges of `cur` are relaxed: it is settled, with the greatest score of those.
  pub record Busy (start cur : ℕ) (tc : f.F) (left : List (Edge f)) (s : Search f) : Type 0 where
    pub front : Front start cur left s
    pub score : s.time_score cur ≡ some tc
    pub cur_closed : s.closed cur ≡ true
    pub top : (v : ℕ) (t : f.F) → s.closed v ≡ true → s.time_score v ≡ some t → f.lt tc t ≡ false

  pub ScoredBy-trans :
      (score : ℕ → Option f.F) (v : ℕ) (b c : f.F)
      → f.lt c b ≡ false
      → ScoredBy f score v b
      → ScoredBy f score v c
  ScoredBy-trans score v b c h (a, e, k) = (a, e, ordered.le_trans a b c k h)

  -- A score that gets better stays below its bound.
  pub ScoredBy-update :
      (score : ℕ → Option f.F) (w v : ℕ) (t b : f.F)
      → improves f t (score w) ≡ true
      → ScoredBy f score v b
      → ScoredBy f (update score w (some t)) v b
  ScoredBy-update score w v t b better (a, e, k) = elim (Bool-cases (w == v)) [
    | inl hit ↦
        let closer : f.lt t a ≡ true = rw ((==_iff w v).0 hit, e) at better in
        (t, rw hit refl, ordered.le_trans t a b (ordered.le_of_lt t a closer) k)
    | inr other ↦ (a, rw other e, k)
  ]

  pub no_heuristic : (goal n : Node f) (t : f.F) → f.add t (heuristic_hours f q goal n) ≡ t
  no_heuristic goal n t = unfold heuristic_hours in rw exact (ordered.add_zero t)

  pub tent_lem :
      (cur : ℕ) (tc : f.F) (e : Edge f) (s : Search f)
      → s.time_score cur ≡ some tc
      → tent pq g q cur e s ≡ f.add tc (travel_time g q e)
  tent_lem cur tc e s sc = ap (λ o. f.add (value_or o f.zero) (travel_time g q e)) sc

  -- The edge that was relaxed leaves its end with a score that is no greater than the way by `cur`.
  pub relax-ScoredBy :
      (goal : Node f) (start cur : ℕ) (tc : f.F) (e : Edge f) (left : List (Edge f)) (s : Search f)
      → Busy start cur tc left s
      → Usable g q cur e
      → ScoredBy f (relax f pq g q goal cur e s).time_score e.to (f.add tc (travel_time g q e))
  unfolding relax improve
  relax-ScoredBy goal start cur tc e left s b usable =
      elim (Bool-cases (
        s.closed e.to
        || q.blocked_nodes e.to
        || q.blocked_edges cur e.to
        || not (edge_passes f q e))) [
          | inl skip ↦
              let done : s.closed e.to ≡ true =
                ground (arith, usable.node_open, usable.edge_open, usable.passes) in
              let (t, sc) = b.front.settled e.to done in
              rw skip (
                t,
                sc,
                ordered.le_trans t tc _ (b.top e.to t done sc)
                    (ordered.le-add tc _ (nonneg cur e usable)),
              )
          | inr go ↦ elim (Option-cases (g.nodes e.to)) [
            | inl none_there ↦ absurd (let found = sym none_there ∙ usable.ends.1 in cc)
            | inr (n, there) ↦
                elim (Bool-cases (improves f (tent pq g q cur e s) (s.time_score e.to))) [
                  | inr worse ↦
                      rw (go, there, relax, worse)
                        (elim (Option-cases (s.time_score e.to)) [
                          | inl unseen ↦ absurd (let odd = rw unseen at worse in cc)
                          | inr (prev, sc) ↦ (
                            prev,
                            sc,
                            sym (ap (λ x. f.lt x prev) (tent_lem cur tc e s b.score))
                                ∙ sym (ap (improves f (tent pq g q cur e s)) sc)
                                ∙ worse,
                          )
                        ])
                  | inl better ↦
                      rw (go, there, relax, better)
                        (
                          tent pq g q cur e s,
                          rw (==_self e.to) refl,
                          subst (λ x. f.lt (f.add tc (travel_time g q e)) x ≡ false)
                              (sym (tent_lem cur tc e s b.score)) (ordered.lt_irrefl _),
                        )
                ]
          ]
        ]
