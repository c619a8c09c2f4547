-- ===== src/Routing/Bidir/Cases.antt =====
-- What one edge does to the state of the search: it is passed over, or the side advances.
use geo.Base.{
  ℕ, ◌≡◌, refl, ap, ◌∙◌, inl, inr, List, [], ◌∷◌, Option, none, some, true, false, not, ◌||◌, ◌==◌,
  In, Bool-cases, ==_iff, arith, Option-cases, ◌&&◌,
}
use geo.Base.Float.{Float}
use geo.Routing.Graph.{Edge, Graph}
use geo.Routing.Heap.{PriorityQueue}
use geo.Routing.AStar.{Query, edge_passes, improves, heuristic_hours}
use geo.Routing.AStar.Walk.{Usable, travel_time}
use geo.Routing.Meeting.{Bidir, forward_meet, backward_meet}
use geo.Routing.Bidir.{best_edge, beats, Node, forward_edge, backward_edge, advance}

-- The query without a block on its goal: the search starts there from the other end all the same.
abbrev pub open_goal : {f : Float} → Query f → ℕ → Query f
open_goal q goal = record q { blocked_nodes = λ v. q.blocked_nodes v && not (goal == v) }

pub open_goal-open :
    {f : Float} (q : Query f) (goal v : ℕ)
    → q.blocked_nodes v ≡ false
    → (open_goal q goal).blocked_nodes v ≡ false
open_goal-open q goal v h = rw h refl

pub open_goal-goal :
    {f : Float} (q : Query f) (goal : ℕ) → (open_goal q goal).blocked_nodes goal ≡ false
open_goal-goal q goal = ground arith

module _ {f : Float} (g : Graph f) (q : Query f) where
  -- An edge by which the forward search comes from `u` to `v`, and the backward one.
  abbrev pub ForwardLink : ℕ → ℕ → Edge f → Type 0
  ForwardLink u v e = (e.to ≡ v) × Usable g q u e

  abbrev pub BackwardLink : ℕ → ℕ → Edge f → Type 0
  BackwardLink u v e = (e.to ≡ u) × Usable g q v e

  abbrev pub ForwardKnown : ℕ → Type 0
  ForwardKnown v = In v g.ids

  -- The backward search comes to nodes that are not blocked.
  abbrev pub BackwardKnown : ℕ → Type 0
  BackwardKnown v = In v g.ids × (q.blocked_nodes v ≡ false) × ((m : Node f) × (g.nodes v ≡ some m))

module _ {f : Float} (g : Graph f) (q : Query f) where
  -- The edge that best_edge picks, and its time.
  abbrev pub IsBest : ℕ → ℕ → Option (Edge f × f.F) → Type 0
  IsBest from_id cur none = Unit
  IsBest from_id cur (some (e, t)) =
      In e (g.edges from_id)
      × (e.to ≡ cur)
      × (q.blocked_edges from_id e.to ≡ false)
      × (edge_passes f q e ≡ true)
      × (t ≡ travel_time g q e)

  module _ (pq : PriorityQueue f) where
    best_edge-IsBest :
        (from_id cur : ℕ) (es : List (Edge f)) (best : Option (Edge f × f.F))
        → ((e : Edge f) → In e es → In e (g.edges from_id))
        → IsBest from_id cur best
        → IsBest from_id cur (best_edge f pq g q from_id cur es best)
    unfolding best_edge
    best_edge-IsBest from_id cur [] best members good = good
    best_edge-IsBest from_id cur (e ∷ es) best members good =
        best_edge-IsBest from_id cur es _ (λ d h. members d (inr h))
          (elim (Bool-cases
            (not (e.to == cur) || q.blocked_edges from_id cur || not (edge_passes f q e))) [
              | inl skip ↦ rw skip good
              | inr go ↦ elim (Bool-cases (beats f pq g q (travel_time g q e) best)) [
                | inr slower ↦ rw (go, slower) good
                | inl faster ↦
                    let here : e.to ≡ cur = (==_iff e.to cur).0 (ground arith) in
                    rw (go, faster)
                      (
                        members e (inl refl),
                        here,
                        ap (q.blocked_edges from_id) here ∙ ground arith,
                        ground arith,
                        refl,
                      )
              ]
            ])

    module _ (goal_id : ℕ) where
      pub data Forwarded (goal : Node f) (cur : ℕ) (tc : f.F) (e : Edge f) (b : Bidir f)
          : Bidir f → Type 0 where
        stayed : Forwarded goal cur tc e b b
        moved :
            (n : Node f)
            → g.nodes e.to ≡ some n
            → ForwardLink g (open_goal q goal_id) cur e.to e
            → b.fwd.closed e.to ≡ false
            → improves f (f.add tc (travel_time g q e)) (b.fwd.time_score e.to) ≡ true
            → Forwarded goal cur tc e b (
                forward_meet f e.to (f.add tc (travel_time g q e)) (record b {
                  fwd =
                      advance f pq g q e.to cur e
                        (f.add tc (travel_time g q e))
                        (heuristic_hours f q goal n)
                        b.fwd;
                }))

      pub forward_cases :
          (goal : Node f) (cur : ℕ) (tc : f.F) (e : Edge f) (b : Bidir f)
          → b.fwd.time_score cur ≡ some tc
          → In e (g.edges cur)
          → Forwarded goal cur tc e b (forward_edge f pq g q goal cur e b)
      unfolding forward_edge
      forward_cases goal cur tc e b score member =
          elim (Bool-cases (
            b.fwd.closed e.to
            || q.blocked_nodes e.to
            || q.blocked_edges cur e.to
            || not (edge_passes f q e))) [
              | inl skip ↦ rw skip stayed
              | inr go ↦ elim (Option-cases (g.nodes e.to)) [
                | inl none_there ↦ rw (go, none_there, forward_edge) stayed
                | inr (n, there) ↦
                    elim (Bool-cases
                      (improves f (f.add tc (travel_time g q e)) (b.fwd.time_score e.to))) [
                        | inr worse ↦ rw (go, there, forward_edge, score, worse) stayed
                        | inl better ↦
                            rw (go, there, forward_edge, score, better)
                              (moved n there
                                (
                                  refl,
                                  record {
                                    of_graph = member;
                                    passes = ground arith;
                                    node_open = open_goal-open q goal_id e.to (ground arith);
                                    edge_open = ground arith;
                                    ends = (n, there);
                                  },
                                )
                                (ground arith) better)
                      ]
              ]
            ]

      pub data Backed (start : Node f) (cur : ℕ) (tc : f.F) (v : ℕ) (b : Bidir f)
          : Bidir f → Type 0 where
        stayed : Backed start cur tc v b b
        moved :
            (n : Node f) (e : Edge f)
            → g.nodes v ≡ some n
            → q.blocked_nodes v ≡ false
            → BackwardLink g (open_goal q goal_id) cur v e
            → b.bwd.closed v ≡ false
            → improves f (f.add tc (travel_time g q e)) (b.bwd.time_score v) ≡ true
            → Backed start cur tc v b (
                backward_meet f v (f.add tc (travel_time g q e)) (record b {
                  bwd =
                      advance f pq g q v cur e
                        (f.add tc (travel_time g q e))
                        (heuristic_hours f q start n)
                        b.bwd;
                }))

      by_best :
          (start m : Node f) (cur : ℕ) (tc : f.F) (v : ℕ) (b : Bidir f) (o : Option (Edge f × f.F))
          → b.bwd.time_score cur ≡ some tc
          → g.nodes cur ≡ some m
          → (open_goal q goal_id).blocked_nodes cur ≡ false
          → b.bwd.closed v || q.blocked_nodes v ≡ false
          → best_edge f pq g q v cur (g.edges v) none ≡ o
          → IsBest v cur o
          → Backed start cur tc v b (backward_edge f pq g q start cur v b)
      unfolding backward_edge
      by_best start m cur tc v b none score cur_there cur_open go picked good =
          rw (go, picked, backward_edge) stayed
      by_best start m cur tc v b (some (e, t)) score cur_there cur_open go picked good =
          elim (Option-cases (g.nodes v)) [
            | inl none_there ↦ rw (go, picked, backward_edge, none_there) stayed
            | inr (n, there) ↦
                let same : f.add tc t ≡ f.add tc (travel_time g q e) = ap (f.add tc) good.4 in
                elim (Bool-cases (improves f (f.add tc (travel_time g q e)) (b.bwd.time_score v))) [
                  | inr worse ↦ rw (go, picked, backward_edge, there, score, same, worse) stayed
                  | inl better ↦
                      rw (go, picked, backward_edge, there, score, same, better)
                        (moved n e there (ground arith)
                          (
                            good.1,
                            record {
                              of_graph = good.0;
                              passes = good.3;
                              node_open = ap (open_goal q goal_id).blocked_nodes good.1 ∙ cur_open;
                              edge_open = good.2;
                              ends = (m, ap g.nodes good.1 ∙ cur_there);
                            },
                          )
                          (ground arith) better)
                ]
          ]

      -- `cur` is a node of the graph that is not blocked, as the end of the edge must be.
      pub backward_cases :
          (start m : Node f) (cur : ℕ) (tc : f.F) (v : ℕ) (b : Bidir f)
          → b.bwd.time_score cur ≡ some tc
          → g.nodes cur ≡ some m
          → (open_goal q goal_id).blocked_nodes cur ≡ false
          → Backed start cur tc v b (backward_edge f pq g q start cur v b)
      unfolding backward_edge
      backward_cases start m cur tc v b score cur_there cur_open =
          elim (Bool-cases (b.bwd.closed v || q.blocked_nodes v)) [
            | inl skip ↦ rw skip stayed
            | inr go ↦
                by_best start m cur tc v b (best_edge f pq g q v cur (g.edges v) none) score
                  cur_there cur_open go refl (best_edge-IsBest v cur (g.edges v) none (λ e h. h) tt)
          ]
