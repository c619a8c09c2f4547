-- ===== src/Routing/Bidir/Ends.antt =====
-- The search from both ends comes to an end, with a path of the graph or with an error.
use mathlib.Core.List.{append-nil}
use geo.Base.{
  ℕ, zero, suc, ◌%◌, ◌<◌, ◌≡◌, ◌≢◌, refl, sym, ap, ◌∙◌, inl, inr, List, [], ◌∷◌, Option, none, some,
  false, ◌&&◌, ◌==◌, In, arith, if_cases, Option-cases, Bool-cases, ==_iff, ==_self, if◌then◌else◌,
}
use geo.Base.Float.{Float, IsOrdered, le_float}
use geo.Routing.Graph.{Node, Edge, Graph}
use geo.Routing.Heap.{Item, PriorityQueue}
use geo.Routing.AStar.{Found, found, failed, out_of_fuel, PathResult, Query, start_state, a_star}
use geo.Routing.AStar.Walk.{travel_time, total, IsRoute}
use geo.Routing.AStar.Ends.{Ends, HasIds, a_star-Ends, IsFailed, a_star-IsFailed}
use geo.Routing.Meeting.{Bidir, no_items, is_forward, cannot_improve}
use geo.Routing.Bidir.{
  finish, bidir_loop, forward_step, backward_step, bidir_fuel, fuel_by, both_fuel, search_both,
  bi_a_star,
}
use geo.Routing.Bidir.Side.{Side, Reached}
use geo.Routing.Bidir.Cases.{
  ForwardLink, BackwardLink, ForwardKnown, BackwardKnown, open_goal-open, open_goal, open_goal-goal,
}
use geo.Routing.Bidir.Inv.{BidirInv, Advances, pending}
use geo.Routing.Bidir.Forward.{forward_step-lem}
use geo.Routing.Bidir.Backward.{backward_step-lem}
use geo.Routing.Bidir.Path.{IsBidirPath, build_bidir_path-lem}

no_items-false : {f : Float} (q : List (Item f)) → no_items f q ≡ false → q ≢ []
no_items-false [] h = absurd cc
no_items-false (x ∷ q) h = λ e. absurd cc

module _ {f : Float} (pq : PriorityQueue f) (g : Graph f) (q : Query f) where
  -- What the search may give: a path, or an error, but not that the fuel ran out.
  abbrev pub BidirEnds : ℕ → ℕ → Found (PathResult f) → Type 0
  BidirEnds start goal (found p) = IsBidirPath g (open_goal q goal) start goal p
  BidirEnds start goal (failed e) = Unit
  BidirEnds start goal out_of_fuel = ⊥

  start-Side :
      (Link : ℕ → ℕ → Edge f → Type 0) (Known : ℕ → Type 0) (it : Item f)
      → IsOrdered f
      → it.g_cost ≡ f.zero
      → Known it.node_id
      → Side Link it.node_id pq g q (travel_time g q) Known 0 (start_state f pq g q it.node_id it)
  start-Side Link Known it ordered by_g known = record {
    reached = λ v t h. reached v t h;
    queued = λ y h. (
      f.zero,
      rw (← only y h) (rw (==_self it.node_id) refl),
      rw (← only y h, by_g) (ordered.lt_irrefl f.zero),
    );
    started = inr (λ y h. rw (← only y h) refl);
  }
    where
      only : (y : Item f) → In y (pq.push it []) → it ≡ y
      only y h = elim (pq.push_in it y [] h) [ inl e ↦ e | inr none_else ↦ absurd none_else ]

      reached :
          (v : ℕ) (t : f.F)
          → (if it.node_id == v then some f.zero else none) ≡ some t
          → Reached Link it.node_id pq g q
              (travel_time g q)
              Known
              0
              (start_state f pq g q it.node_id it)
              v
              t
      reached v t h = elim (Bool-cases (it.node_id == v)) [
        | inr other ↦ absurd (ground arith)
        | inl hit ↦
            let here = (==_iff it.node_id v).0 hit in
            record {
              way = [];
              chain = sym here;
              time = ground arith;
              short = omega arith;
              known = rw (← here) known;
            }
      ]

  finish-Ends :
      (start goal n : ℕ) (b : Bidir f)
      → BidirInv pq g q start goal n b
      → BidirEnds start goal (finish f pq g q (suc n) start goal b)
  unfolding finish
  finish-Ends start goal n b i = elim (Option-cases b.best.meeting_node) [
    | inl nowhere ↦ rw (nowhere, finish) tt
    | inr (m, at_m) ↦
        rw (at_m, finish)
          (if_cases (BidirEnds start goal)
            (le_float f f.max_float64 b.best.mu && le_float f b.best.mu f.max_float64) (λ _. tt)
            λ _.
              let (x, y, sx, sy, up, down) = i.met m at_m in
              let rf = i.fwd.reached m x sx in
              let rb = i.bwd.reached m y sy in
              let (p, built, path) =
                build_bidir_path-lem g (open_goal q goal) pq q (suc n) start goal m b rf.way rb.way
                  rf.chain rb.chain (omega (arith, rf.short)) (omega (arith, rb.short))
                  (rw (rf.time, rb.time) at up) (rw (rf.time, rb.time) at down) in
              rw built path)
  ]

  module _ (ordered : IsOrdered f) (start goal : ℕ) (start_node goal_node : Node f)
      (rev : ℕ → List ℕ) (keys : HasIds pq g q) where
    round-Advances :
        (n : ℕ) (b : Bidir f)
        → BidirInv pq g q start goal n b
        → (no_items f b.fwd.queue && no_items f b.bwd.queue) ≡ false
        → Advances pq g q start goal n rev b (
            if is_forward f b
            then forward_step f pq g q goal_node b
            else backward_step f pq g q rev start_node b)
    round-Advances n b i some_left = elim (Bool-cases (is_forward f b)) [
      | inl forth ↦ rw forth (
          forward_step-lem ordered pq g q start goal rev n goal_node keys b
            (no_items-false b.fwd.queue (ground arith)) i)
      | inr back ↦ rw back (
          backward_step-lem ordered pq g q goal rev start n start_node keys b
            (no_items-false b.bwd.queue (ground arith)) i)
    ]

    bidir_loop-Ends :
        (fuel n : ℕ) (b : Bidir f)
        → pending pq g q rev b < fuel
        → BidirInv pq g q start goal n b
        → BidirEnds start goal (bidir_loop f pq g q fuel n rev start start_node goal goal_node b)
    unfolding bidir_loop
    bidir_loop-Ends zero n b enough i = absurd (omega arith)
    bidir_loop-Ends (suc fuel) n b enough i =
        if_cases (BidirEnds start goal) (no_items f b.fwd.queue && no_items f b.bwd.queue)
          (λ _. finish-Ends start goal n b i)
          λ some_left.
            if_cases (BidirEnds start goal) (suc n % 4096 == 0 && q.done (suc n)) (λ _. tt)
              λ _.
                if_cases (BidirEnds start goal) (cannot_improve f b)
                  (λ _. finish-Ends start goal n b i)
                  λ _.
                    let step = round-Advances n b i some_left in
                    bidir_loop-Ends fuel (suc n) _ (omega (arith, step.less)) step.inv

  IsRoute-open :
      (goal u v : ℕ) (es : List (Edge f)) → IsRoute g q u v es → IsRoute g (open_goal q goal) u v es
  IsRoute-open goal u v [] r = r
  IsRoute-open goal u v (e ∷ es) (usable, r) = (
    record {
      of_graph = usable.of_graph;
      passes = usable.passes;
      node_open = open_goal-open q goal e.to usable.node_open;
      edge_open = usable.edge_open;
      ends = usable.ends;
    },
    IsRoute-open goal e.to v es r,
  )

  Ends-Bidir :
      (ordered : IsOrdered f) (start goal : ℕ) (r : Found (PathResult f))
      → Ends pq g q start goal r
      → BidirEnds start goal r
  Ends-Bidir ordered start goal (found p) path =
      let sum = total g q (travel_time g q) f.zero p.edges in
      let same : f.add sum f.zero ≡ p.time_hours = ordered.add_zero sum ∙ sym path.time in
      record {
        route = IsRoute-open goal start goal p.edges path.route;
        nodes = path.nodes;
        before = p.edges;
        after = [];
        parts = sym (append-nil p.edges);
        time_up = ap (f.lt p.time_hours) same ∙ ordered.lt_irrefl p.time_hours;
        time_down = ap (λ x. f.lt x p.time_hours) same ∙ ordered.lt_irrefl p.time_hours;
      }
  Ends-Bidir ordered start goal (failed e) path = tt
  Ends-Bidir ordered start goal out_of_fuel path = path

  search_both-Ends :
      (ordered : IsOrdered f) (start goal : ℕ) (rev : ℕ → List ℕ)
      → HasIds pq g q
      → BidirEnds start goal (search_both f pq g q (both_fuel f pq g q rev) rev start goal)
  unfolding search_both
  search_both-Ends ordered start goal rev keys = elim (Option-cases (g.nodes start)) [
    | inl missing ↦ rw (search_both, missing) tt
    | inr (n, there) ↦ elim (Option-cases (g.nodes goal)) [
      | inl missing ↦ rw (search_both, there, missing) tt
      | inr (m, goal_there) ↦
          rw (search_both, there, goal_there)
            (if_cases (BidirEnds start goal) (start == goal)
              (λ same. record {
                route = (==_iff start goal).0 same;
                nodes = rw there refl;
                before = [];
                after = [];
                parts = refl;
                time_up = ap (f.lt f.zero) (ordered.add_zero f.zero) ∙ ordered.lt_irrefl f.zero;
                time_down =
                    ap (λ x. f.lt x f.zero) (ordered.add_zero f.zero) ∙ ordered.lt_irrefl f.zero;
              })
              (λ other.
                bidir_loop-Ends ordered start goal n m rev keys (both_fuel f pq g q rev) 0 _
                  (omega (arith, pq.push_length _ [], pq.push_length _ []))
                  (record {
                    fwd =
                        start-Side (ForwardLink g (open_goal q goal))
                          (ForwardKnown g (open_goal q goal)) _ ordered refl (keys start n there);
                    bwd =
                        start-Side (BackwardLink g (open_goal q goal))
                          (BackwardKnown g (open_goal q goal)) _ ordered refl
                          (keys goal m goal_there, open_goal-goal q goal, (m, goal_there));
                    met = λ v h. absurd cc;
                  })))
    ]
  ]

  -- With every key of the map of nodes in `ids`, the fuel of the model is enough: the search from
  -- both ends ends by itself, and a path that it returns leads from the start to the goal over edges
  -- of the graph that the profile lets pass and that are not blocked, nor are the nodes that they
  -- lead to, except that the goal may be; its nodes are those on the way, and its time is that of a
  -- first part of the path, summed from the start on, and that of the rest, summed from the goal
  -- back, up to values that compare as equal. On a graph without reverse adjacency this is so of
  -- the search from the start alone.
  pub bi_a_star-Ends :
      (ordered : IsOrdered f) (start goal : ℕ)
      → HasIds pq g q
      → BidirEnds start goal (bi_a_star f pq g q (bidir_fuel f pq g q) start goal)
  unfolding bi_a_star
  bi_a_star-Ends ordered start goal keys =
      if_cases (BidirEnds start goal) (q.done 0) (λ _. tt) (λ _. on _ g.rev_adj refl)
    where
      on :
          (fuel : ℕ) (o : Option (ℕ → List ℕ))
          → fuel ≡ fuel_by f pq g q o
          → BidirEnds start goal (elim o [
            | none ↦ a_star f pq g q fuel start goal
            | some rev ↦ search_both f pq g q fuel rev start goal
          ])
      on fuel none enough =
          rw enough (Ends-Bidir ordered start goal _ (a_star-Ends pq g q start goal keys))
      on fuel (some rev) enough = rw enough (search_both-Ends ordered start goal rev keys)

  -- No path starts at a node that is missing.
  pub bi_a_star-IsFailed :
      (fuel start goal : ℕ)
      → g.nodes start ≡ none
      → IsFailed pq g q (bi_a_star f pq g q fuel start goal)
  unfolding bi_a_star search_both
  bi_a_star-IsFailed fuel start goal missing =
      if_cases (IsFailed pq g q) (q.done 0) (λ _. tt) (λ _. on g.rev_adj)
    where
      on :
          (o : Option (ℕ → List ℕ))
          → IsFailed pq g q (elim o [
            | none ↦ a_star f pq g q fuel start goal
            | some rev ↦ search_both f pq g q fuel rev start goal
          ])
      on none = a_star-IsFailed pq g q fuel start goal missing
      on (some rev) = rw (missing, search_both) tt
