-- ===== src/Routing/Bidir/Forward.antt =====
-- A forward step keeps both sides' ways and the meeting, and takes an item from the queue.
use geo.Base.{
  ◌≢◌, ℕ, suc, ◌+◌, ◌≤◌, ◌≡◌, refl, inl, inr, List, [], ◌∷◌, some, Bool, false, In, Bool-cases,
  Option-cases, ==_self, arith, length,
}
use geo.Base.Float.{Float, IsOrdered}
use geo.Routing.Graph.{Node, Edge, Graph}
use geo.Routing.Heap.{Item, PriorityQueue}
use geo.Routing.AStar.{Query, Search, heuristic_hours, settle, is_stale}
use geo.Routing.AStar.Ends.{open_edges-settle}
use geo.Routing.AStar.Walk.{travel_time}
use geo.Routing.Meeting.{Bidir, forward_meet}
use geo.Routing.Bidir.{advance, forward_edge, forward_edges, forward_step}
use geo.Routing.Bidir.Side.{Open, Side-suc, popped-Side, Open-Side, settle-Open, advance-Open}
use geo.Routing.Bidir.Meet.{IsMet, IsMet-But, update-IsMetBut, forward_meet-IsMet, improves-lower}
use geo.Routing.Bidir.Inv.{BidirInv, Advances, is_stale-false}
use geo.Routing.Bidir.Cases.{
  ForwardLink, BackwardLink, Forwarded, stayed, moved, forward_cases, BackwardKnown, ForwardKnown,
  open_goal,
}

module _ {f : Float} (ordered : IsOrdered f) (pq : PriorityQueue f) (g : Graph f) (q : Query f)
    (start goal_id : ℕ) where
  -- While the edges out of `cur` are relaxed: the settled nodes are `shut`, the queue has at most
  -- `room` items, and the other side is as it was.
  record Going (n cur : ℕ) (tc : f.F) (shut : ℕ → Bool) (room : ℕ) (other : Search f) (b : Bidir f)
      : Type 0 where
    pub side :
        Open
          (ForwardLink g (open_goal q goal_id))
          start
          pq
          g
          q
          (travel_time g q)
          (ForwardKnown g (open_goal q goal_id))
          n
          cur
          tc
          b.fwd
    pub met : IsMet b.fwd.time_score b.bwd.time_score b.best
    pub shut_same : b.fwd.closed ≡ shut
    pub size : length b.fwd.queue ≤ room
    pub other_same : b.bwd ≡ other

  Going-room :
      (n cur : ℕ) (tc : f.F) (shut : ℕ → Bool) (room more : ℕ) (other : Search f) (b : Bidir f)
      → room ≤ more
      → Going n cur tc shut room other b
      → Going n cur tc shut more other b
  Going-room n cur tc shut room more other b le x = record {
    side = x.side;
    met = x.met;
    shut_same = x.shut_same;
    size = omega (arith, x.size);
    other_same = x.other_same;
  }

  module _ (n cur : ℕ) (tc : f.F) (shut : ℕ → Bool) (other : Search f) (goal : Node f)
      (keys : (v : ℕ) (m : Node f) → g.nodes v ≡ some m → In v g.ids) where
    forward_edge-Going :
        (room : ℕ) (e : Edge f) (b : Bidir f)
        → In e (g.edges cur)
        → Going n cur tc shut room other b
        → Going n cur tc shut (suc room) other (forward_edge f pq g q goal cur e b)
    forward_edge-Going room e b member x =
        go (forward_cases g q pq goal_id goal cur tc e b x.side.score member)
      where
        go :
            {c : Bidir f}
            → Forwarded g q pq goal_id goal cur tc e b c
            → Going n cur tc shut (suc room) other c
        go stayed = Going-room n cur tc shut room (suc room) other b (omega arith) x
        go (moved m there link fresh better) =
            let time = f.add tc (travel_time g q e) in
            let h = heuristic_hours f q goal m in
            let next = advance f pq g q e.to cur e time h b.fwd in
            let ahead = record b { fwd = next } in
            let score : next.time_score e.to ≡ some time =
              unfold advance in rw (==_self e.to) refl in
            let but =
              update-IsMetBut ordered e.to time b.fwd.time_score b.bwd.time_score b.best
                (improves-lower ordered time b.fwd.time_score e.to better) x.met in
            let (best, same, met) =
              forward_meet-IsMet ordered e.to time time ahead score (ordered.lt_irrefl time)
                (ordered.lt_irrefl time) (unfold advance in but) in
            rw same (record {
              side =
                  advance-Open (ForwardLink g (open_goal q goal_id)) start pq g q (travel_time g q)
                    (ForwardKnown g (open_goal q goal_id)) ordered n cur e.to tc e h b.fwd x.side
                    link (keys e.to m there) fresh better;
              met = met;
              shut_same = unfold advance in x.shut_same;
              size = unfold advance in omega (arith, x.size, pq.push_length _ b.fwd.queue);
              other_same = x.other_same;
            })

    forward_edges-Going :
        (room : ℕ) (es : List (Edge f)) (b : Bidir f)
        → ((e : Edge f) → In e es → In e (g.edges cur))
        → Going n cur tc shut room other b
        → Going n cur tc shut (length es + room) other (forward_edges f pq g q goal cur es b)
    unfolding forward_edges
    forward_edges-Going room [] b members x =
        Going-room n cur tc shut room (0 + room) other b (omega arith) x
    forward_edges-Going room (e ∷ es) b members x =
        Going-room n cur tc shut (length es + suc room) (suc (length es) + room) other _
          (omega arith)
          (forward_edges-Going (suc room) es (forward_edge f pq g q goal cur e b)
            (λ d h. members d (inr h)) (forward_edge-Going room e b (members e (inl refl)) x))

  module _ (rev : ℕ → List ℕ) (n : ℕ) (goal : Node f)
      (keys : (v : ℕ) (m : Node f) → g.nodes v ≡ some m → In v g.ids) where
    forward_expand-lem :
        (b : Bidir f) (it : Item f) (rest : List (Item f)) (tc : f.F)
        → BidirInv pq g q start goal_id n b
        → pq.pop b.fwd.queue ≡ some (it, rest)
        → b.fwd.time_score it.node_id ≡ some tc
        → f.lt it.g_cost tc ≡ false
        → f.lt tc it.g_cost ≡ false
        → b.fwd.closed it.node_id ≡ false
        → Advances pq g q start goal_id n rev b (
            forward_edges f pq g q goal it.node_id (g.edges it.node_id) (
              forward_meet f it.node_id it.g_cost
                (record b { fwd = settle f pq g q it.node_id (record b.fwd { queue = rest }) })))
    forward_expand-lem b it rest tc i popped score ge le fresh =
        let cur = it.node_id in
        let next = settle f pq g q cur (record b.fwd { queue = rest }) in
        let ahead = record b { fwd = next } in
        let (best, same, met) =
          forward_meet-IsMet ordered cur it.g_cost tc ahead score ge le
            (IsMet-But cur b.fwd.time_score b.bwd.time_score b.best i.met) in
        let settled =
          settle-Open (ForwardLink g (open_goal q goal_id)) start pq g q (travel_time g q)
            (ForwardKnown g (open_goal q goal_id)) n b.fwd it rest tc popped i.fwd score in
        let x =
          forward_edges-Going n cur tc next.closed b.bwd goal keys (length rest) (g.edges cur)
            (record ahead { best = best }) (λ e h. h)
            (record {
              side = settled;
              met = met;
              shut_same = refl;
              size = omega arith;
              other_same = refl;
            }) in
        rw same (record {
          inv = record {
            fwd =
                Open-Side (ForwardLink g (open_goal q goal_id)) start pq g q (travel_time g q)
                  (ForwardKnown g (open_goal q goal_id)) n cur tc _ x.side;
            bwd = rw x.other_same (
                Side-suc (BackwardLink g (open_goal q goal_id)) goal_id pq g q (travel_time g q)
                  (BackwardKnown g (open_goal q goal_id)) n b.bwd i.bwd);
            met = x.met;
          };
          less =
              rw (x.shut_same, x.other_same)
                (omega (
                  arith,
                  x.size,
                  pq.pop_length it b.fwd.queue rest popped,
                  open_edges-settle (λ v. length (g.edges v)) b.fwd.closed cur g.ids fresh
                      settled.from_cur.known,
                ));
        })

    -- A forward step from a queue with an item.
    pub forward_step-lem :
        (b : Bidir f)
        → b.fwd.queue ≢ []
        → BidirInv pq g q start goal_id n b
        → Advances pq g q start goal_id n rev b (forward_step f pq g q goal b)
    unfolding forward_step
    forward_step-lem b some_left i = elim (Option-cases (pq.pop b.fwd.queue)) [
      | inl empty ↦ absurd (some_left (pq.pop_none b.fwd.queue empty))
      | inr ((it, rest), popped) ↦
          elim (Bool-cases (is_stale f pq g q it (record b.fwd { queue = rest }))) [
            | inl stale ↦
                rw (popped, forward_step, stale)
                  (record {
                    inv = record {
                      fwd =
                          Side-suc (ForwardLink g (open_goal q goal_id)) start pq g q
                            (travel_time g q) (ForwardKnown g (open_goal q goal_id)) n _
                            (popped-Side (ForwardLink g (open_goal q goal_id)) start pq g q
                              (travel_time g q) (ForwardKnown g (open_goal q goal_id)) n b.fwd it
                              rest popped i.fwd);
                      bwd =
                          Side-suc (BackwardLink g (open_goal q goal_id)) goal_id pq g q
                            (travel_time g q) (BackwardKnown g (open_goal q goal_id)) n b.bwd i.bwd;
                      met = i.met;
                    };
                    less = omega (arith, pq.pop_length it b.fwd.queue rest popped);
                  })
            | inr new ↦
                let (tc, score, ge) =
                  i.fwd.queued it (pq.pop_in it it b.fwd.queue rest popped (inl refl)) in
                let (fresh, le) =
                  is_stale-false pq g q it (record b.fwd { queue = rest }) tc new score in
                rw (popped, forward_step, new)
                  (forward_expand-lem b it rest tc i popped score ge le fresh)
          ]
    ]
