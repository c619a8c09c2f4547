-- ===== src/Routing/Bidir/Backward.antt =====
-- A backward step keeps both sides' ways and the meeting, and takes an item from the queue.
use geo.Base.{
  ◌≢◌, ℕ, suc, ◌+◌, ◌≤◌, ◌≡◌, refl, inl, inr, List, [], ◌∷◌, some, Bool, false, In, Bool-cases,
  Option-cases, ==_self, arith, length,
}
use geo.Base.Float.{Float, IsOrdered}
use geo.Routing.Graph.{Node, Graph}
use geo.Routing.Heap.{Item, PriorityQueue}
use geo.Routing.AStar.{Query, Search, heuristic_hours, settle, is_stale}
use geo.Routing.AStar.Ends.{open_edges-settle}
use geo.Routing.AStar.Walk.{travel_time}
use geo.Routing.Meeting.{Bidir, backward_meet}
use geo.Routing.Bidir.{advance, backward_edge, backward_edges, backward_step}
use geo.Routing.Bidir.Side.{Open, Side-suc, popped-Side, Open-Side, settle-Open, advance-Open}
use geo.Routing.Bidir.Meet.{
  IsMet, IsMet-swap, IsMet-But, update-IsMetBut, backward_meet-IsMet, IsMet-swap, improves-lower,
}
use geo.Routing.Bidir.Inv.{BidirInv, Advances, is_stale-false}
use geo.Routing.Bidir.Cases.{
  ForwardLink, BackwardLink, Backed, stayed, moved, backward_cases, BackwardKnown, ForwardKnown,
  open_goal, open_goal-open,
}

module _ {f : Float} (ordered : IsOrdered f) (pq : PriorityQueue f) (g : Graph f) (q : Query f)
    (goal : ℕ) where
  -- While the edges to `cur` are relaxed: the settled nodes are `shut`, the queue has at most
  -- `room` items, and the other side is as it was.
  record Going (n cur : ℕ) (tc : f.F) (shut : ℕ → Bool) (room : ℕ) (other : Search f) (b : Bidir f)
      : Type 0 where
    pub side :
        Open
          (BackwardLink g (open_goal q goal))
          goal
          pq
          g
          q
          (travel_time g q)
          (BackwardKnown g (open_goal q goal))
          n
          cur
          tc
          b.bwd
    pub met : IsMet b.fwd.time_score b.bwd.time_score b.best
    pub shut_same : b.bwd.closed ≡ shut
    pub size : length b.bwd.queue ≤ room
    pub other_same : b.fwd ≡ other

  Going-room :
      (n cur : ℕ) (tc : f.F) (shut : ℕ → Bool) (room more : ℕ) (other : Search f) (b : Bidir f)
      → room ≤ more
      → Going n cur tc shut room other b
      → Going n cur tc shut more other b
  Going-room n cur tc shut room more other b le x = record {
    side = x.side;
    met = x.met;
    shut_same = x.shut_same;
    size = omega (arith, x.size);
    other_same = x.other_same;
  }

  module _ (n cur : ℕ) (tc : f.F) (shut : ℕ → Bool) (other : Search f) (start : Node f)
      (keys : (v : ℕ) (m : Node f) → g.nodes v ≡ some m → In v g.ids) where
    backward_edge-Going :
        (room v : ℕ) (b : Bidir f)
        → Going n cur tc shut room other b
        → Going n cur tc shut (suc room) other (backward_edge f pq g q start cur v b)
    backward_edge-Going room v b x = go (
        backward_cases g q pq goal start (x.side.from_cur.known.2.0) cur tc v b x.side.score
          x.side.from_cur.known.2.1 x.side.from_cur.known.1)
      where
        go :
            {c : Bidir f}
            → Backed g q pq goal start cur tc v b c
            → Going n cur tc shut (suc room) other c
        go stayed = Going-room n cur tc shut room (suc room) other b (omega arith) x
        go (moved m e there node_open link fresh better) =
            let time = f.add tc (travel_time g q e) in
            let h = heuristic_hours f q start m in
            let next = advance f pq g q v cur e time h b.bwd in
            let ahead = record b { bwd = next } in
            let score : next.time_score v ≡ some time = unfold advance in rw (==_self v) refl in
            let but =
              update-IsMetBut ordered v time b.bwd.time_score b.fwd.time_score b.best
                (improves-lower ordered time b.bwd.time_score v better)
                (IsMet-swap ordered b.fwd.time_score b.bwd.time_score b.best x.met) in
            let (best, same, met) =
              backward_meet-IsMet ordered v time time ahead score (ordered.lt_irrefl time)
                (ordered.lt_irrefl time) (unfold advance in but) in
            rw same (record {
              side =
                  advance-Open (BackwardLink g (open_goal q goal)) goal pq g q (travel_time g q)
                    (BackwardKnown g (open_goal q goal)) ordered n cur v tc e h b.bwd x.side link
                    (keys v m there, open_goal-open q goal v node_open, (m, there)) fresh better;
              met = met;
              shut_same = unfold advance in x.shut_same;
              size = unfold advance in omega (arith, x.size, pq.push_length _ b.bwd.queue);
              other_same = x.other_same;
            })

    backward_edges-Going :
        (room : ℕ) (vs : List ℕ) (b : Bidir f)
        → Going n cur tc shut room other b
        → Going n cur tc shut (length vs + room) other (backward_edges f pq g q start cur vs b)
    unfolding backward_edges
    backward_edges-Going room [] b x =
        Going-room n cur tc shut room (0 + room) other b (omega arith) x
    backward_edges-Going room (v ∷ vs) b x =
        Going-room n cur tc shut (length vs + suc room) (suc (length vs) + room) other _
          (omega arith)
          (backward_edges-Going (suc room) vs (backward_edge f pq g q start cur v b)
            (backward_edge-Going room v b x))

  module _ (rev : ℕ → List ℕ) (start_id n : ℕ) (start : Node f)
      (keys : (v : ℕ) (m : Node f) → g.nodes v ≡ some m → In v g.ids) where
    backward_expand-lem :
        (b : Bidir f) (it : Item f) (rest : List (Item f)) (tc : f.F)
        → BidirInv pq g q start_id goal n b
        → pq.pop b.bwd.queue ≡ some (it, rest)
        → b.bwd.time_score it.node_id ≡ some tc
        → f.lt it.g_cost tc ≡ false
        → f.lt tc it.g_cost ≡ false
        → b.bwd.closed it.node_id ≡ false
        → Advances pq g q start_id goal n rev b (
            backward_edges f pq g q start it.node_id (rev it.node_id) (
              backward_meet f it.node_id it.g_cost
                (record b { bwd = settle f pq g q it.node_id (record b.bwd { queue = rest }) })))
    backward_expand-lem b it rest tc i popped score ge le fresh =
        let cur = it.node_id in
        let next = settle f pq g q cur (record b.bwd { queue = rest }) in
        let ahead = record b { bwd = next } in
        let (best, same, met) = backward_meet-IsMet ordered cur it.g_cost tc ahead score ge le (
          IsMet-But cur b.bwd.time_score b.fwd.time_score b.best
            (IsMet-swap ordered b.fwd.time_score b.bwd.time_score b.best i.met)) in
        let settled =
          settle-Open (BackwardLink g (open_goal q goal)) goal pq g q (travel_time g q)
            (BackwardKnown g (open_goal q goal)) n b.bwd it rest tc popped i.bwd score in
        let x =
          backward_edges-Going n cur tc next.closed b.fwd start keys (length rest) (rev cur)
            (record ahead { best = best })
            (record {
              side = settled;
              met = met;
              shut_same = refl;
              size = omega arith;
              other_same = refl;
            }) in
        rw same (record {
          inv = record {
            bwd =
                Open-Side (BackwardLink g (open_goal q goal)) goal pq g q (travel_time g q)
                  (BackwardKnown g (open_goal q goal)) n cur tc _ x.side;
            fwd = rw x.other_same (
                Side-suc (ForwardLink g (open_goal q goal)) start_id pq g q (travel_time g q)
                  (ForwardKnown g (open_goal q goal)) n b.fwd i.fwd);
            met = x.met;
          };
          less =
              rw (x.shut_same, x.other_same)
                (omega (
                  arith,
                  x.size,
                  pq.pop_length it b.bwd.queue rest popped,
                  open_edges-settle (λ v. length (rev v)) b.bwd.closed cur g.ids fresh
                      settled.from_cur.known.0,
                ));
        })

    -- A backward step from a queue with an item.
    pub backward_step-lem :
        (b : Bidir f)
        → b.bwd.queue ≢ []
        → BidirInv pq g q start_id goal n b
        → Advances pq g q start_id goal n rev b (backward_step f pq g q rev start b)
    unfolding backward_step
    backward_step-lem b some_left i = elim (Option-cases (pq.pop b.bwd.queue)) [
      | inl empty ↦ absurd (some_left (pq.pop_none b.bwd.queue empty))
      | inr ((it, rest), popped) ↦
          elim (Bool-cases (is_stale f pq g q it (record b.bwd { queue = rest }))) [
            | inl stale ↦
                rw (popped, backward_step, stale)
                  (record {
                    inv = record {
                      bwd =
                          Side-suc (BackwardLink g (open_goal q goal)) goal pq g q (travel_time g q)
                            (BackwardKnown g (open_goal q goal)) n _
                            (popped-Side (BackwardLink g (open_goal q goal)) goal pq g q
                              (travel_time g q) (BackwardKnown g (open_goal q goal)) n b.bwd it rest
                              popped i.bwd);
                      fwd =
                          Side-suc (ForwardLink g (open_goal q goal)) start_id pq g q
                            (travel_time g q) (ForwardKnown g (open_goal q goal)) n b.fwd i.fwd;
                      met = i.met;
                    };
                    less = omega (arith, pq.pop_length it b.bwd.queue rest popped);
                  })
            | inr new ↦
                let (tc, score, ge) =
                  i.bwd.queued it (pq.pop_in it it b.bwd.queue rest popped (inl refl)) in
                let (fresh, le) =
                  is_stale-false pq g q it (record b.bwd { queue = rest }) tc new score in
                rw (popped, backward_step, new)
                  (backward_expand-lem b it rest tc i popped score ge le fresh)
          ]
    ]
