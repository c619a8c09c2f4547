-- ===== src/Routing/Bidir/Inv.antt =====
-- The invariant of the search from both ends, and the measure of its loop.
use geo.Base.{suc, ◌<◌, ℕ, ◌+◌, List, length, ◌≡◌, false, some, arith}
use geo.Base.Float.{Float}
use geo.Routing.Graph.{Graph}
use geo.Routing.Heap.{PriorityQueue}
use geo.Routing.AStar.{Query, open_edges, is_stale, Search}
use geo.Routing.AStar.Walk.{travel_time}
use geo.Routing.Meeting.{Bidir}
use geo.Routing.Bidir.{Item}
use geo.Routing.Bidir.Side.{Side}
use geo.Routing.Bidir.Meet.{IsMet}
use geo.Routing.Bidir.Cases.{ForwardLink, BackwardLink, ForwardKnown, BackwardKnown, open_goal}

module _ {f : Float} (pq : PriorityQueue f) (g : Graph f) (q : Query f) where
  pub record BidirInv (start goal n : ℕ) (b : Bidir f) : Type 0 where
    pub fwd :
        Side
          (ForwardLink g (open_goal q goal))
          start
          pq
          g
          q
          (travel_time g q)
          (ForwardKnown g (open_goal q goal))
          n
          b.fwd
    pub bwd :
        Side
          (BackwardLink g (open_goal q goal))
          goal
          pq
          g
          q
          (travel_time g q)
          (BackwardKnown g (open_goal q goal))
          n
          b.bwd
    pub met : IsMet b.fwd.time_score b.bwd.time_score b.best

  -- What is in the queues and what can still come in.
  abbrev pub pending : (ℕ → List ℕ) → Bidir f → ℕ
  pending rev b =
      (length b.fwd.queue + open_edges (λ v. length (g.edges v)) b.fwd.closed g.ids)
      + (length b.bwd.queue + open_edges (λ v. length (rev v)) b.bwd.closed g.ids)

  -- From `b` a round leads to `c`, nearer to the end of the loop.
  pub record Advances (start goal n : ℕ) (rev : ℕ → List ℕ) (b c : Bidir f) : Type 0 where
    pub inv : BidirInv start goal (suc n) c
    pub less : pending rev c < pending rev b

  -- An item that is not stale is of a node that is not settled, and not above its score.
  pub is_stale-false :
      (it : Item f) (s : Search f) (t : f.F)
      → is_stale f pq g q it s ≡ false
      → s.time_score it.node_id ≡ some t
      → (s.closed it.node_id ≡ false) × (f.lt t it.g_cost ≡ false)
  unfolding is_stale
  is_stale-false it s t new score = let both = rw score at new in (ground arith, ground arith)
