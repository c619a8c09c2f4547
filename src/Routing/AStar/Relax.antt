-- ===== src/Routing/AStar/Relax.antt =====
-- What one edge, and then all edges of a node, do to the maps of the search.
use mathlib.Core.Path.{subst}
use geo.Base.{
  value_or, ℕ, suc, ◌≤◌, ◌≡◌, refl, inl, inr, List, [], ◌∷◌, some, true, false, not, ◌||◌, ◌==◌,
  length, In, arith, Bool-cases, Option-cases, ==_iff, ==_self,
}
use geo.Base.Float.{Float}
use geo.Routing.Graph.{Node, Edge, Graph, update}
use geo.Routing.Heap.{Item, PriorityQueue}
use geo.Routing.AStar.{
  Query, Search, edge_passes, edge_travel_time_hours, heuristic_hours, improves, improve, relax,
  relax_all,
}
use geo.Routing.AStar.Walk.{Usable, Traced, total_back, travel_time, distance, Traced-update}

module _ {f : Float} (pq : PriorityQueue f) (g : Graph f) (q : Query f) where
  -- A node with the score `t` has a way back of at most `n` edges, and the scores are its sums.
  pub record Reached (start n : ℕ) (s : Search f) (v : ℕ) (t : f.F) : Type 0 where
    pub way : List (Edge f)
    pub traced : Traced g q s.came_from s.closed start v way
    pub time : t ≡ total_back g q (travel_time g q) way
    pub dist : s.dist_score v ≡ some (total_back g q (distance g q) way)
    pub short : length way ≤ n

  pub record Inv (start n : ℕ) (s : Search f) : Type 0 where
    pub reached : (v : ℕ) (t : f.F) → s.time_score v ≡ some t → Reached start n s v t
    pub queued : (it : Item f) → In it s.queue → (t : f.F) × (s.time_score it.node_id ≡ some t)

  -- While the edges of `cur` are relaxed.
  pub record Expanding (start n cur : ℕ) (tc : f.F) (s : Search f) : Type 0 where
    pub inv : Inv start (suc n) s
    pub score : s.time_score cur ≡ some tc
    pub from_cur : Reached start n s cur tc
    pub cur_closed : s.closed cur ≡ true
    pub start_closed : s.closed start ≡ true

  abbrev pub tent : ℕ → Edge f → Search f → f.F
  tent cur e s = f.add (value_or (s.time_score cur) f.zero) (edge_travel_time_hours f e q.speed_fn)

  -- An edge is passed over, or it improves the score of a node that is not settled.
  pub data Relaxed (goal : Node f) (cur : ℕ) (e : Edge f) (s : Search f) : Search f → Type 0 where
    kept : Relaxed goal cur e s s
    improved :
        (n : Node f)
        → g.nodes e.to ≡ some n
        → s.closed e.to ≡ false
        → q.blocked_nodes e.to ≡ false
        → q.blocked_edges cur e.to ≡ false
        → edge_passes f q e ≡ true
        → improves f (tent cur e s) (s.time_score e.to) ≡ true
        → Relaxed goal cur e s (
            improve f pq g q goal n cur e
              (f.add (value_or (s.time_score cur) f.zero) (edge_travel_time_hours f e q.speed_fn))
              s)

  pub relax_cases :
      (goal : Node f) (cur : ℕ) (e : Edge f) (s : Search f)
      → Relaxed goal cur e s (relax f pq g q goal cur e s)
  unfolding relax
  relax_cases goal cur e s =
      elim (Bool-cases (
        s.closed e.to
        || q.blocked_nodes e.to
        || q.blocked_edges cur e.to
        || not (edge_passes f q e))) [
          | inl skip ↦ rw skip kept
          | inr go ↦ elim (Option-cases (g.nodes e.to)) [
            | inl none_there ↦ rw (go, none_there, relax) kept
            | inr (n, there) ↦ elim (Bool-cases (improves f (tent cur e s) (s.time_score e.to))) [
              | inr worse ↦ rw (go, there, relax, worse) kept
              | inl better ↦
                  rw (go, there, relax, better)
                    (improved n there (ground arith) (ground arith) (ground arith) (ground arith)
                      better)
            ]
          ]
        ]

  module _ (start n cur : ℕ) (tc : f.F) (goal : Node f) where
    improve-Reached :
        (nb : Node f) (e : Edge f) (s : Search f)
        → Expanding start n cur tc s
        → Usable g q cur e
        → s.closed e.to ≡ false
        → (m v : ℕ) (t : f.F) → (e.to == v) ≡ false
        → Reached start m s v t
        → Reached start m (improve f pq g q goal nb cur e (tent cur e s) s) v t
    unfolding improve
    improve-Reached nb e s x usable fresh m v t other r = record {
      way = r.way;
      traced =
          Traced-update g q s.came_from s.closed start v e.to (cur, e) r.way fresh other r.traced;
      time = r.time;
      dist = rw other r.dist;
      short = r.short;
    }

    -- The node that the edge leads to has the way of `cur` and the edge.
    improve-to :
        (nb : Node f) (e : Edge f) (s : Search f)
        → Expanding start n cur tc s
        → Usable g q cur e
        → s.closed e.to ≡ false
        → (v : ℕ) → (e.to == v) ≡ true
        → Reached start (suc n) (improve f pq g q goal nb cur e (tent cur e s) s) v (tent cur e s)
    unfolding improve
    improve-to nb e s x usable fresh v hit = record {
      way = e ∷ x.from_cur.way;
      traced = (
        cur,
        rw hit refl,
        x.cur_closed,
        (==_iff e.to v).0 hit,
        usable,
        Traced-update g q s.came_from s.closed start cur e.to (cur, e) x.from_cur.way fresh
            (ground arith) x.from_cur.traced,
      );
      time = ground arith;
      dist = rw hit (ground arith);
      short = omega arith;
    }

    improve-Expanding :
        (nb : Node f) (e : Edge f) (s : Search f)
        → Expanding start n cur tc s
        → Usable g q cur e
        → s.closed e.to ≡ false
        → Expanding start n cur tc (improve f pq g q goal nb cur e (tent cur e s) s)
    improve-Expanding nb e s x usable fresh = record {
      inv = record { reached = reached; queued = unfold improve in queued };
      score = unfold improve in rw apart x.score;
      from_cur = improve-Reached nb e s x usable fresh n cur tc apart x.from_cur;
      cur_closed = unfold improve in x.cur_closed;
      start_closed = unfold improve in x.start_closed;
    }
      where
        next : Search f
        next = improve f pq g q goal nb cur e (tent cur e s) s

        apart : (e.to == cur) ≡ false
        apart = ground arith

        reached : (v : ℕ) (t : f.F) → next.time_score v ≡ some t → Reached start (suc n) next v t
        reached v t h = elim (Bool-cases (e.to == v)) [
          | inl hit ↦
              let held : some (tent cur e s) ≡ some t = unfold improve in (rw hit at h) in
              let same : tent cur e s ≡ t = cc in
              subst (λ t'. Reached start (suc n) next v t') same
                (improve-to nb e s x usable fresh v hit)
          | inr other ↦
              improve-Reached nb e s x usable fresh (suc n) v t other
                (x.inv.reached v t (unfold improve in (rw other at h)))
        ]

        scored :
            (v : ℕ) (t : f.F)
            → s.time_score v ≡ some t
            → (t' : f.F) × (update s.time_score e.to (some (tent cur e s)) v ≡ some t')
        scored v t h = elim (Bool-cases (e.to == v)) [
          | inl hit ↦ (tent cur e s, rw hit)
          | inr other ↦ (t, rw other h)
        ]

        queued :
            (it : Item f)
            → In it (
                pq.push
                  (record {
                    node_id = e.to;
                    g_cost = tent cur e s;
                    f_cost = f.add (tent cur e s) (heuristic_hours f q goal nb);
                  })
                  s.queue)
            → (t : f.F) × (update s.time_score e.to (some (tent cur e s)) it.node_id ≡ some t)
        queued it h = elim (pq.push_in _ it s.queue h) [
          | inl new ↦ (tent cur e s, rw (← new) (rw (==_self e.to)))
          | inr old ↦ let (t, sc) = x.inv.queued it old in scored it.node_id t sc
        ]

    relax-Expanding :
        (e : Edge f) (s : Search f)
        → In e (g.edges cur)
        → Expanding start n cur tc s
        → Expanding start n cur tc (relax f pq g q goal cur e s)
    relax-Expanding e s member x = go (relax_cases goal cur e s)
      where
        go : {t : Search f} → Relaxed goal cur e s t → Expanding start n cur tc t
        go kept = x
        go (improved nb there fresh node_open edge_open passes better) =
            improve-Expanding nb e s x
              (record {
                of_graph = member;
                passes = passes;
                node_open = node_open;
                edge_open = edge_open;
                ends = (nb, there);
              })
              fresh

    pub relax_all-Expanding :
        (es : List (Edge f)) (s : Search f)
        → ((e : Edge f) → In e es → In e (g.edges cur))
        → Expanding start n cur tc s
        → Expanding start n cur tc (relax_all f pq g q goal cur es s)
    unfolding relax_all
    relax_all-Expanding [] s members x = x
    relax_all-Expanding (e ∷ es) s members x =
        relax_all-Expanding es (relax f pq g q goal cur e s) (λ e' h. members e' (inr h))
          (relax-Expanding e s (members e (inl refl)) x)
