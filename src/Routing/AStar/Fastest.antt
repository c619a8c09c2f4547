-- ===== src/Routing/AStar/Fastest.antt =====
-- The path that a search without a heuristic returns is a fastest one.
use mathlib.Core.Path.{subst}
use mathlib.Core.Bool.{false≢true}
use geo.Base.{
  ℕ, zero, suc, ◌%◌, ◌≡◌, refl, sym, ap, ◌∙◌, inl, inr, List, [], ◌∷◌, some, false, ◌&&◌, ◌==◌, In,
  arith, Bool-cases, Option-cases, if_cases, ==_iff,
}
use geo.Base.Float.{Float, IsOrdered}
use geo.Routing.Graph.{Node, Edge, Graph}
use geo.Routing.Heap.{Item, PriorityQueue}
use geo.Routing.AStar.{
  heuristic_hours, Query, Search, Found, found, failed, no_path, PathResult, settle, is_stale,
  build_path, backtrack, search_loop, a_star, search_fuel,
}
use geo.Routing.AStar.Walk.{Usable, travel_time, IsRoute, total}
use geo.Routing.AStar.Front.{ScoredBy, ScoredBy-trans}
use geo.Routing.AStar.Ends.{relax_all-closed, HasIds, Ends, a_star-Ends}
use geo.Routing.AStar.Improve.{relax_all-Busy}
use geo.Routing.AStar.Rounds.{Idle, skip-Idle, settle-Busy, no_key, start-Idle}

module _ {f : Float} (ordered : IsOrdered f) (pq : PriorityQueue f) (g : Graph f) (q : Query f)
    (exact : f.lt f.zero q.heuristic_speed_kmh ≡ false)
    (nonneg : (u : ℕ) (e : Edge f) → Usable g q u e → f.lt (travel_time g q e) f.zero ≡ false) where
  -- The sums along a route do not fall.
  total-le :
      (u v : ℕ) (acc : f.F) (es : List (Edge f))
      → IsRoute g q u v es
      → f.lt (total g q (travel_time g q) acc es) acc ≡ false
  total-le u v acc [] r = ordered.lt_irrefl acc
  total-le u v acc (e ∷ es) (usable, r) =
      ordered.le_trans acc (f.add acc (travel_time g q e)) _
        (ordered.le-add acc (travel_time g q e) (nonneg u e usable))
        (total-le e.to v (f.add acc (travel_time g q e)) es r)

  waiting_lem :
      (start cur goal : ℕ) (s : Search f)
      → Idle ordered pq g q exact nonneg start cur s
      → (u : ℕ) (a acc : f.F) (es : List (Edge f)) → s.time_score u ≡ some a
      → f.lt acc a ≡ false
      → s.closed u ≡ false
      → IsRoute g q u goal es
      → (it : Item f) × In it s.queue
        × (f.lt (total g q (travel_time g q) acc es) it.f_cost ≡ false)
  waiting_lem start cur goal s front u a acc es sc le waits r =
      let (it, place, node, by_g, by_f) = front.waiting u a sc waits in
      (
        it,
        place,
        ap (f.lt (total g q (travel_time g q) acc es)) by_f
            ∙ ordered.le_trans a acc _ le (total-le u goal acc es r),
      )

  -- A route to a node that is not settled leads through one that waits in the queue, with a key
  -- that is at most the time of the route.
  frontier_lem :
      (start cur goal : ℕ) (s : Search f)
      → Idle ordered pq g q exact nonneg start cur s
      → s.closed goal ≡ false
      → (u : ℕ) (acc : f.F) (es : List (Edge f)) → ScoredBy f s.time_score u acc
      → IsRoute g q u goal es
      → (it : Item f) × In it s.queue
        × (f.lt (total g q (travel_time g q) acc es) it.f_cost ≡ false)
  frontier_lem start cur goal s front fresh u acc [] (a, sc, le) r =
      elim (Bool-cases (s.closed u)) [
        | inr waits ↦ waiting_lem start cur goal s front u a acc [] sc le waits r
        | inl shut ↦ absurd (false≢true (sym fresh ∙ ap s.closed (sym r) ∙ shut))
      ]
  frontier_lem start cur goal s front fresh u acc (e ∷ es) (a, sc, le) r =
      elim (Bool-cases (s.closed u)) [
        | inr waits ↦ waiting_lem start cur goal s front u a acc (e ∷ es) sc le waits r
        | inl shut ↦ elim (front.relaxed u e a shut r.0 sc) [
          | inr (at_cur, none_left) ↦ absurd none_left
          | inl by ↦
              frontier_lem start cur goal s front fresh e.to (f.add acc (travel_time g q e)) es
                (ScoredBy-trans ordered pq g q exact nonneg s.time_score e.to _ _
                  (ordered.add_mono a acc (travel_time g q e) le) by)
                r.1
        ]
      ]

  -- No route to the goal takes less time than the path that was found, and there is no route at all
  -- where the search says so.
  abbrev pub IsFastest : ℕ → ℕ → Found (PathResult f) → Type 0
  IsFastest start goal (found p) =
      (es : List (Edge f))
      → IsRoute g q start goal es
      → f.lt (total g q (travel_time g q) f.zero es) p.time_hours ≡ false
  IsFastest start goal (failed no_path) = (es : List (Edge f)) → IsRoute g q start goal es → ⊥
  IsFastest start goal _ = Unit

  build_path-IsFastest :
      (start goal n : ℕ) (s : Search f) (t : f.F)
      → s.time_score goal ≡ some t
      → ((es : List (Edge f))
          → IsRoute g q start goal es
          → f.lt (total g q (travel_time g q) f.zero es) t ≡ false)
      → IsFastest start goal (build_path f pq g q n goal s)
  unfolding build_path
  build_path-IsFastest start goal n s t sc least =
      elim (Option-cases (backtrack f n s.came_from goal (goal ∷ []) [])) [
        | inl stuck ↦ rw (stuck, build_path) tt
        | inr ((ids, edges), back) ↦ rw (back, build_path, sc) least
      ]

  search_loop-IsFastest :
      (start cur fuel n goal_id : ℕ) (goal : Node f) (s : Search f)
      → s.closed goal_id ≡ false
      → Idle ordered pq g q exact nonneg start cur s
      → IsFastest start goal_id (search_loop f pq g q fuel n goal_id goal s)
  unfolding search_loop
  search_loop-IsFastest start cur zero n goal_id goal s open_goal i = tt
  search_loop-IsFastest start cur (suc fuel) n goal_id goal s open_goal i =
      elim (Option-cases (pq.pop s.queue)) [
        | inl empty ↦
            rw (empty, search_loop)
              (λ es r.
                let (it, place, le) =
                  frontier_lem start cur goal_id s i open_goal start f.zero es i.started r in
                subst (In it) (pq.pop_none s.queue empty) place)
        | inr ((it, rest), popped) ↦
            let s' : Search f = record s { queue = rest } in
            rw (popped, search_loop)
              (if_cases (IsFastest start goal_id) (suc n % 4096 == 0 && q.done (suc n)) (λ _. tt)
                λ _.
                  if_cases (IsFastest start goal_id) (is_stale f pq g q it s')
                    (λ stale.
                      search_loop-IsFastest start cur fuel (suc n) goal_id goal s' open_goal
                        (skip-Idle ordered pq g q exact nonneg start cur s it rest popped stale i))
                    λ new.
                      let here = pq.pop_in it it s.queue rest popped (inl refl) in
                      let (t, sc) = i.scored it here in
                      if_cases (IsFastest start goal_id) (it.node_id == goal_id)
                        (λ hit.
                          build_path-IsFastest start goal_id (suc n) s' t
                            (ap s.time_score (sym ((==_iff it.node_id goal_id).0 hit)) ∙ sc)
                            (λ es r.
                              let (y, place, le) =
                                frontier_lem start cur goal_id s i open_goal start f.zero es
                                  i.started r in
                              ordered.le_trans t it.f_cost _ (i.lower it t here sc) (
                                ordered.le_trans it.f_cost y.f_cost _
                                  (pq.pop_least it y s.queue rest popped i.heap place) le)))
                        (λ other.
                          search_loop-IsFastest start it.node_id fuel (suc n) goal_id goal _
                            (rw
                              (relax_all-closed pq g q goal it.node_id (g.edges it.node_id)
                                (settle f pq g q it.node_id s'))
                              (rw other open_goal))
                            (relax_all-Busy ordered pq g q exact nonneg start it.node_id t goal
                              (g.edges it.node_id) _ (λ _ h. h)
                              (settle-Busy ordered pq g q exact nonneg start cur t s it rest popped
                                sc (unfold is_stale in ground arith) i)).front))
      ]

  -- Without a heuristic, when no usable edge has a negative travel time and `ids` has every key of
  -- the map of nodes, the search ends by itself. A path that it returns is one of the graph, and no
  -- route from the start to the goal takes less time; when it reports that there is no path, there
  -- is no route.
  pub a_star-IsFastest :
      (start goal : ℕ)
      → HasIds pq g q
      → Ends pq g q start goal (a_star f pq g q (search_fuel f pq g q) start goal)
        × IsFastest start goal (a_star f pq g q (search_fuel f pq g q) start goal)
  unfolding a_star
  a_star-IsFastest start goal keys = (
    a_star-Ends pq g q start goal keys,
    if_cases (IsFastest start goal) (q.done 0) (λ _. tt)
        λ _. elim (Option-cases (g.nodes start)) [
          | inl missing ↦ rw (missing, a_star) tt
          | inr (n, there) ↦ elim (Option-cases (g.nodes goal)) [
            | inl missing ↦ rw (there, a_star, missing) tt
            | inr (m, goal_there) ↦
                rw (there, a_star, goal_there)
                  (if_cases (IsFastest start goal) (start == goal)
                    (λ same es r. total-le start goal f.zero es r)
                    (λ other.
                      search_loop-IsFastest start start (search_fuel f pq g q) 0 goal m _ refl (
                        start-Idle ordered pq g q exact nonneg start
                          (record {
                            node_id = start;
                            g_cost = f.zero;
                            f_cost = heuristic_hours f q m n;
                          })
                          refl refl (no_key ordered pq g q exact nonneg m n))))
          ]
        ],
  )
