-- ===== src/Routing/AStar/Improve.antt =====
-- Without a heuristic: relaxing the edges of a node keeps the scores, the settled nodes and the
-- queue in agreement.
use mathlib.Core.Path.{subst}
use geo.Base.{
  ℕ, ◌≡◌, refl, sym, ap, ◌∙◌, ◌⊎◌, inl, inr, List, Option, some, true, false, ◌==◌, In, arith,
  Bool-cases, ==_iff, ==_self, from_some, ◌∷◌, [],
}
use geo.Base.Float.{Float, IsOrdered}
use geo.Routing.Graph.{Node, Edge, Graph, update}
use geo.Routing.Heap.{Item, PriorityQueue}
use geo.Routing.AStar.{Query, Search, heuristic_hours, improves, improve, relax, relax_all}
use geo.Routing.AStar.Walk.{Usable, travel_time}
use geo.Routing.AStar.Relax.{kept, tent, Relaxed, improved, relax_cases}
use geo.Routing.AStar.Front.{
  ScoredBy, ScoredBy-update, no_heuristic, tent_lem, relax-ScoredBy, Busy,
}

module _ {f : Float} (ordered : IsOrdered f) (pq : PriorityQueue f) (g : Graph f) (q : Query f)
    (exact : f.lt f.zero q.heuristic_speed_kmh ≡ false)
    (nonneg : (u : ℕ) (e : Edge f) → Usable g q u e → f.lt (travel_time g q e) f.zero ≡ false) where
  module _ (start cur : ℕ) (tc : f.F) (goal : Node f) (left : List (Edge f)) where
    improve-Busy :
        (nb : Node f) (e : Edge f) (s : Search f)
        → Busy ordered pq g q exact nonneg start cur tc left s
        → Usable g q cur e
        → s.closed e.to ≡ false
        → improves f (tent pq g q cur e s) (s.time_score e.to) ≡ true
        → Busy ordered pq g q exact nonneg start cur tc left
            (improve f pq g q goal nb cur e (tent pq g q cur e s) s)
    improve-Busy nb e s b usable fresh better = record {
      front = record {
        heap = unfold improve in pq.heap_push _ s.queue b.front.heap;
        started =
            unfold improve in
            ScoredBy-update ordered pq g q exact nonneg s.time_score e.to start
              (tent pq g q cur e s) f.zero better b.front.started;
        scored = unfold improve in scored;
        settled = unfold improve in settled;
        waiting = unfold improve in waiting;
        past = unfold improve in past;
        lower = unfold improve in lower;
        relaxed = unfold improve in relaxed;
      };
      score = unfold improve in rw (apart cur b.cur_closed) b.score;
      cur_closed = unfold improve in b.cur_closed;
      top = unfold improve in λ v t shut sc. b.top v t shut (rw (apart v shut) at sc);
    }
      where
        t' : f.F
        t' = tent pq g q cur e s

        new : Item f
        new = record {
          node_id = e.to;
          g_cost = t';
          f_cost = f.add t' (heuristic_hours f q goal nb);
        }

        key : new.f_cost ≡ t'
        key = no_heuristic ordered pq g q exact nonneg goal nb t'

        above : f.lt t' tc ≡ false
        above =
            ap (λ x. f.lt x tc) (tent_lem ordered pq g q exact nonneg cur tc e s b.score)
            ∙ ordered.le-add tc (travel_time g q e) (nonneg cur e usable)

        apart : (v : ℕ) → s.closed v ≡ true → (e.to == v) ≡ false
        apart v shut = ground arith

        after : ℕ → Option f.F
        after = update s.time_score e.to (some t')

        scored :
            (it : Item f) → In it (pq.push new s.queue) → (t : f.F) × (after it.node_id ≡ some t)
        scored it h = elim (Bool-cases (e.to == it.node_id)) [
          | inl hit ↦ (t', rw hit refl)
          | inr other ↦ elim (pq.push_in new it s.queue h) [
            | inl same ↦
                subst (λ (y : Item f). (t : f.F) × (after y.node_id ≡ some t)) same
                  (t', rw (==_self e.to) refl)
            | inr old ↦ let (t, sc) = b.front.scored it old in (t, rw other sc)
          ]
        ]

        settled : (v : ℕ) → s.closed v ≡ true → (t : f.F) × (after v ≡ some t)
        settled v shut = let (t, sc) = b.front.settled v shut in (t, rw (apart v shut) sc)

        waiting :
            (v : ℕ) (t : f.F)
            → after v ≡ some t
            → s.closed v ≡ false
            → (it : Item f) × In it (pq.push new s.queue)
              × (it.node_id ≡ v)
              × (it.g_cost ≡ t)
              × (it.f_cost ≡ t)
        waiting v t sc open_v = elim (Bool-cases (e.to == v)) [
          | inl hit ↦
              let here : t' ≡ t = from_some (rw hit at sc) in
              (new, pq.in_push new new s.queue (inl refl), (==_iff e.to v).0 hit, here, key ∙ here)
          | inr other ↦
              let (it, place, node, by_g, by_f) = b.front.waiting v t (rw other at sc) open_v in
              (it, pq.in_push new it s.queue (inr place), node, by_g, by_f)
        ]

        past :
            (v : ℕ) (t : f.F) (it : Item f)
            → s.closed v ≡ true
            → after v ≡ some t
            → In it (pq.push new s.queue)
            → f.lt it.f_cost t ≡ false
        past v t it shut sc h =
            let before = rw (apart v shut) at sc in
            elim (pq.push_in new it s.queue h) [
              | inl same ↦
                  subst (λ (y : Item f). f.lt y.f_cost t ≡ false) same
                    (ap (λ k. f.lt k t) key
                      ∙ ordered.le_trans t tc t' (b.top v t shut before) above)
              | inr old ↦ b.front.past v t it shut before old
            ]

        lower :
            (it : Item f) (t : f.F)
            → In it (pq.push new s.queue)
            → after it.node_id ≡ some t
            → f.lt it.f_cost t ≡ false
        lower it t h sc = elim (pq.push_in new it s.queue h) [
          | inl same ↦
              subst (λ (y : Item f). after y.node_id ≡ some t → f.lt y.f_cost t ≡ false) same
                (λ sc'.
                  ap (λ k. f.lt k t) (key ∙ from_some (rw (==_self e.to) at sc'))
                  ∙ ordered.lt_irrefl t)
                sc
          | inr old ↦ elim (Bool-cases (e.to == it.node_id)) [
            | inl hit ↦
                let (prev, before) = b.front.scored it old in
                let closer : f.lt t' prev ≡ true =
                  sym
                    (ap (improves f t') (ap s.time_score ((==_iff e.to it.node_id).0 hit) ∙ before))
                  ∙ better in
                subst (λ x. f.lt it.f_cost x ≡ false) (from_some (rw hit at sc))
                  (ordered.le_trans t' prev it.f_cost (ordered.le_of_lt t' prev closer)
                    (b.front.lower it prev old before))
            | inr other ↦ b.front.lower it t old (rw other at sc)
          ]
        ]

        relaxed :
            (u : ℕ) (d : Edge f) (t : f.F)
            → s.closed u ≡ true
            → Usable g q u d
            → after u ≡ some t
            → ScoredBy f after d.to (f.add t (travel_time g q d)) ⊎ ((u ≡ cur) × In d left)
        relaxed u d t shut may sc =
            elim (b.front.relaxed u d t shut may (rw (apart u shut) at sc)) [
              | inl by ↦ inl (
                  ScoredBy-update ordered pq g q exact nonneg s.time_score e.to d.to t' _ better by)
              | inr todo ↦ inr todo
            ]

    relax-Busy :
        (e : Edge f) (s : Search f)
        → In e (g.edges cur)
        → Busy ordered pq g q exact nonneg start cur tc left s
        → Busy ordered pq g q exact nonneg start cur tc left (relax f pq g q goal cur e s)
    relax-Busy e s member b = go (relax_cases pq g q goal cur e s)
      where
        go :
            {t : Search f}
            → Relaxed pq g q goal cur e s t
            → Busy ordered pq g q exact nonneg start cur tc left t
        go kept = b
        go (improved nb there fresh node_open edge_open passes better) =
            improve-Busy nb e s b
              (record {
                of_graph = member;
                passes = passes;
                node_open = node_open;
                edge_open = edge_open;
                ends = (nb, there);
              })
              fresh better

  module _ (start cur : ℕ) (tc : f.F) (goal : Node f) where
    -- An edge that is relaxed is left no more.
    done-Busy :
        (e : Edge f) (left : List (Edge f)) (s : Search f)
        → (Usable g q cur e → ScoredBy f s.time_score e.to (f.add tc (travel_time g q e)))
        → Busy ordered pq g q exact nonneg start cur tc (e ∷ left) s
        → Busy ordered pq g q exact nonneg start cur tc left s
    done-Busy e left s bound b = record {
      front = record {
        heap = b.front.heap;
        started = b.front.started;
        scored = b.front.scored;
        settled = b.front.settled;
        waiting = b.front.waiting;
        past = b.front.past;
        lower = b.front.lower;
        relaxed = relaxed;
      };
      score = b.score;
      cur_closed = b.cur_closed;
      top = b.top;
    }
      where
        relaxed :
            (u : ℕ) (d : Edge f) (t : f.F)
            → s.closed u ≡ true
            → Usable g q u d
            → s.time_score u ≡ some t
            → ScoredBy f s.time_score d.to (f.add t (travel_time g q d)) ⊎ ((u ≡ cur) × In d left)
        relaxed u d t shut may sc = elim (b.front.relaxed u d t shut may sc) [
          | inl by ↦ inl by
          | inr (at_cur, place) ↦ elim place [
            | inr later ↦ inr (at_cur, later)
            | inl same ↦ inl (
                subst (λ x. ScoredBy f s.time_score d.to (f.add x (travel_time g q d)))
                  (from_some (sym b.score ∙ ap s.time_score (sym at_cur) ∙ sc))
                  (subst
                    (λ x.
                      Usable g q cur x
                      → ScoredBy f s.time_score x.to (f.add tc (travel_time g q x)))
                    same bound (subst (λ v. Usable g q v d) at_cur may)))
          ]
        ]

    pub relax_all-Busy :
        (es : List (Edge f)) (s : Search f)
        → ((e : Edge f) → In e es → In e (g.edges cur))
        → Busy ordered pq g q exact nonneg start cur tc es s
        → Busy ordered pq g q exact nonneg start cur tc [] (relax_all f pq g q goal cur es s)
    unfolding relax_all
    relax_all-Busy [] s members b = b
    relax_all-Busy (e ∷ es) s members b =
        relax_all-Busy es (relax f pq g q goal cur e s) (λ d h. members d (inr h))
          (done-Busy e es _
            (λ usable.
              relax-ScoredBy ordered pq g q exact nonneg goal start cur tc e (e ∷ es) s b usable)
            (relax-Busy start cur tc goal (e ∷ es) e s (members e (inl refl)) b))
