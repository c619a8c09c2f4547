-- ===== src/Routing/AStar/Rounds.antt =====
-- Without a heuristic: the first state of a search, an item that is passed over, and a node that is
-- settled.
use mathlib.Core.Path.{subst}
use mathlib.Core.Bool.{false≢true}
use geo.Base.{
  ℕ, ◌≡◌, refl, sym, ap, ◌∙◌, ◌⊎◌, inl, inr, List, [], some, Bool, true, false, ◌==◌, In,
  Bool-cases, ==_iff, ==_self, from_some, if◌then◌else◌, none,
}
use geo.Base.Float.{Float, IsOrdered}
use geo.Routing.Graph.{Node, Edge, Graph, update}
use geo.Routing.Heap.{Item, PriorityQueue}
use geo.Routing.AStar.{heuristic_hours, Query, Search, settle, is_stale, start_state}
use geo.Routing.AStar.Walk.{Usable, travel_time}
use geo.Routing.AStar.Front.{ScoredBy, Front, Busy}

module _ {f : Float} (ordered : IsOrdered f) (pq : PriorityQueue f) (g : Graph f) (q : Query f)
    (exact : f.lt f.zero q.heuristic_speed_kmh ≡ false)
    (nonneg : (u : ℕ) (e : Edge f) → Usable g q u e → f.lt (travel_time g q e) f.zero ≡ false) where
  -- Between two rounds no edge is left to be relaxed.
  abbrev pub Idle : ℕ → ℕ → Search f → Type 0
  Idle start cur s = Front ordered pq g q exact nonneg start cur [] s

  -- Passing over an item that is stale.
  pub skip-Idle :
      (start cur : ℕ) (s : Search f) (it : Item f) (rest : List (Item f))
      → pq.pop s.queue ≡ some (it, rest)
      → is_stale f pq g q it (record s { queue = rest }) ≡ true
      → Idle start cur s
      → Idle start cur (record s { queue = rest })
  skip-Idle start cur s it rest e stale i = record {
    heap = pq.heap_pop it s.queue rest e i.heap;
    started = i.started;
    scored = λ y h. i.scored y (pq.pop_in it y s.queue rest e (inr h));
    settled = i.settled;
    waiting = waiting;
    past = λ v t y shut sc h. i.past v t y shut sc (pq.pop_in it y s.queue rest e (inr h));
    lower = λ y t h sc. i.lower y t (pq.pop_in it y s.queue rest e (inr h)) sc;
    relaxed = i.relaxed;
  }
    where
      current :
          (v : ℕ) (t : f.F)
          → s.time_score v ≡ some t
          → s.closed v ≡ false
          → it.node_id ≡ v
          → it.g_cost ≡ t
          → ⊥
      current v t sc fresh node by_g =
          let shut : s.closed it.node_id ≡ false = ap s.closed node ∙ fresh in
          let best : s.time_score it.node_id ≡ some t = ap s.time_score node ∙ sc in
          let worse : f.lt t it.g_cost ≡ true = unfold is_stale in rw (shut, best) at stale in
          false≢true (sym (ordered.lt_irrefl t) ∙ ap (f.lt t) (sym by_g) ∙ worse)

      waiting :
          (v : ℕ) (t : f.F)
          → s.time_score v ≡ some t
          → s.closed v ≡ false
          → (y : Item f) × In y rest × (y.node_id ≡ v) × (y.g_cost ≡ t) × (y.f_cost ≡ t)
      waiting v t sc fresh =
          let (y, place, node, by_g, by_f) = i.waiting v t sc fresh in
          elim (pq.in_pop it y s.queue rest e place) [
            | inr left ↦ (y, left, node, by_g, by_f)
            | inl same ↦ absurd (
                current v t sc fresh (ap (λ (x : Item f). x.node_id) same ∙ node)
                  (ap (λ (x : Item f). x.g_cost) same ∙ by_g))
          ]

  pub settle-Busy :
      (start cur : ℕ) (tc : f.F) (s : Search f) (it : Item f) (rest : List (Item f))
      → pq.pop s.queue ≡ some (it, rest)
      → s.time_score it.node_id ≡ some tc
      → s.closed it.node_id ≡ false
      → Idle start cur s
      → Busy ordered pq g q exact nonneg start it.node_id tc
          (g.edges it.node_id)
          (settle f pq g q it.node_id (record s { queue = rest }))
  settle-Busy start cur tc s it rest e score fresh i = record {
    front = record {
      heap = pq.heap_pop it s.queue rest e i.heap;
      started = i.started;
      scored = λ y h. i.scored y (before y h);
      settled = settled;
      waiting = waiting;
      past = past;
      lower = λ y t h sc. i.lower y t (before y h) sc;
      relaxed = relaxed;
    };
    score = score;
    cur_closed = rw (==_self it.node_id) refl;
    top = top;
  }
    where
      before : (y : Item f) → In y rest → In y s.queue
      before y h = pq.pop_in it y s.queue rest e (inr h)

      here : In it s.queue
      here = pq.pop_in it it s.queue rest e (inl refl)

      shut' : ℕ → Bool
      shut' = update s.closed it.node_id true

      settled : (v : ℕ) → shut' v ≡ true → (t : f.F) × (s.time_score v ≡ some t)
      settled v h = elim (Bool-cases (it.node_id == v)) [
        | inl hit ↦ (tc, ap s.time_score (sym ((==_iff it.node_id v).0 hit)) ∙ score)
        | inr other ↦ i.settled v (rw other at h)
      ]

      waiting :
          (v : ℕ) (t : f.F)
          → s.time_score v ≡ some t
          → shut' v ≡ false
          → (y : Item f) × In y rest × (y.node_id ≡ v) × (y.g_cost ≡ t) × (y.f_cost ≡ t)
      waiting v t sc h = elim (Bool-cases (it.node_id == v)) [
        | inl hit ↦ absurd (false≢true (sym (rw hit at h)))
        | inr other ↦
            let (y, place, node, by_g, by_f) = i.waiting v t sc (rw other at h) in
            elim (pq.in_pop it y s.queue rest e place) [
              | inr left ↦ (y, left, node, by_g, by_f)
              | inl same ↦ absurd (
                  false≢true (
                    sym other
                    ∙ (==_iff it.node_id v).1 (ap (λ (x : Item f). x.node_id) same ∙ node)))
            ]
      ]

      past :
          (v : ℕ) (t : f.F) (y : Item f)
          → shut' v ≡ true
          → s.time_score v ≡ some t
          → In y rest
          → f.lt y.f_cost t ≡ false
      past v t y h sc place = elim (Bool-cases (it.node_id == v)) [
        | inl hit ↦
            ordered.le_trans t it.f_cost y.f_cost
              (i.lower it t here (ap s.time_score ((==_iff it.node_id v).0 hit) ∙ sc))
              (pq.pop_least it y s.queue rest e i.heap (before y place))
        | inr other ↦ i.past v t y (rw other at h) sc (before y place)
      ]

      relaxed :
          (u : ℕ) (d : Edge f) (t : f.F)
          → shut' u ≡ true
          → Usable g q u d
          → s.time_score u ≡ some t
          → ScoredBy f s.time_score d.to (f.add t (travel_time g q d))
            ⊎ ((u ≡ it.node_id) × In d (g.edges it.node_id))
      relaxed u d t h may sc = elim (Bool-cases (it.node_id == u)) [
        | inl hit ↦
            let same = sym ((==_iff it.node_id u).0 hit) in
            inr (same, subst (λ v. In d (g.edges v)) same may.of_graph)
        | inr other ↦ elim (i.relaxed u d t (rw other at h) may sc) [
          | inl by ↦ inl by
          | inr (at_cur, none_left) ↦ absurd none_left
        ]
      ]

      top : (v : ℕ) (t : f.F) → shut' v ≡ true → s.time_score v ≡ some t → f.lt tc t ≡ false
      top v t h sc = elim (Bool-cases (it.node_id == v)) [
        | inl hit ↦
            ap (λ x. f.lt tc x)
              (from_some (sym sc ∙ ap s.time_score (sym ((==_iff it.node_id v).0 hit)) ∙ score))
            ∙ ordered.lt_irrefl tc
        | inr other ↦
            let (z, place, node, by_g, by_f) = i.waiting it.node_id tc score fresh in
            ap (λ x. f.lt x t) (sym by_f) ∙ i.past v t z (rw other at h) sc place
      ]

  pub no_key : (goal n : Node f) → heuristic_hours f q goal n ≡ f.zero
  no_key goal n = unfold heuristic_hours in rw exact refl

  pub start-Idle :
      (start : ℕ) (it : Item f)
      → it.node_id ≡ start
      → it.g_cost ≡ f.zero
      → it.f_cost ≡ f.zero
      → Idle start start (start_state f pq g q start it)
  start-Idle start it node by_g by_f = record {
    heap = pq.heap_push it [] pq.heap_nil;
    started = (f.zero, rw (==_self start) refl, ordered.lt_irrefl f.zero);
    scored = λ y h. (f.zero, scored y (only y h));
    settled = λ v shut. absurd (false≢true shut);
    waiting = λ v t sc fresh. elim (Bool-cases (start == v)) [
      | inl hit ↦
          let zero_here : f.zero ≡ t = from_some (rw hit at sc) in
          (
            it,
            pq.in_push it it [] (inl refl),
            node ∙ (==_iff start v).0 hit,
            by_g ∙ zero_here,
            by_f ∙ zero_here,
          )
      | inr other ↦ absurd (let odd = rw other at sc in cc)
    ];
    past = λ v t y shut sc h. absurd (false≢true shut);
    lower = λ y t h sc.
        ap (λ x. f.lt x t) (sym (ap (λ (x : Item f). x.f_cost) (only y h)) ∙ by_f)
        ∙ ap (f.lt f.zero) (from_some (sym sc ∙ scored y (only y h)))
        ∙ ordered.lt_irrefl f.zero;
    relaxed = λ u e t shut may sc. absurd (false≢true shut);
  }
    where
      only : (y : Item f) → In y (pq.push it []) → it ≡ y
      only y h = elim (pq.push_in it y [] h) [ inl same ↦ same | inr none_else ↦ absurd none_else ]

      scored :
          (y : Item f) → it ≡ y → (if start == y.node_id then some f.zero else none) ≡ some f.zero
      scored y same =
          let at_start : y.node_id ≡ start = sym (ap (λ (x : Item f). x.node_id) same) ∙ node in
          rw at_start (rw (==_self start) refl)
