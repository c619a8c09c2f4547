-- ===== src/Routing/Bidir/Side.antt =====
-- One of the two searches: the ways that its maps keep, whichever way its edges are read. `Link u v
-- e` is an edge by which the search comes from `u` to `v`, `root` is the end it starts at, and `Known` holds of the nodes that it comes to.
use mathlib.Core.Path.{subst}
use geo.Base.{
  from_some, ℕ, suc, ◌≤◌, ◌≡◌, refl, ap, ◌∙◌, ◌⊎◌, inl, inr, List, [], ◌∷◌, Option, some, Bool,
  true, false, ◌==◌, length, In, arith, ==_iff, ==_self, Bool-cases,
}
use geo.Base.Float.{Float, IsOrdered}
use geo.Routing.Graph.{Edge, Graph, update}
use geo.Routing.Heap.{Item, PriorityQueue}
use geo.Routing.AStar.{Query, Search, settle, improves}
use geo.Routing.AStar.Walk.{total_back}
use geo.Routing.Bidir.{advance}

module _ {f : Float} (Link : ℕ → ℕ → Edge f → Type 0) (root : ℕ) where
  -- The way back from `v` to the root, through nodes that are settled.
  abbrev pub Chain : (ℕ → Option (ℕ × Edge f)) → (ℕ → Bool) → ℕ → List (Edge f) → Type 0
  Chain came closed v [] = v ≡ root
  Chain came closed v (e ∷ p) =
      ((v == root) ≡ false)
      × ((u : ℕ) × (came v ≡ some (u, e)) × (closed u ≡ true) × Link u v e × Chain came closed u p)

  pub Chain-update :
      (came : ℕ → Option (ℕ × Edge f)) (closed : ℕ → Bool) (v w : ℕ) (x : ℕ × Edge f)
      (p : List (Edge f))
      → closed w ≡ false
      → (w == v) ≡ false
      → Chain came closed v p
      → Chain (update came w (some x)) closed v p
  Chain-update came closed v w x [] fresh other h = h
  Chain-update came closed v w x (e ∷ p) fresh other (away, (u, back, settled, link, more)) =
      let apart : (w == u) ≡ false = ground arith in
      (away, (u, rw other back, settled, link, Chain-update came closed u w x p fresh apart more))

  pub Chain-settle :
      (came : ℕ → Option (ℕ × Edge f)) (closed : ℕ → Bool) (v w : ℕ) (p : List (Edge f))
      → Chain came closed v p
      → Chain came (update closed w true) v p
  Chain-settle came closed v w [] h = h
  Chain-settle came closed v w (e ∷ p) (away, (u, back, settled, link, more)) =
      (away, (u, back, ground arith, link, Chain-settle came closed u w p more))

  module _ (pq : PriorityQueue f) (g : Graph f) (q : Query f) (weight : Edge f → f.F)
      (Known : ℕ → Type 0) where
    -- A node with the score `t` has a way back of at most `n` edges, and its sum is the score.
    pub record Reached (n : ℕ) (s : Search f) (v : ℕ) (t : f.F) : Type 0 where
      pub way : List (Edge f)
      pub chain : Chain s.came_from s.closed v way
      pub time : t ≡ total_back g q weight way
      pub short : length way ≤ n
      pub known : Known v

    -- An item is of a node with a score, which it is not below.
    abbrev pub IsScored : Search f → Item f → Type 0
    IsScored s it = (t : f.F) × (s.time_score it.node_id ≡ some t) × (f.lt it.g_cost t ≡ false)

    -- The invariant of a side after `n` rounds of the search.
    pub record Side (n : ℕ) (s : Search f) : Type 0 where
      pub reached : (v : ℕ) (t : f.F) → s.time_score v ≡ some t → Reached n s v t
      pub queued : (it : Item f) → In it s.queue → IsScored s it
      pub started : (s.closed root ≡ true) ⊎ ((it : Item f) → In it s.queue → it.node_id ≡ root)

    -- While the edges at `cur` are relaxed.
    pub record Open (n cur : ℕ) (tc : f.F) (s : Search f) : Type 0 where
      pub reached : (v : ℕ) (t : f.F) → s.time_score v ≡ some t → Reached (suc n) s v t
      pub queued : (it : Item f) → In it s.queue → IsScored s it
      pub score : s.time_score cur ≡ some tc
      pub from_cur : Reached n s cur tc
      pub cur_closed : s.closed cur ≡ true
      pub root_closed : s.closed root ≡ true

    Reached-suc : (n : ℕ) (s : Search f) (v : ℕ) (t : f.F) → Reached n s v t → Reached (suc n) s v t
    Reached-suc n s v t r = record {
      way = r.way;
      chain = r.chain;
      time = r.time;
      short = omega arith;
      known = r.known;
    }

    pub Side-suc : (n : ℕ) (s : Search f) → Side n s → Side (suc n) s
    Side-suc n s i = record {
      reached = λ v t h. Reached-suc n s v t (i.reached v t h);
      queued = i.queued;
      started = i.started;
    }

    -- The queue loses the item that is popped.
    pub popped-Side :
        (n : ℕ) (s : Search f) (it : Item f) (rest : List (Item f))
        → pq.pop s.queue ≡ some (it, rest)
        → Side n s
        → Side n (record s { queue = rest })
    popped-Side n s it rest e i = record {
      reached = λ v t h.
          let r = i.reached v t h in
          record { way = r.way; chain = r.chain; time = r.time; short = r.short; known = r.known };
      queued = λ y h. i.queued y (pq.pop_in it y s.queue rest e (inr h));
      started = elim i.started [
        | inl done ↦ inl done
        | inr all ↦ inr (λ y h. all y (pq.pop_in it y s.queue rest e (inr h)))
      ];
    }

    pub Open-Side : (n cur : ℕ) (tc : f.F) (s : Search f) → Open n cur tc s → Side (suc n) s
    Open-Side n cur tc s x = record {
      reached = x.reached;
      queued = x.queued;
      started = inl x.root_closed;
    }

    -- The node of the popped item is settled.
    pub settle-Open :
        (n : ℕ) (s : Search f) (it : Item f) (rest : List (Item f)) (tc : f.F)
        → pq.pop s.queue ≡ some (it, rest)
        → Side n s
        → s.time_score it.node_id ≡ some tc
        → Open n it.node_id tc (settle f pq g q it.node_id (record s { queue = rest }))
    settle-Open n s it rest tc e i score = record {
      reached = λ v t h. Reached-suc n next v t (kept v t (i.reached v t h));
      queued = λ y h. i.queued y (pq.pop_in it y s.queue rest e (inr h));
      score = score;
      from_cur = kept it.node_id tc (i.reached it.node_id tc score);
      cur_closed = rw (==_self it.node_id);
      root_closed = elim i.started [
        | inl done ↦ ground arith
        | inr all ↦ rw (all it (pq.pop_in it it s.queue rest e (inl refl))) (rw (==_self root))
      ];
    }
      where
        next : Search f
        next = settle f pq g q it.node_id (record s { queue = rest })

        kept : (v : ℕ) (t : f.F) → Reached n s v t → Reached n next v t
        kept v t r = record {
          way = r.way;
          chain = Chain-settle s.came_from s.closed v it.node_id r.way r.chain;
          time = r.time;
          short = r.short;
          known = r.known;
        }

    module _ (ordered : IsOrdered f) (n cur v : ℕ) (tc : f.F) (e : Edge f) (h : f.F) (s : Search f)
        (x : Open n cur tc s) (link : Link cur v e) (known : Known v) (fresh : s.closed v ≡ false)
        (better : improves f (f.add tc (weight e)) (s.time_score v) ≡ true) where
      abbrev time : f.F
      time = f.add tc (weight e)

      abbrev pushed : Item f
      pushed = record { node_id = v; g_cost = time; f_cost = f.add time h }

      abbrev next : Search f
      next = advance f pq g q v cur e time h s

      apart : (v == cur) ≡ false
      apart = ground (arith, x.cur_closed, ap s.closed)

      advance-other : (m u : ℕ) (t : f.F) → (v == u) ≡ false → Reached m s u t → Reached m next u t
      unfolding advance
      advance-other m u t other r = record {
        way = r.way;
        chain = Chain-update s.came_from s.closed u v (cur, e) r.way fresh other r.chain;
        time = r.time;
        short = r.short;
        known = r.known;
      }

      advance-to : Reached (suc n) next v time
      unfolding advance
      advance-to = record {
        way = e ∷ x.from_cur.way;
        chain = (
          ground (arith, x.root_closed, ap s.closed),
          (
            cur,
            rw (==_self v) refl,
            x.cur_closed,
            link,
            Chain-update s.came_from s.closed cur v (cur, e) x.from_cur.way fresh apart
                x.from_cur.chain,
          ),
        );
        time = ap (λ t. f.add t (weight e)) x.from_cur.time;
        short = omega (arith, x.from_cur.short);
        known = known;
      }

      advance-IsScored : (y : Item f) → IsScored s y → IsScored next y
      unfolding advance
      advance-IsScored y (t, score, le) = elim (Bool-cases (v == y.node_id)) [
        | inr other ↦ (t, rw other score, le)
        | inl hit ↦
            let was : s.time_score v ≡ some t =
              ap s.time_score ((==_iff v y.node_id).0 hit) ∙ score in
            let less : f.lt time t ≡ true = rw was at better in
            (time, rw hit refl, ordered.le_trans time t y.g_cost (ordered.le_of_lt time t less) le)
      ]

      pub advance-Open : Open n cur tc next
      advance-Open = record {
        reached = reached;
        queued = queued;
        score = unfold advance in rw apart x.score;
        from_cur = advance-other n cur tc apart x.from_cur;
        cur_closed = unfold advance in x.cur_closed;
        root_closed = unfold advance in x.root_closed;
      }
        where
          reached : (u : ℕ) (t : f.F) → next.time_score u ≡ some t → Reached (suc n) next u t
          reached u t held = elim (Bool-cases (v == u)) [
            | inr other ↦
                advance-other (suc n) u t other
                  (x.reached u t (unfold advance in (rw other at held)))
            | inl hit ↦
                let same : some time ≡ some t = unfold advance in (rw hit at held) in
                subst (λ u'. Reached (suc n) next u' t) ((==_iff v u).0 hit)
                  (subst (λ t'. Reached (suc n) next v t') (from_some same) advance-to)
          ]

          queued : (it : Item f) → In it next.queue → IsScored next it
          queued it place = elim (pq.push_in pushed it s.queue (unfold advance in place)) [
            | inr old ↦ advance-IsScored it (x.queued it old)
            | inl new ↦
                subst (λ y. IsScored next y) new
                  (unfold advance in (time, rw (==_self v) refl, ordered.lt_irrefl time))
          ]
