-- ===== src/Routing/AStar/Sound.antt =====
-- Every path that the search returns is a path of the graph, and its figures are sums along it.
use mathlib.Core.List.{reverse, reverse-cons, reverse-append, map-append, append-nil}
use geo.Base.{
  value_or, ℕ, suc, ◌≡◌, refl, sym, ap, ◌∙◌, ◌⊎◌, inl, inr, List, [], ◌∷◌, ◌++◌, map, some, true,
  In, arith, ==_self,
}
use geo.Base.Float.{Float}
use geo.Routing.Graph.{Node, Edge, Graph}
use geo.Routing.Heap.{Item, PriorityQueue}
use geo.Routing.AStar.{found, PathResult, Query, Search, relax_all, settle, build_path}
use geo.Routing.AStar.Walk.{
  IsRoute, total, total-reverse, travel_time, distance, Traced-settle, IsRoute-reverse,
  backtrack_lem,
}
use geo.Routing.AStar.Relax.{Reached, Inv, Expanding, relax_all-Expanding}

pub reverse-map : {A B : Type 0} (h : A → B) (xs : List A) → reverse (map h xs) ≡ map h (reverse xs)
reverse-map h [] = refl
reverse-map h (x ∷ xs) =
    reverse-cons (h x) (map h xs)
    ∙ ap (λ t. t ++ h x ∷ []) (reverse-map h xs)
    ∙ sym (map-append h (reverse xs) (x ∷ []))
    ∙ ap (map h) (sym (reverse-cons x xs))

module _ {f : Float} (g : Graph f) (q : Query f) where
  -- A path from `start` to `goal`, its nodes, and the sums of distance and time along it.
  pub record IsPath (start goal : ℕ) (p : PathResult f) : Type 0 where
    pub route : IsRoute g q start goal p.edges
    pub nodes : p.nodes ≡ map g.nodes (start ∷ map (λ (e : Edge f). e.to) p.edges)
    pub distance : p.distance_km ≡ total g q (distance g q) f.zero p.edges
    pub time : p.time_hours ≡ total g q (travel_time g q) f.zero p.edges

module _ {f : Float} (pq : PriorityQueue f) (g : Graph f) (q : Query f) (start : ℕ) where
  -- The invariant of the loop after `n` rounds.
  pub record LoopInv (n : ℕ) (s : Search f) : Type 0 where
    pub inv : Inv pq g q start n s
    pub started : (s.closed start ≡ true) ⊎ ((it : Item f) → In it s.queue → it.node_id ≡ start)

  later :
      (n : ℕ) (s : Search f) (v : ℕ) (t : f.F)
      → Reached pq g q start n s v t
      → Reached pq g q start (suc n) s v t
  later n s v t r = record {
    way = r.way;
    traced = r.traced;
    time = r.time;
    dist = r.dist;
    short = omega arith;
  }

  -- The queue loses the item that is popped.
  pub popped-LoopInv :
      (n : ℕ) (s : Search f) (it : Item f) (rest : List (Item f))
      → pq.pop s.queue ≡ some (it, rest)
      → LoopInv n s
      → LoopInv n (record s { queue = rest })
  popped-LoopInv n s it rest e i = record {
    inv = record {
      reached = λ v t h.
          let r = i.inv.reached v t h in
          record { way = r.way; traced = r.traced; time = r.time; dist = r.dist; short = r.short };
      queued = λ y h. i.inv.queued y (pq.pop_in it y s.queue rest e (inr h));
    };
    started = elim i.started [
      | inl done ↦ inl done
      | inr all ↦ inr (λ y h. all y (pq.pop_in it y s.queue rest e (inr h)))
    ];
  }

  pub LoopInv-suc : (n : ℕ) (s : Search f) → LoopInv n s → LoopInv (suc n) s
  LoopInv-suc n s i = record {
    inv = record { reached = λ v t h. later n s v t (i.inv.reached v t h); queued = i.inv.queued };
    started = i.started;
  }

  -- The state after the node of a popped item is settled and its edges are relaxed.
  pub expand-LoopInv :
      (n : ℕ) (s : Search f) (it : Item f) (rest : List (Item f)) (goal : Node f)
      → pq.pop s.queue ≡ some (it, rest)
      → LoopInv n s
      → LoopInv (suc n) (
          relax_all f pq g q goal it.node_id
            (g.edges it.node_id)
            (settle f pq g q it.node_id (record s { queue = rest })))
  expand-LoopInv n s it rest goal e i =
      let x =
        relax_all-Expanding pq g q start n cur (i.inv.queued it here).0 goal (g.edges cur) next
          (λ _ h. h) ready in
      record { inv = x.inv; started = inl x.start_closed }
    where
      cur : ℕ
      cur = it.node_id

      here : In it s.queue
      here = pq.pop_in it it s.queue rest e (inl refl)

      next : Search f
      next = settle f pq g q cur (record s { queue = rest })

      settled_start : next.closed start ≡ true
      settled_start = elim i.started [
        | inl done ↦ ground arith
        | inr all ↦ rw (all it here) (rw (==_self start))
      ]

      kept : (v : ℕ) (t : f.F) → Reached pq g q start n s v t → Reached pq g q start n next v t
      kept v t r = record {
        way = r.way;
        traced = Traced-settle g q s.came_from s.closed start v cur r.way r.traced;
        time = r.time;
        dist = r.dist;
        short = r.short;
      }

      ready : Expanding pq g q start n cur (i.inv.queued it here).0 next
      ready = record {
        inv = record {
          reached = λ v t h. later n next v t (kept v t (i.inv.reached v t h));
          queued = λ y h. i.inv.queued y (pq.pop_in it y s.queue rest e (inr h));
        };
        score = (i.inv.queued it here).1;
        from_cur = kept cur _ (i.inv.reached cur _ (i.inv.queued it here).1);
        cur_closed = rw (==_self cur);
        start_closed = settled_start;
      }

  -- At a node with a score the path is read back, with one round of fuel more than has passed.
  pub build_path_lem :
      (n goal : ℕ) (s : Search f) (t : f.F)
      → LoopInv n s
      → s.time_score goal ≡ some t
      → (p : PathResult f) × (build_path f pq g q (suc n) goal s ≡ found p)
        × IsPath g q start goal p
  unfolding build_path
  build_path_lem n goal s t i scored =
      let r = i.inv.reached goal t scored in
      let back =
        backtrack_lem g q s.came_from s.closed start goal (suc n) r.way [] [] r.traced
          (omega arith) in
      (
        record {
          nodes = map g.nodes (reverse (map (λ (e : Edge f). e.to) r.way ++ start ∷ []));
          edges = reverse r.way;
          distance_km = value_or (s.dist_score goal) f.zero;
          time_hours = value_or (s.time_score goal) f.zero;
        },
        rw (back, build_path),
        record {
          route =
              rw (append-nil (reverse r.way)) at
                (IsRoute-reverse g q s.came_from s.closed start goal goal r.way [] r.traced refl);
          nodes = ap (map g.nodes) (
              reverse-append (map (λ (e : Edge f). e.to) r.way) (start ∷ [])
              ∙ ap (◌∷◌ start) (reverse-map (λ (e : Edge f). e.to) r.way));
          distance = rw (r.dist, value_or) (sym (total-reverse g q (distance g q) r.way));
          time = rw (scored, value_or) (r.time ∙ sym (total-reverse g q (travel_time g q) r.way));
        },
      )
