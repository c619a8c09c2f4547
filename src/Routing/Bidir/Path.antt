-- ===== src/Routing/Bidir/Path.antt =====
-- The path that is put together from the two ways at the meeting node.
use mathlib.Core.List.{reverse, reverse-cons, reverse-append, map-append, append-nil, append_assoc}
use geo.Base.{
  ℕ, zero, suc, ◌<◌, ◌≡◌, refl, sym, ap, ◌∙◌, List, [], ◌∷◌, ◌++◌, map, Option, some, Bool, false,
  length, arith, ==_self,
}
use geo.Base.Float.{Float}
use geo.Routing.Graph.{Edge, Graph}
use geo.Routing.Heap.{PriorityQueue}
use geo.Routing.AStar.{Query, PathResult, found}
use geo.Routing.AStar.Walk.{IsRoute, total, total_back, total-reverse, travel_time}
use geo.Routing.AStar.Sound.{reverse-map}
use geo.Routing.Meeting.{Bidir, forward_chain, backward_chain}
use geo.Routing.Bidir.{build_bidir_path}
use geo.Routing.Bidir.Side.{Chain}
use geo.Routing.Bidir.Cases.{ForwardLink, BackwardLink}

module _ {f : Float} (g : Graph f) (q : Query f) where
  abbrev ends : List (Edge f) → List ℕ
  ends = map (λ (e : Edge f). e.to)

  pub forward_chain-lem :
      (came : ℕ → Option (ℕ × Edge f)) (closed : ℕ → Bool) (start v fuel : ℕ) (p : List (Edge f))
      (ids : List ℕ) (es : List (Edge f))
      → Chain (ForwardLink g q) start came closed v p
      → length p < fuel
      → forward_chain f fuel came start v ids es ≡ some (ids ++ (ends p ++ start ∷ []), es ++ p)
  unfolding forward_chain
  forward_chain-lem came closed start v zero p ids es h enough = absurd (omega arith)
  forward_chain-lem came closed start v (suc fuel) [] ids es h enough =
      rw (h, ==_self start, append-nil es) refl
  forward_chain-lem came closed start v (suc fuel) (e ∷ p) ids es
        (away, (u, back, settled, link, more)) enough =
      rw (away, back, forward_chain)
        (forward_chain-lem came closed start u fuel p (ids ++ v ∷ []) (es ++ e ∷ []) more
            (omega arith)
          ∙ simp (append_assoc, link.0))

  pub backward_chain-lem :
      (came : ℕ → Option (ℕ × Edge f)) (closed : ℕ → Bool) (goal v fuel : ℕ) (p : List (Edge f))
      (ids : List ℕ) (es : List (Edge f))
      → Chain (BackwardLink g q) goal came closed v p
      → length p < fuel
      → backward_chain f fuel came goal v ids es ≡ some (ids ++ ends p, es ++ p)
  unfolding backward_chain
  backward_chain-lem came closed goal v zero p ids es h enough = absurd (omega arith)
  backward_chain-lem came closed goal v (suc fuel) [] ids es h enough =
      rw (h, ==_self goal, append-nil es, append-nil ids) refl
  backward_chain-lem came closed goal v (suc fuel) (e ∷ p) ids es
        (away, (u, back, settled, link, more)) enough =
      rw (away, back, backward_chain)
        (backward_chain-lem came closed goal u fuel p (ids ++ u ∷ []) (es ++ e ∷ []) more
            (omega arith)
          ∙ simp (append_assoc, link.0))

  pub backward-IsRoute :
      (came : ℕ → Option (ℕ × Edge f)) (closed : ℕ → Bool) (goal v : ℕ) (p : List (Edge f))
      → Chain (BackwardLink g q) goal came closed v p
      → IsRoute g q v goal p
  backward-IsRoute came closed goal v [] h = h
  backward-IsRoute came closed goal v (e ∷ p) (away, (u, back, settled, link, more)) =
      (link.1, rw link.0 (backward-IsRoute came closed goal u p more))

  pub forward-IsRoute :
      (came : ℕ → Option (ℕ × Edge f)) (closed : ℕ → Bool) (start v w : ℕ) (p es : List (Edge f))
      → Chain (ForwardLink g q) start came closed v p
      → IsRoute g q v w es
      → IsRoute g q start w (reverse p ++ es)
  forward-IsRoute came closed start v w [] es h r = rw (sym h) r
  forward-IsRoute came closed start v w (e ∷ p) es (away, (u, back, settled, link, more)) r =
      rw (reverse-cons e p, append_assoc (reverse p) (e ∷ []) es)
        (forward-IsRoute came closed start u w p (e ∷ es) more (link.1, rw link.0 r))

  -- A path from `start` to `goal` and its nodes. Its time is that of a first part, summed from the
  -- start on, and that of the rest, summed from the goal back, up to the order.
  pub record IsBidirPath (start goal : ℕ) (p : PathResult f) : Type 0 where
    pub route : IsRoute g q start goal p.edges
    pub nodes : p.nodes ≡ map g.nodes (start ∷ ends p.edges)
    pub before : List (Edge f)
    pub after : List (Edge f)
    pub parts : p.edges ≡ before ++ after
    pub time_up :
        f.lt p.time_hours (
          f.add
            (total g q (travel_time g q) f.zero before)
            (total_back g q (travel_time g q) after))
        ≡ false
    pub time_down :
        f.lt
          (f.add
            (total g q (travel_time g q) f.zero before)
            (total_back g q (travel_time g q) after))
          p.time_hours
        ≡ false

  path_nodes :
      (start : ℕ) (wf wb : List (Edge f))
      → map g.nodes (reverse (ends wf ++ start ∷ []) ++ ends wb)
        ≡ map g.nodes (start ∷ ends (reverse wf ++ wb))
  path_nodes start wf wb = ap (map g.nodes) (
      ap (λ t. t ++ ends wb)
        (reverse-append (ends wf) (start ∷ [])
          ∙ ap (◌∷◌ start) (reverse-map (λ (e : Edge f). e.to) wf))
      ∙ ap (◌∷◌ start) (sym (map-append (λ (e : Edge f). e.to) (reverse wf) wb)))

  module _ (pq : PriorityQueue f) (asked : Query f) where
    -- With fuel for the longer of the two ways, the path is put together.
    pub build_bidir_path-lem :
        (fuel start goal m : ℕ) (b : Bidir f) (wf wb : List (Edge f))
        → Chain (ForwardLink g q) start b.fwd.came_from b.fwd.closed m wf
        → Chain (BackwardLink g q) goal b.bwd.came_from b.bwd.closed m wb
        → length wf < fuel
        → length wb < fuel
        → f.lt b.best.mu
            (f.add (total_back g q (travel_time g q) wf) (total_back g q (travel_time g q) wb))
          ≡ false
        → f.lt
            (f.add (total_back g q (travel_time g q) wf) (total_back g q (travel_time g q) wb))
            b.best.mu
          ≡ false
        → (p : PathResult f) × (build_bidir_path f pq g asked fuel start goal m b ≡ found p)
          × IsBidirPath start goal p
    unfolding build_bidir_path
    build_bidir_path-lem fuel start goal m b wf wb cf cb enough_f enough_b up down =
        let fc = forward_chain-lem b.fwd.came_from b.fwd.closed start m fuel wf [] [] cf enough_f in
        let bc = backward_chain-lem b.bwd.came_from b.bwd.closed goal m fuel wb [] [] cb enough_b in
        let same = total-reverse g q (travel_time g q) wf in
        (
          record {
            nodes = map g.nodes (reverse (ends wf ++ start ∷ []) ++ ends wb);
            edges = reverse wf ++ wb;
            distance_km = b.best.mu_dist;
            time_hours = b.best.mu;
          },
          rw (fc, bc, build_bidir_path) refl,
          record {
            route =
                forward-IsRoute b.fwd.came_from b.fwd.closed start m goal wf wb cf
                  (backward-IsRoute b.bwd.came_from b.bwd.closed goal m wb cb);
            nodes = path_nodes start wf wb;
            before = reverse wf;
            after = wb;
            parts = refl;
            time_up = rw same up;
            time_down = rw same down;
          },
        )
