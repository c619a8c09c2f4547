-- ===== src/Routing/AStar/Walk.antt =====
-- What a path through the graph is, and the ways back that a search keeps.
use mathlib.Core.List.{reverse, reverse-cons, append-nil, append_assoc}
use geo.Base.{
  ℕ, zero, suc, ◌<◌, ◌≡◌, refl, sym, ◌∙◌, List, [], ◌∷◌, ◌++◌, map, Option, none, some, Bool, true,
  false, ◌==◌, length, In, arith,
}
use geo.Base.Float.{Float}
use geo.Routing.Graph.{Node, Edge, Graph, update}
use geo.Routing.AStar.{Query, edge_passes, edge_travel_time_hours, backtrack}

module _ {f : Float} (g : Graph f) (q : Query f) where
  -- The query lets a search leave `u` by the edge `e`, and the graph has its end.
  pub record Usable (u : ℕ) (e : Edge f) : Type 0 where
    pub of_graph : In e (g.edges u)
    pub passes : edge_passes f q e ≡ true
    pub node_open : q.blocked_nodes e.to ≡ false
    pub edge_open : q.blocked_edges u e.to ≡ false
    pub ends : (n : Node f) × (g.nodes e.to ≡ some n)

  -- The edges lead from `u` to `v`, one after another.
  abbrev pub IsRoute : ℕ → ℕ → List (Edge f) → Type 0
  IsRoute u v [] = u ≡ v
  IsRoute u v (e ∷ es) = Usable u e × IsRoute e.to v es

  -- The sums that the search forms, from the start on.
  abbrev pub total : (Edge f → f.F) → f.F → List (Edge f) → f.F
  total w acc [] = acc
  total w acc (e ∷ es) = total w (f.add acc (w e)) es

  abbrev pub travel_time : Edge f → f.F
  travel_time e = edge_travel_time_hours f e q.speed_fn

  abbrev pub distance : Edge f → f.F
  distance e = e.distance_km

  -- The same sums over a path that is listed from its end.
  abbrev pub total_back : (Edge f → f.F) → List (Edge f) → f.F
  total_back w [] = f.zero
  total_back w (e ∷ p) = f.add (total_back w p) (w e)

  -- The way back from `v` to `start` by the maps, through settled nodes.
  abbrev pub Traced : (ℕ → Option (ℕ × Edge f)) → (ℕ → Bool) → ℕ → ℕ → List (Edge f) → Type 0
  Traced came closed start v [] = (v ≡ start) × (came v ≡ none)
  Traced came closed start v (e ∷ p) =
      (u : ℕ) × (came v ≡ some (u, e))
      × (closed u ≡ true)
      × (e.to ≡ v)
      × Usable u e
      × Traced came closed start u p

  total-append :
      (w : Edge f → f.F) (acc : f.F) (es : List (Edge f)) (e : Edge f)
      → total w acc (es ++ e ∷ []) ≡ f.add (total w acc es) (w e)
  total-append w acc [] e = refl
  total-append w acc (x ∷ es) e = total-append w (f.add acc (w x)) es e

  pub total-reverse :
      (w : Edge f → f.F) (p : List (Edge f)) → total w f.zero (reverse p) ≡ total_back w p
  total-reverse w [] = refl
  total-reverse w (e ∷ p) =
      rw (reverse-cons e p, total-append w f.zero (reverse p) e, total-reverse w p)

  pub IsRoute-reverse :
      (came : ℕ → Option (ℕ × Edge f)) (closed : ℕ → Bool) (start v w : ℕ) (p es : List (Edge f))
      → Traced came closed start v p
      → IsRoute v w es
      → IsRoute start w (reverse p ++ es)
  IsRoute-reverse came closed start v w [] es h r = rw (sym h.0) r
  IsRoute-reverse came closed start v w (e ∷ p) es (u, back, settled, ends, usable, more) r =
      rw (reverse-cons e p, append_assoc (reverse p) (e ∷ []) es)
        (IsRoute-reverse came closed start u w p (e ∷ es) more (usable, rw ends r))

  -- Reading the way back, with fuel for one edge more than it has.
  pub backtrack_lem :
      (came : ℕ → Option (ℕ × Edge f)) (closed : ℕ → Bool) (start v fuel : ℕ) (p : List (Edge f))
      (ids : List ℕ) (es : List (Edge f))
      → Traced came closed start v p
      → length p < fuel
      → backtrack f fuel came v (ids ++ v ∷ []) es
        ≡ some (ids ++ (map (λ (e : Edge f). e.to) p ++ start ∷ []), es ++ p)
  unfolding backtrack
  backtrack_lem came closed start v zero p ids es h enough = absurd (omega arith)
  backtrack_lem came closed start v (suc fuel) [] ids es h enough =
      rw (h.1, backtrack, h.0, append-nil es)
  backtrack_lem came closed start v (suc fuel) (e ∷ p) ids es (u, back, settled, ends, usable, more)
        enough =
      rw (back, backtrack)
        (backtrack_lem came closed start u fuel p (ids ++ v ∷ []) (es ++ e ∷ []) more (omega arith)
          ∙ simp (append_assoc, ends))

  -- The way back of one node is kept when another node, not settled, gets a new one.
  pub Traced-update :
      (came : ℕ → Option (ℕ × Edge f)) (closed : ℕ → Bool) (start v w : ℕ) (x : ℕ × Edge f)
      (p : List (Edge f))
      → closed w ≡ false
      → (w == v) ≡ false
      → Traced came closed start v p
      → Traced (update came w (some x)) closed start v p
  Traced-update came closed start v w x [] fresh other h = (h.0, rw other h.1)
  Traced-update came closed start v w x (e ∷ p) fresh other (u, back, settled, ends, usable, more) =
      (
        u,
        rw other back,
        settled,
        ends,
        usable,
        Traced-update came closed start u w x p fresh apart more,
      )
    where
      apart : (w == u) ≡ false
      apart = ground arith

  -- And it is kept when a node is settled.
  pub Traced-settle :
      (came : ℕ → Option (ℕ × Edge f)) (closed : ℕ → Bool) (start v w : ℕ) (p : List (Edge f))
      → Traced came closed start v p
      → Traced came (update closed w true) start v p
  Traced-settle came closed start v w [] h = h
  Traced-settle came closed start v w (e ∷ p) (u, back, settled, ends, usable, more) =
      (u, back, ground arith, ends, usable, Traced-settle came closed start u w p more)
