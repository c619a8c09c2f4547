-- ===== src/Routing/Yen/Combine.antt =====
-- The path that combineRootAndSpur builds: the edges between the nodes, with their sums.

use mathlib.Core.Path.{subst}
use geo.Base.{
  ℕ, ◌≡◌, refl, sym, ap, ◌∙◌, List, [], ◌∷◌, ◌++◌, map, Option, none, some, In, All, not, ◌||◌,
  ◌==◌, Holds, Holds-bind, inl, inr, Bool, true, false, Bool-cases, ==_iff, if◌then◌else◌,
}
use geo.Base.Every.{All-append}
use geo.Base.Float.{Float}
use geo.Routing.Graph.{Node, Edge, Graph}
use geo.Routing.Heap.{PriorityQueue}
use geo.Routing.AStar.{Query, edge_passes}
use geo.Routing.AStar.Walk.{IsRoute, total, travel_time, distance}
use geo.Routing.AStar.Sound.{IsPath}
use geo.Routing.Yen.{
  Profile, Way, query, sum_along, path_of, shortest_edge, edge_between, edges_along,
  combine_root_and_spur,
}
use geo.Routing.Yen.Walk.{IsThere, last_id, IsWalk, node_ids, edge_ends, map-nodes, last_id-append}

neither_skips : (a b : Bool) → not a || not b ≡ false → (a ≡ true) × (b ≡ true)
neither_skips true true h = (refl, refl)
neither_skips true false h = absurd cc
neither_skips false b h = absurd cc

module _ {f : Float} (pq : PriorityQueue f)
    (sort_slice : (Way f → Way f → Bool) → List (Way f) → List (Way f)) (g : Graph f)
    (p : Profile f) where
  -- The request without anything blocked.
  abbrev pub plain : Query f
  plain = query f p (λ u v. false) (λ v. false) 0 0

  abbrev IsBetween : ℕ → ℕ → Edge f → Type 0
  IsBetween u v e = In e (g.edges u) × (e.to ≡ v) × (edge_passes f plain e ≡ true)

  shortest_edge-Holds :
      (u v : ℕ) (es : List (Edge f)) (best : Option (Edge f))
      → ((e : Edge f) → In e es → In e (g.edges u))
      → Holds (IsBetween u v) best
      → Holds (IsBetween u v) (shortest_edge f pq sort_slice g p v es best)
  unfolding shortest_edge
  shortest_edge-Holds u v [] best members h = h
  shortest_edge-Holds u v (e ∷ es) best members h =
      shortest_edge-Holds u v es _ (λ d k. members d (inr k))
        (elim (Bool-cases (not (e.to == v) || not (edge_passes f plain e))) [
          | inl skip ↦ rw skip h
          | inr go ↦
              let (ends, passes) = neither_skips (e.to == v) (edge_passes f plain e) go in
              rw go (pick best h (members e (inl refl), (==_iff e.to v).0 ends, passes))
        ])
    where
      pick :
          (best : Option (Edge f))
          → Holds (IsBetween u v) best
          → IsBetween u v e
          → Holds (IsBetween u v) (elim best [
            | none ↦ some e
            | some b ↦ if f.lt e.distance_km b.distance_km then some e else some b
          ])
      pick none h here = here
      pick (some b) h here = elim (Bool-cases (f.lt e.distance_km b.distance_km)) [
        | inl shorter ↦ rw shorter here
        | inr longer ↦ rw longer h
      ]

  edges_along-Holds :
      (n : Node f) (ns : List (Node f))
      → All (IsThere g) ns
      → Holds
          (λ es. IsRoute g plain n.id (last_id g n ns) es × (node_ids g ns ≡ edge_ends g es))
          (edges_along f pq sort_slice g p n ns)
  unfolding edges_along
  edges_along-Holds n [] there = (refl, refl)
  edges_along-Holds n (m ∷ ns) there =
      Holds-bind (IsBetween n.id m.id) _ (edge_between f pq sort_slice g p n.id m.id) _
        (unfold edge_between in shortest_edge-Holds n.id m.id (g.edges n.id) none (λ e h. h) tt)
        (λ e (member, ends, passes).
          Holds-bind
            (λ es. IsRoute g plain m.id (last_id g m ns) es × (node_ids g ns ≡ edge_ends g es)) _
            (edges_along f pq sort_slice g p m ns) _ (edges_along-Holds m ns there.1)
            (λ es (route, same). (
              (
                record {
                  of_graph = member;
                  passes = passes;
                  node_open = refl;
                  edge_open = refl;
                  ends = (m, ap g.nodes ends ∙ there.0);
                },
                rw ends route,
              ),
              rw (ends, same) refl,
            )))

  sum_along-total :
      (w : Edge f → f.F) (acc : f.F) (es : List (Edge f))
      → sum_along f w acc es ≡ total g plain w acc es
  unfolding sum_along
  sum_along-total w acc [] = refl
  sum_along-total w acc (e ∷ es) = sum_along-total w (f.add acc (w e)) es

  -- A path from `start` to `goal` with the nodes that it visits.
  abbrev pub IsWay : ℕ → ℕ → Way f → Type 0
  IsWay start goal w = IsWalk g start goal w.nodes × IsPath g plain start goal (path_of f w)

  -- A walk to the spur node and one from there to the goal are put together.
  pub combine_root_and_spur-IsWay :
      (start spur_id goal : ℕ) (root spur : List (Node f))
      → IsWalk g start spur_id root
      → IsWalk g spur_id goal spur
      → Holds (IsWay start goal) (combine_root_and_spur f pq sort_slice g p root spur)
  unfolding combine_root_and_spur path_of
  combine_root_and_spur-IsWay start spur_id goal [] spur hr hs = absurd hr
  combine_root_and_spur-IsWay start spur_id goal (n ∷ root) [] hr hs = absurd hs
  combine_root_and_spur-IsWay start spur_id goal (n ∷ root) (s ∷ spur) hr hs =
      let there = All-append (IsThere g) root spur hr.3 hs.3 in
      let ends = last_id-append g n s root spur (hr.1 ∙ sym hs.0) hr.2 hr.3 hs.2 ∙ hs.1 in
      Holds-bind
        (λ es.
          IsRoute g plain n.id (last_id g n (root ++ spur)) es
          × (node_ids g (root ++ spur) ≡ edge_ends g es))
        (IsWay start goal) (edges_along f pq sort_slice g p n (root ++ spur)) _
        (edges_along-Holds n (root ++ spur) there)
        (λ es (route, same). (
          (hr.0, ends, hr.2, there),
          record {
            route = subst (λ u. IsRoute g plain u goal es) hr.0 (rw ends at route);
            nodes =
                unfold path_of in
                (sym (map-nodes g (n ∷ root ++ spur) (hr.2, there))
                  ∙ ap (map g.nodes)
                      (ap (λ u. u ∷ node_ids g (root ++ spur)) hr.0 ∙ ap (◌∷◌ start) same));
            distance = unfold path_of in sum_along-total (distance g plain) f.zero es;
            time = unfold path_of in sum_along-total (travel_time g plain) f.zero es;
          },
        ))
