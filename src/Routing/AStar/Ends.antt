-- ===== src/Routing/AStar/Ends.antt =====
-- The search comes to an end, with a path of the graph or with an error.
use geo.Base.{
  ℕ, zero, suc, ◌+◌, ◌%◌, ◌≤◌, ◌<◌, ◌≡◌, refl, ap, ◌∙◌, inl, inr, List, [], ◌∷◌, Option, some, Bool,
  true, false, ◌&&◌, ◌==◌, length, In, arith, if_cases, Option-cases, ==_iff, ==_self,
  if◌then◌else◌, none, Bool-cases, sym,
}
use geo.Base.Float.{Float}
use geo.Routing.Graph.{Node, Edge, Graph, update}
use geo.Routing.Heap.{Item, PriorityQueue}
use geo.Routing.AStar.{
  Found, found, failed, out_of_fuel, PathResult, Query, Search, relax, relax_all, improve, is_stale,
  settle, search_loop, open_edges, start_state, a_star, search_fuel,
}
use geo.Routing.AStar.Relax.{Relaxed, kept, improved, relax_cases, Reached}
use geo.Routing.AStar.Sound.{
  IsPath, LoopInv, LoopInv-suc, popped-LoopInv, expand-LoopInv, build_path_lem,
}
use geo.Routing.AStar.Walk.{Traced}

open_edges-le :
    (edge_count : ℕ → ℕ) (closed : ℕ → Bool) (w : ℕ) (ids : List ℕ)
    → open_edges edge_count (update closed w true) ids ≤ open_edges edge_count closed ids
unfolding open_edges
open_edges-le edge_count closed w [] = omega arith
open_edges-le edge_count closed w (id ∷ ids) = ground (arith, open_edges-le edge_count closed w ids)

pub open_edges-settle :
    (edge_count : ℕ → ℕ) (closed : ℕ → Bool) (w : ℕ) (ids : List ℕ)
    → closed w ≡ false
    → In w ids
    → open_edges edge_count (update closed w true) ids + edge_count w
      ≤ open_edges edge_count closed ids
unfolding open_edges
open_edges-settle edge_count closed w [] fresh h = absurd h
open_edges-settle edge_count closed w (id ∷ ids) fresh (inl e) =
    rw (e, fresh, ==_self w) (omega (arith, open_edges-le edge_count closed w ids))
open_edges-settle edge_count closed w (id ∷ ids) fresh (inr h) =
    ground (arith, open_edges-settle edge_count closed w ids fresh h, ap edge_count)

module _ {f : Float} (pq : PriorityQueue f) (g : Graph f) (q : Query f) where
  relax-queue :
      (goal : Node f) (cur : ℕ) (e : Edge f) (s : Search f)
      → length (relax f pq g q goal cur e s).queue ≤ suc (length s.queue)
  relax-queue goal cur e s = go (relax_cases pq g q goal cur e s)
    where
      go : {t : Search f} → Relaxed pq g q goal cur e s t → length t.queue ≤ suc (length s.queue)
      go kept = omega arith
      go (improved nb there fresh node_open edge_open passes better) =
          unfold improve in omega (arith, pq.push_length _ s.queue)

  relax_all-queue :
      (goal : Node f) (cur : ℕ) (es : List (Edge f)) (s : Search f)
      → length (relax_all f pq g q goal cur es s).queue ≤ length es + length s.queue
  unfolding relax_all
  relax_all-queue goal cur [] s = omega arith
  relax_all-queue goal cur (e ∷ es) s =
      omega
        (arith, relax_all-queue goal cur es (relax f pq g q goal cur e s), relax-queue goal cur e s)

  relax-closed :
      (goal : Node f) (cur : ℕ) (e : Edge f) (s : Search f)
      → (relax f pq g q goal cur e s).closed ≡ s.closed
  relax-closed goal cur e s = go (relax_cases pq g q goal cur e s)
    where
      go : {t : Search f} → Relaxed pq g q goal cur e s t → t.closed ≡ s.closed
      go kept = refl
      go (improved nb there fresh node_open edge_open passes better) = unfold improve in refl

  pub relax_all-closed :
      (goal : Node f) (cur : ℕ) (es : List (Edge f)) (s : Search f)
      → (relax_all f pq g q goal cur es s).closed ≡ s.closed
  unfolding relax_all
  relax_all-closed goal cur [] s = refl
  relax_all-closed goal cur (e ∷ es) s =
      relax_all-closed goal cur es (relax f pq g q goal cur e s) ∙ relax-closed goal cur e s

  -- What a search may give: a path, or an error, but not that the fuel ran out.
  abbrev pub Ends : ℕ → ℕ → Found (PathResult f) → Type 0
  Ends start goal (found p) = IsPath g q start goal p
  Ends start goal (failed e) = Unit
  Ends start goal out_of_fuel = ⊥

  -- `ids` has the key of every node.
  abbrev pub HasIds : Type 0
  HasIds = (v : ℕ) (n : Node f) → g.nodes v ≡ some n → In v g.ids

  module _ (start : ℕ) (start_node : Node f) (there : g.nodes start ≡ some start_node)
      (keys : HasIds) where
    way-In :
        (came : ℕ → Option (ℕ × Edge f)) (closed : ℕ → Bool) (v : ℕ) (way : List (Edge f))
        → Traced g q came closed start v way
        → In v g.ids
    way-In came closed v [] h = rw h.0 (keys start start_node there)
    way-In came closed v (e ∷ p) (u, back, settled, ends, usable, more) =
        rw (← ends) (keys e.to usable.ends.0 usable.ends.1)

    -- The measure of the loop: what is in the queue and what can still come in.
    abbrev pending : Search f → ℕ
    pending s = length s.queue + open_edges (λ v. length (g.edges v)) s.closed g.ids

    pending-expand :
        (n : ℕ) (s : Search f) (it : Item f) (rest : List (Item f)) (goal : Node f)
        → pq.pop s.queue ≡ some (it, rest)
        → LoopInv pq g q start n s
        → s.closed it.node_id ≡ false
        → pending (
            relax_all f pq g q goal it.node_id
              (g.edges it.node_id)
              (settle f pq g q it.node_id (record s { queue = rest })))
          < pending s
    pending-expand n s it rest goal e i fresh =
        let here = i.inv.queued it (pq.pop_in it it s.queue rest e (inl refl)) in
        let r = i.inv.reached it.node_id here.0 here.1 in
        let member = way-In s.came_from s.closed it.node_id r.way r.traced in
        let next = settle f pq g q it.node_id (record s { queue = rest }) in
        rw (relax_all-closed goal it.node_id (g.edges it.node_id) next) (
          omega (
            arith,
            pq.pop_length it s.queue rest e,
            relax_all-queue goal it.node_id (g.edges it.node_id) next,
            open_edges-settle (λ v. length (g.edges v)) s.closed it.node_id g.ids fresh member,
          ))

    search_loop-Ends :
        (fuel n goal_id : ℕ) (goal : Node f) (s : Search f)
        → pending s < fuel
        → LoopInv pq g q start n s
        → Ends start goal_id (search_loop f pq g q fuel n goal_id goal s)
    unfolding search_loop
    search_loop-Ends zero n goal_id goal s enough i = absurd (omega arith)
    search_loop-Ends (suc fuel) n goal_id goal s enough i = elim (Option-cases (pq.pop s.queue)) [
      | inl empty ↦ rw (empty, search_loop) tt
      | inr ((it, rest), popped) ↦
          rw (popped, search_loop)
            (if_cases (Ends start goal_id) (suc n % 4096 == 0 && q.done (suc n)) (λ _. tt)
              λ _.
                if_cases (Ends start goal_id) (is_stale f pq g q it (record s { queue = rest }))
                  (λ _.
                    search_loop-Ends fuel (suc n) goal_id goal (record s { queue = rest })
                      (omega (arith, pq.pop_length it s.queue rest popped))
                      (LoopInv-suc pq g q start n _
                        (popped-LoopInv pq g q start n s it rest popped i)))
                  λ new.
                    if_cases (Ends start goal_id) (it.node_id == goal_id)
                      (λ hit.
                        let here =
                          i.inv.queued it (pq.pop_in it it s.queue rest popped (inl refl)) in
                        let (p, built, path) =
                          build_path_lem pq g q start n goal_id (record s { queue = rest }) here.0
                            (popped-LoopInv pq g q start n s it rest popped i)
                            (rw ((==_iff it.node_id goal_id).0 hit) at here.1) in
                        rw built path)
                      (λ other.
                        search_loop-Ends fuel (suc n) goal_id goal _
                          (omega (
                            arith,
                            pending-expand n s it rest goal popped i
                                (unfold is_stale in ground arith),
                          ))
                          (expand-LoopInv pq g q start n s it rest goal popped i)))
    ]

  pushed-first : (it y : Item f) → In y (pq.push it []) → it ≡ y
  pushed-first it y h = elim (pq.push_in it y [] h) [ inl e ↦ e | inr none_else ↦ absurd none_else ]

  start-Reached :
      (start v : ℕ) (t : f.F) (it : Item f)
      → (if start == v then some f.zero else none) ≡ some t
      → Reached pq g q start 0 (start_state f pq g q start it) v t
  start-Reached start v t it h = elim (Bool-cases (start == v)) [
    | inl hit ↦
        let same : f.zero ≡ t = ground arith in
        record {
          way = [];
          traced = (sym ((==_iff start v).0 hit), refl);
          time = sym same;
          dist = rw hit;
          short = omega arith;
        }
    | inr other ↦ absurd (ground arith)
  ]

  pub start-LoopInv :
      (start : ℕ) (it : Item f)
      → it.node_id ≡ start
      → LoopInv pq g q start 0 (start_state f pq g q start it)
  start-LoopInv start it e = record {
    inv = record {
      reached = λ v t h. start-Reached start v t it h;
      queued = λ y h. (f.zero, rw (← pushed-first it y h) (rw e (rw (==_self start))));
    };
    started = inr (λ y h. rw (← pushed-first it y h) e);
  }

  -- With every key of the map of nodes in `ids`, the fuel of the model is enough: the search ends
  -- by itself, and a path that it returns leads from the start to the goal over edges of the graph
  -- that the profile lets pass and that are not blocked; its nodes are those on the way, and its
  -- distance and time are the sums along it, from the start on.
  pub a_star-Ends :
      (start goal : ℕ)
      → HasIds
      → Ends start goal (a_star f pq g q (search_fuel f pq g q) start goal)
  unfolding a_star
  a_star-Ends start goal keys =
      if_cases (Ends start goal) (q.done 0) (λ _. tt)
        λ _. elim (Option-cases (g.nodes start)) [
          | inl missing ↦ rw (missing, a_star) tt
          | inr (n, there) ↦ elim (Option-cases (g.nodes goal)) [
            | inl missing ↦ rw (there, a_star, missing) tt
            | inr (m, goal_there) ↦
                rw (there, a_star, goal_there)
                  (if_cases (Ends start goal) (start == goal)
                    (λ same. record {
                      route = (==_iff start goal).0 same;
                      nodes = rw there;
                      distance = refl;
                      time = refl;
                    })
                    (λ other.
                      search_loop-Ends start n there keys (search_fuel f pq g q) 0 goal m _
                        (unfold search_fuel in omega (arith, pq.push_length _ []))
                        (start-LoopInv start _ refl)))
          ]
        ]

  abbrev pub IsFailed : Found (PathResult f) → Type 0
  IsFailed (failed e) = Unit
  IsFailed _ = ⊥

  pub a_star-IsFailed :
      (fuel start goal : ℕ) → g.nodes start ≡ none → IsFailed (a_star f pq g q fuel start goal)
  unfolding a_star
  a_star-IsFailed fuel start goal missing =
      if_cases IsFailed (q.done 0) (λ _. tt) (λ _. rw (missing, a_star) tt)
