-- ===== src/Routing/Yen/Ends.antt =====
-- KFastestPaths comes to an end, with the primary path and alternatives to it.
use mathlib.Core.List.{Permᴰ}
use geo.Base.{
  ℕ, suc, ◌+◌, ◌-◌, ◌≤◌, ◌<◌, ◌≡◌, refl, sym, ap, ◌∙◌, List, [], ◌∷◌, map, Option, none, some, In,
  All, Distinct, ◌||◌, ◌==◌, Yields, Yields-bind, inl, inr, Bool, false, arith, if◌then◌else◌,
  length, ltb, Option-cases, if_cases, value_or,
}
use geo.Base.Result.{Result, ok, err}
use geo.Base.Float.{Float, IsOrdered}
use geo.Routing.Graph.{Node, Graph}
use geo.Routing.Heap.{PriorityQueue}
use geo.Routing.AStar.{Found, found, failed, out_of_fuel, PathResult, SearchError}
use geo.Routing.AStar.Sound.{IsPath}
use geo.Routing.Bidir.{bi_a_star, bidir_fuel}
use geo.Routing.Bidir.Cases.{open_goal}
use geo.Routing.Bidir.Path.{IsBidirPath}
use geo.Routing.Bidir.Ends.{BidirEnds, bi_a_star-Ends, bi_a_star-IsFailed}
use geo.Routing.Yen.{
  Profile, Way, path_signature, read_nodes, path_of, insert_text, alternatives_to, yen_loop,
  k_fastest_paths,
}
use geo.Routing.Yen.Walk.{HasOwnIds, IsWalk, node_ids, edge_ends, read_nodes-IsWalk, map-nodes}
use geo.Routing.Yen.Combine.{IsWay, plain}
use geo.Routing.Yen.Candidates.{same_text_self}
use geo.Routing.Yen.Chosen.{IsChosen, yen_loop-Yields}

In-map : {A B : Type 0} (h : A → B) (x : A) (ys : List A) → In x ys → In (h x) (map h ys)
In-map h x [] i = absurd i
In-map h x (y ∷ ys) (inl e) = inl (ap h e)
In-map h x (y ∷ ys) (inr i) = inr (In-map h x ys i)

-- A function that tells elements apart.
Distinct-map : {A B : Type 0} (h : A → B) (xs : List A) → Distinct (map h xs) → Distinct xs
Distinct-map h [] d = tt
Distinct-map h (x ∷ xs) d = ((λ i. d.0 (In-map h x xs i)), Distinct-map h xs d.1)

module _ {f : Float} where
  abbrev pub nodes_of : List (PathResult f) → List (List (Option (Node f)))
  nodes_of = map (λ (p : PathResult f). p.nodes)

  read_nodes-some : (ns : List (Node f)) → read_nodes f (map some ns) ≡ some ns
  unfolding read_nodes
  read_nodes-some [] = refl
  read_nodes-some (n ∷ ns) = rw (read_nodes-some ns) refl

  signature_of : List (Option (Node f)) → List ℕ
  signature_of nodes = path_signature f (value_or (read_nodes f nodes) [])

  signatures-nodes_of :
      (ws : List (Way f))
      → map signature_of (nodes_of (map (path_of f) ws))
        ≡ map (λ (w : Way f). path_signature f w.nodes) ws
  unfolding signature_of path_of
  signatures-nodes_of [] = refl
  signatures-nodes_of (w ∷ ws) = rw (read_nodes-some w.nodes, signatures-nodes_of ws) refl

module _ {f : Float} (ordered : IsOrdered f) (pq : PriorityQueue f)
    (sort_slice : (Way f → Way f → Bool) → List (Way f) → List (Way f))
    (sort_perm : (less : Way f → Way f → Bool) (ws : List (Way f)) → Permᴰ ws (sort_slice less ws))
    (g : Graph f) (p : Profile f) (start goal : ℕ) where
  -- The search for the primary path.
  abbrev pub primary : Found (PathResult f)
  primary =
      bi_a_star f pq g (plain pq sort_slice g p) (bidir_fuel f pq g (plain pq sort_slice g p)) start
        goal

  -- At most `k` paths between the ends, the primary one first, no two with the same nodes.
  pub record AreChosen (k : ℕ) (first : PathResult f) (paths : List (PathResult f)) : Type 0 where
    pub others : List (PathResult f)
    pub led : paths ≡ first ∷ others
    pub routes : All (IsPath g (plain pq sort_slice g p) start goal) others
    pub distinct : Distinct (nodes_of paths)
    pub few : length paths ≤ k

  abbrev pub AreAlternatives : ℕ → Result SearchError (List (PathResult f)) → Type 0
  AreAlternatives k (err e) = primary ≡ failed e
  AreAlternatives k (ok paths) =
      (first : PathResult f) × (primary ≡ found first)
      × IsBidirPath g (open_goal (plain pq sort_slice g p) goal) start goal first
      × AreChosen k first paths

  All-paths :
      (ws : List (Way f))
      → All (IsWay pq sort_slice g p start goal) ws
      → All (IsPath g (plain pq sort_slice g p) start goal) (map (path_of f) ws)
  All-paths [] h = tt
  All-paths (w ∷ ws) h = (h.0.1, All-paths ws h.1)

  length-map : {A B : Type 0} (h : A → B) (xs : List A) → length (map h xs) ≡ length xs
  length-map h [] = refl
  length-map h (x ∷ xs) = ap suc (length-map h xs)

  IsChosen-paths :
      (first : Way f) (k : ℕ) (ws : List (Way f))
      → IsChosen ordered pq sort_slice sort_perm g p start goal first k ws
      → AreChosen k (path_of f first) (map (path_of f) ws)
  IsChosen-paths first k ws c = record {
    others = map (path_of f) c.others;
    led = ap (map (path_of f)) c.led;
    routes = All-paths c.others c.ways;
    distinct =
        Distinct-map signature_of (nodes_of (map (path_of f) ws))
          (rw (signatures-nodes_of ws) c.distinct);
    few = omega (arith, c.few, length-map (path_of f) ws);
  }

  AreChosen-le :
      (ws : List (Way f)) (k m : ℕ) (first : PathResult f)
      → k ≤ m
      → AreChosen k first (map (path_of f) ws)
      → AreChosen m first (map (path_of f) ws)
  AreChosen-le ws k m first le c = record {
    others = c.others;
    led = c.led;
    routes = c.routes;
    distinct = c.distinct;
    few = omega (arith, c.few);
  }

  module _ (own : HasOwnIds g) (keys : (v : ℕ) (n : Node f) → g.nodes v ≡ some n → In v g.ids) where
    first_way : PathResult f → List (Node f) → Way f
    first_way first ns = record {
      nodes = ns;
      edges = first.edges;
      distance_km = first.distance_km;
      time_hours = first.time_hours;
    }

    path_of-first_way :
        (first : PathResult f) (ns : List (Node f))
        → IsBidirPath g (open_goal (plain pq sort_slice g p) goal) start goal first
        → IsWalk g start goal ns
        → node_ids g ns ≡ start ∷ edge_ends g first.edges
        → path_of f (first_way first ns) ≡ first
    unfolding path_of first_way
    path_of-first_way first [] path walk same = absurd walk
    path_of-first_way first (n ∷ ns) path walk same =
        let read : map some (n ∷ ns) ≡ first.nodes =
          sym (map-nodes g (n ∷ ns) (walk.2, walk.3)) ∙ ap (map g.nodes) same ∙ sym path.nodes in
        ap (λ t. record first { nodes = t }) read

    alternatives_to-Yields :
        (k max_spur_nodes : ℕ) (first : PathResult f) (n : Node f)
        → 0 < k
        → primary ≡ found first
        → g.nodes start ≡ some n
        → IsBidirPath g (open_goal (plain pq sort_slice g p) goal) start goal first
        → Yields
            (AreAlternatives k)
            (alternatives_to f pq sort_slice g p goal k max_spur_nodes first)
    unfolding alternatives_to first_way
    alternatives_to-Yields k max_spur_nodes first n positive hit there path =
        if_cases (Yields (AreAlternatives k)) (k == 1 || ltb (length first.nodes) 3)
          (λ _. (
            first,
            hit,
            path,
            record {
              others = [];
              led = refl;
              routes = tt;
              distinct = ((λ i. i), tt);
              few = omega arith;
            },
          ))
          λ _. rw path.nodes (
            Yields-bind
              (λ ns. IsWalk g start goal ns × (node_ids g ns ≡ start ∷ edge_ends g first.edges))
              (AreAlternatives k) (read_nodes f (map g.nodes (start ∷ edge_ends g first.edges))) _
              (read_nodes-IsWalk g (open_goal (plain pq sort_slice g p) goal) own start goal n
                first.edges there path.route)
              (λ ns h.
                Yields-bind
                  (IsChosen ordered pq sort_slice sort_perm g p start goal (first_way first ns)
                    (1 + (k - 1)))
                  (AreAlternatives k)
                  (yen_loop f pq sort_slice g p goal max_spur_nodes (k - 1)
                    (first_way first ns ∷ []) (first_way first ns)
                    (record {
                      seen = insert_text (path_signature f ns) (λ text. false);
                      candidates = [];
                    }))
                  _
                  (yen_loop-Yields ordered pq sort_slice sort_perm g p start goal own keys
                    (first_way first ns) max_spur_nodes (k - 1) (first_way first ns ∷ []) []
                    (first_way first ns) _ refl tt h.0
                    (record {
                      ways = tt;
                      all_seen = (rw (same_text_self (path_signature f ns)) refl, tt);
                      distinct = ((λ i. i), tt);
                    }))
                  (λ ws c. (
                    first,
                    hit,
                    path,
                    AreChosen-le ws (1 + (k - 1)) k first (omega arith) (
                        rw (path_of-first_way first ns path h.0 h.1) at
                          (IsChosen-paths (first_way first ns) (1 + (k - 1)) ws c)),
                  ))))

    after_search :
        (k max_spur_nodes : ℕ) (r : Found (PathResult f))
        → 0 < k
        → primary ≡ r
        → BidirEnds pq g (plain pq sort_slice g p) start goal r
        → Yields (AreAlternatives k) (elim r [
          | out_of_fuel ↦ none
          | failed e ↦ some (err e)
          | found first ↦ alternatives_to f pq sort_slice g p goal k max_spur_nodes first
        ])
    after_search k max_spur_nodes out_of_fuel positive hit ends = absurd ends
    after_search k max_spur_nodes (failed e) positive hit ends = hit
    after_search k max_spur_nodes (found first) positive hit ends =
        elim (Option-cases (g.nodes start)) [
          | inl missing ↦ absurd (
              rw hit at (
                bi_a_star-IsFailed pq g (plain pq sort_slice g p)
                  (bidir_fuel f pq g (plain pq sort_slice g p)) start goal missing))
          | inr (n, there) ↦ alternatives_to-Yields k max_spur_nodes first n positive hit there ends
        ]

    -- With every node under its own id and every key of the map of nodes in `ids`, no search of
    -- KFastestPaths runs out of the fuel of the model and no nil node is read. It gives the error of
    -- the search for the primary path, or that path, which is a route of the graph to the goal, and
    -- after it paths from the start to the goal over edges of the graph that the profile lets pass,
    -- each with the sums of distance and time along it: k paths at most, one where k is 0, and no
    -- two with the same nodes. What sort.Slice gives is assumed to be a permutation of its argument.
    pub k_fastest_paths-Yields :
        (k max_spur_nodes : ℕ)
        → Yields
            (AreAlternatives (if k == 0 then 1 else k))
            (k_fastest_paths f pq sort_slice g p start goal k max_spur_nodes)
    unfolding k_fastest_paths
    k_fastest_paths-Yields k max_spur_nodes =
        after_search (if k == 0 then 1 else k) max_spur_nodes primary (ground arith) refl
          (bi_a_star-Ends pq g (plain pq sort_slice g p) ordered start goal keys)
