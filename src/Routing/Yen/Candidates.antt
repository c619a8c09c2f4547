-- ===== src/Routing/Yen/Candidates.antt =====
-- The spur loop: every candidate is a path to the goal, and none has been seen before.

use mathlib.Core.Bool.{false≢true}
use mathlib.Core.List.{map-append, append_assoc}
use geo.Base.{
  ℕ, zero, suc, ◌+◌, ◌≤◌, ◌<◌, ◌≡◌, refl, sym, ap, ◌∙◌, List, [], ◌∷◌, ◌++◌, map, Option, none,
  some, In, All, Distinct, Holds, Yields, Yields-bind, inl, inr, Bool, true, Bool-cases, ==_self,
  arith, length, get_elem?, get_elem?-some, take,
}
use geo.Base.Every.{All-append, All-In, All-take, Distinct-append_one}
use geo.Base.Float.{Float, IsOrdered}
use geo.Routing.Graph.{Node, Graph}
use geo.Routing.Heap.{PriorityQueue}
use geo.Routing.AStar.{Query, Found, found, failed, out_of_fuel, PathResult}
use geo.Routing.Bidir.{bi_a_star, bidir_fuel}
use geo.Routing.Bidir.Cases.{open_goal}
use geo.Routing.Bidir.Ends.{BidirEnds, bi_a_star-Ends}
use geo.Routing.Yen.{
  Profile, Way, Spurs, same_text, insert_text, path_signature, query, read_nodes, blocked_by,
  has_node, combine_root_and_spur, add_candidate, take_spur, try_spur, spur_loop,
}
use geo.Routing.Yen.Walk.{
  HasOwnIds, IsThere, IsWalk, node_ids, edge_ends, read_nodes-IsWalk, last_id-take,
  IsThere-get_elem?,
}
use geo.Routing.Yen.Combine.{IsWay, combine_root_and_spur-IsWay}

pub same_text_self : (t : List ℕ) → same_text t t ≡ true
same_text_self [] = refl
same_text_self (x ∷ t) = rw (==_self x, same_text_self t) refl

insert_text-All :
    (t : List ℕ) (seen : List ℕ → Bool) (ts : List (List ℕ))
    → All (λ x. seen x ≡ true) ts
    → All (λ x. insert_text t seen x ≡ true) ts
insert_text-All t seen [] h = tt
insert_text-All t seen (x ∷ ts) h = (ground (arith, h.0), insert_text-All t seen ts h.1)

module _ {f : Float} (ordered : IsOrdered f) (pq : PriorityQueue f)
    (sort_slice : (Way f → Way f → Bool) → List (Way f) → List (Way f)) (g : Graph f)
    (p : Profile f) (start goal : ℕ) where
  abbrev pub signatures : List (Way f) → List (List ℕ)
  signatures = map (λ (w : Way f). path_signature f w.nodes)

  -- `known` are the signatures of the accepted paths.
  pub record IsSpurs (known : List (List ℕ)) (s : Spurs f) : Type 0 where
    pub ways : All (IsWay pq sort_slice g p start goal) s.candidates
    pub all_seen : All (λ t. s.seen t ≡ true) (known ++ signatures s.candidates)
    pub distinct : Distinct (known ++ signatures s.candidates)

  add_candidate-IsSpurs :
      (known : List (List ℕ)) (total : Way f) (s : Spurs f)
      → IsWay pq sort_slice g p start goal total
      → IsSpurs known s
      → IsSpurs known (add_candidate f pq sort_slice g p total s)
  unfolding add_candidate
  add_candidate-IsSpurs known total s way i =
      let sig = path_signature f total.nodes in
      let old = known ++ signatures s.candidates in
      let longer : known ++ signatures (s.candidates ++ total ∷ []) ≡ old ++ sig ∷ [] =
        ap (◌++◌ known)
          (map-append (λ (w : Way f). path_signature f w.nodes) s.candidates (total ∷ []))
        ∙ sym (append_assoc known (signatures s.candidates) (sig ∷ [])) in
      elim (Bool-cases (s.seen sig)) [
        | inl again ↦ rw again i
        | inr new ↦ rw new (record {
          ways =
              All-append (IsWay pq sort_slice g p start goal) s.candidates (total ∷ []) i.ways
                (way, tt);
          all_seen = rw longer (
              All-append (λ t. insert_text sig s.seen t ≡ true) old (sig ∷ [])
                (insert_text-All sig s.seen old i.all_seen) (rw (same_text_self sig) refl, tt));
          distinct = rw longer (
              Distinct-append_one old sig i.distinct (λ again.
                false≢true (sym new ∙ All-In (λ t. s.seen t ≡ true) sig old i.all_seen again)));
        })
      ]

  module _ (own : HasOwnIds g) (known : List (List ℕ)) where
    take_spur-Yields :
        (spur_id : ℕ) (q : Query f) (n : Node f) (root : List (Node f)) (s : Spurs f)
        (r : Found (PathResult f))
        → g.nodes spur_id ≡ some n
        → IsWalk g start spur_id root
        → BidirEnds pq g q spur_id goal r
        → IsSpurs known s
        → Yields (IsSpurs known) (take_spur f pq sort_slice g p root r s)
    unfolding take_spur
    take_spur-Yields spur_id q n root s out_of_fuel there walk ends i = absurd ends
    take_spur-Yields spur_id q n root s (failed e) there walk ends i = i
    take_spur-Yields spur_id q n root s (found spur) there walk ends i = rw ends.nodes (
        Yields-bind
          (λ ns. IsWalk g spur_id goal ns × (node_ids g ns ≡ spur_id ∷ edge_ends g spur.edges))
          (IsSpurs known) (read_nodes f (map g.nodes (spur_id ∷ edge_ends g spur.edges))) _
          (read_nodes-IsWalk g (open_goal q goal) own spur_id goal n spur.edges there ends.route)
          (λ ns h.
            combined (combine_root_and_spur f pq sort_slice g p root ns)
              (combine_root_and_spur-IsWay pq sort_slice g p start spur_id goal root ns walk h.0)))
      where
        combined :
            (o : Option (Way f))
            → Holds (IsWay pq sort_slice g p start goal) o
            → IsSpurs known
                (elim o [ none ↦ s | some total ↦ add_candidate f pq sort_slice g p total s ])
        combined none h = i
        combined (some total) h = add_candidate-IsSpurs known total s h i

    -- The nodes of `base` up to a position lead to the node there.
    IsWalk-take :
        (ns : List (Node f)) (i : ℕ) (m : Node f)
        → IsWalk g start goal ns
        → get_elem? ns i ≡ some m
        → IsWalk g start m.id (take (suc i) ns)
    IsWalk-take [] i m walk h = absurd walk
    IsWalk-take (n ∷ ns) i m walk h =
        (walk.0, last_id-take g n m ns i h, walk.2, All-take (IsThere g) i ns walk.3)

    IsThere-walk :
        (ns : List (Node f)) (i : ℕ) (m : Node f)
        → IsWalk g start goal ns
        → get_elem? ns i ≡ some m
        → IsThere g m
    IsThere-walk [] i m walk h = absurd walk
    IsThere-walk (n ∷ ns) i m walk h = IsThere-get_elem? g (n ∷ ns) i m (walk.2, walk.3) h

    module _ (keys : (v : ℕ) (n : Node f) → g.nodes v ≡ some n → In v g.ids) where
      try_spur-Yields :
          (round : ℕ) (accepted : List (Way f)) (base : Way f) (spur_idx : ℕ) (s : Spurs f)
          → IsWalk g start goal base.nodes
          → spur_idx < length base.nodes
          → IsSpurs known s
          → Yields
              (IsSpurs known)
              (try_spur f pq sort_slice g p goal round accepted base spur_idx s)
      unfolding try_spur
      try_spur-Yields round accepted base spur_idx s walk inside i =
          let (m, at_spur) = get_elem?-some base.nodes spur_idx inside in
          let q =
            query f p (blocked_by f spur_idx (take (suc spur_idx) base.nodes) accepted)
              (has_node f (take spur_idx base.nodes)) round spur_idx in
          rw (at_spur, try_spur)
            (take_spur-Yields m.id q m (take (suc spur_idx) base.nodes) s
              (bi_a_star f pq g q (bidir_fuel f pq g q) m.id goal)
              (IsThere-walk base.nodes spur_idx m walk at_spur)
              (IsWalk-take base.nodes spur_idx m walk at_spur)
              (bi_a_star-Ends pq g q ordered m.id goal keys) i)

      pub spur_loop-Yields :
          (round : ℕ) (accepted : List (Way f)) (base : Way f) (left spur_idx : ℕ) (s : Spurs f)
          → IsWalk g start goal base.nodes
          → spur_idx + left ≤ length base.nodes
          → IsSpurs known s
          → Yields
              (IsSpurs known)
              (spur_loop f pq sort_slice g p goal round accepted base left spur_idx s)
      unfolding spur_loop
      spur_loop-Yields round accepted base zero spur_idx s walk inside i = i
      spur_loop-Yields round accepted base (suc left) spur_idx s walk inside i =
          Yields-bind (IsSpurs known) (IsSpurs known)
            (try_spur f pq sort_slice g p goal round accepted base spur_idx s) _
            (try_spur-Yields round accepted base spur_idx s walk (omega arith) i)
            (λ next j.
              spur_loop-Yields round accepted base left (suc spur_idx) next walk (omega arith) j)
