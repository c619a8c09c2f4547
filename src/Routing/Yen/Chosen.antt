-- ===== src/Routing/Yen/Chosen.antt =====
-- The alternatives that are returned: few enough, each a path of its own.

use mathlib.Core.List.{map-append, append_assoc, Permᴰ}
use mathlib.Core.List.Permᴰ
use geo.Base.{
  ℕ, zero, suc, ◌+◌, ◌≤◌, ◌≡◌, ap, ◌∙◌, List, [], ◌∷◌, ◌++◌, map, Option, none, some, In, All,
  Distinct, Yields, Yields-bind, inl, inr, Bool, true, arith, length, length-append, List-cases,
}
use geo.Base.Every.{All-append, All-Permᴰ, Distinct-Permᴰ, Distinct-append_left}
use geo.Base.Float.{Float, IsOrdered}
use geo.Routing.Graph.{Node, Graph}
use geo.Routing.Heap.{PriorityQueue}
use geo.Routing.Yen.{
  Profile, Way, Spurs, path_signature, spur_end, spur_loop, yen_loop, comes_before,
}
use geo.Routing.Yen.Walk.{HasOwnIds, IsWalk}
use geo.Routing.Yen.Combine.{IsWay}
use geo.Routing.Yen.Candidates.{IsSpurs, signatures, spur_loop-Yields}

spur_end-le : (max_spur_nodes count : ℕ) → spur_end max_spur_nodes count ≤ count
unfolding spur_end
spur_end-le max_spur_nodes count = ground arith

module _ {f : Float} (ordered : IsOrdered f) (pq : PriorityQueue f)
    (sort_slice : (Way f → Way f → Bool) → List (Way f) → List (Way f))
    (sort_perm : (less : Way f → Way f → Bool) (ws : List (Way f)) → Permᴰ ws (sort_slice less ws))
    (g : Graph f) (p : Profile f) (start goal : ℕ) where
  -- At most `k` paths, the first of them `first`, and no two with the same signature.
  pub record IsChosen (first : Way f) (k : ℕ) (ws : List (Way f)) : Type 0 where
    pub others : List (Way f)
    pub led : ws ≡ first ∷ others
    pub ways : All (IsWay pq sort_slice g p start goal) others
    pub distinct : Distinct (signatures ordered pq sort_slice g p start goal ws)
    pub few : length ws ≤ k

  abbrev Known : List (Way f) → Spurs f → Type 0
  Known accepted s =
      IsSpurs ordered pq sort_slice g p start goal
        (signatures ordered pq sort_slice g p start goal accepted) s

  -- The first of the sorted candidates is accepted.
  accept-Known :
      (accepted cands rest : List (Way f)) (best : Way f) (s : Spurs f)
      → s.candidates ≡ cands
      → sort_slice (comes_before f) cands ≡ best ∷ rest
      → Known accepted s
      → Known (accepted ++ best ∷ []) (record s { candidates = rest })
        × IsWay pq sort_slice g p start goal best
  accept-Known accepted cands rest best s here sorted i =
      let sig = λ (w : Way f). path_signature f w.nodes in
      let order : Permᴰ s.candidates (best ∷ rest) =
        rw here (rw sorted at (sort_perm (comes_before f) cands)) in
      let all = All-Permᴰ (IsWay pq sort_slice g p start goal) order i.ways in
      let moved = Permᴰ.append_left (map sig accepted) (Permᴰ.map sig order) in
      let same : map sig (accepted ++ best ∷ []) ++ map sig rest
          ≡ map sig accepted ++ map sig (best ∷ rest) =
        ap (λ t. t ++ map sig rest) (map-append sig accepted (best ∷ []))
        ∙ append_assoc (map sig accepted) (sig best ∷ []) (map sig rest) in
      (
        record {
          ways = all.1;
          all_seen = rw same (All-Permᴰ (λ t. s.seen t ≡ true) moved i.all_seen);
          distinct = rw same (Distinct-Permᴰ moved i.distinct);
        },
        all.0,
      )

  Yields-le :
      (first : Way f) (k m : ℕ) (o : Option (List (Way f)))
      → k ≤ m
      → Yields (IsChosen first k) o
      → Yields (IsChosen first m) o
  Yields-le first k m none le h = h
  Yields-le first k m (some ws) le h = record {
    others = h.others;
    led = h.led;
    ways = h.ways;
    distinct = h.distinct;
    few = omega (arith, h.few);
  }

  module _ (own : HasOwnIds g) (keys : (v : ℕ) (n : Node f) → g.nodes v ≡ some n → In v g.ids)
      (first : Way f) where
    pub yen_loop-Yields :
        (max_spur_nodes left : ℕ) (accepted others : List (Way f)) (base : Way f) (s : Spurs f)
        → accepted ≡ first ∷ others
        → All (IsWay pq sort_slice g p start goal) others
        → IsWalk g start goal base.nodes
        → Known accepted s
        → Yields
            (IsChosen first (length accepted + left))
            (yen_loop f pq sort_slice g p goal max_spur_nodes left accepted base s)
    unfolding yen_loop
    yen_loop-Yields max_spur_nodes zero accepted others base s led ways walk i = record {
      others = others;
      led = led;
      ways = ways;
      distinct = Distinct-append_left _ _ i.distinct;
      few = omega arith;
    }
    yen_loop-Yields max_spur_nodes (suc left) accepted others base s led ways walk i =
        Yields-bind (Known accepted) (IsChosen first (length accepted + suc left))
          (spur_loop f pq sort_slice g p goal (length accepted) accepted base
            (spur_end max_spur_nodes (length base.nodes)) 0 s)
          _
          (spur_loop-Yields ordered pq sort_slice g p start goal own _ keys (length accepted)
            accepted base (spur_end max_spur_nodes (length base.nodes)) 0 s walk
            (omega (arith, spur_end-le max_spur_nodes (length base.nodes))) i)
          (λ next j. elim (List-cases next.candidates) [
            | inl no_more ↦ rw no_more (record {
              others = others;
              led = led;
              ways = ways;
              distinct = Distinct-append_left _ _ i.distinct;
              few = omega arith;
            })
            | inr (c, cs, some_left) ↦
                rw some_left (elim (List-cases (sort_slice (comes_before f) (c ∷ cs))) [
                  | inl lost ↦
                      absurd
                        (All-Permᴰ (λ w. ⊥)
                          (Permᴰ.symm (rw lost at (sort_perm (comes_before f) (c ∷ cs)))) tt).0
                  | inr (best, rest, sorted) ↦
                      let (known, way) =
                        accept-Known accepted (c ∷ cs) rest best next some_left sorted j in
                      rw sorted (
                        Yields-le first (length (accepted ++ best ∷ []) + left)
                          (length accepted + suc left)
                          (yen_loop f pq sort_slice g p goal max_spur_nodes left
                            (accepted ++ best ∷ []) best (record next { candidates = rest }))
                          (omega (arith, length-append accepted (best ∷ [])))
                          (yen_loop-Yields max_spur_nodes left (accepted ++ best ∷ [])
                            (others ++ best ∷ []) best (record next { candidates = rest })
                            (ap (λ t. t ++ best ∷ []) led)
                            (All-append (IsWay pq sort_slice g p start goal) others (best ∷ []) ways
                              (way, tt))
                            way.0 known))
                ])
          ])
