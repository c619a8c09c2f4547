-- ===== src/Routing/Snap/Nearest.antt =====
-- What the search through the grid answers: a nearest node among those it looks at.
use mathlib.Core.Path.{subst}
use mathlib.Core.Bool.{false≢true}
use geo.Base.{
  ◌≡◌, refl, sym, ap, ◌∙◌, ◌⊎◌, inl, inr, Bool, true, false, Option, some, List, [], ◌∷◌,
  Bool-cases, In, none,
}
use geo.Base.Float.{Float, IsOrdered}
use geo.Routing.Graph.{Node, Graph, Edge}
use geo.Routing.Snap.{
  scan, node_routable, distance_from, nodes_around, nearest_node_within, is_empty,
}

module _ {f : Float} (ordered : IsOrdered f) where
  module _ (ok : Node f → Bool) (dist : Node f → f.F) where
    -- The least distance that a scan from `best` ends with is one of an element or that of `best`.
    record Scanned (ns : List (Node f)) (best result : Option (Node f) × f.F) : Type 0 where
      lower : (m : Node f) → In m ns → ok m ≡ true → f.lt (dist m) result.1 ≡ false
      under : f.lt best.1 result.1 ≡ false
      origin :
          (result ≡ best) ⊎ ((n : Node f) × (result ≡ (some n, dist n)) × In n ns × (ok n ≡ true))

    taken-Scanned :
        (n : Node f) (ns : List (Node f)) (best result : Option (Node f) × f.F)
        → ok n ≡ true
        → f.lt (dist n) best.1 ≡ true
        → Scanned ns (some n, dist n) result
        → Scanned (n ∷ ns) best result
    taken-Scanned n ns best result fine closer r = record {
      lower = lower_of;
      under = ordered.le_trans _ _ _ r.under (ordered.le_of_lt _ _ closer);
      origin = elim r.origin [
        | inl same ↦ inr (n, same, inl refl, fine)
        | inr (m, e, place, okay) ↦ inr (m, e, inr place, okay)
      ];
    }
      where
        lower_of : (m : Node f) → In m (n ∷ ns) → ok m ≡ true → f.lt (dist m) result.1 ≡ false
        lower_of m (inl same) okay = ap (λ x. f.lt (dist x) result.1) (sym same) ∙ r.under
        lower_of m (inr later) okay = r.lower m later okay

    passed-Scanned :
        (n : Node f) (ns : List (Node f)) (best result : Option (Node f) × f.F)
        → (ok n ≡ true → f.lt (dist n) best.1 ≡ false)
        → Scanned ns best result
        → Scanned (n ∷ ns) best result
    passed-Scanned n ns best result farther r = record {
      lower = lower_of;
      under = r.under;
      origin = elim r.origin [
        | inl same ↦ inl same
        | inr (m, e, place, okay) ↦ inr (m, e, inr place, okay)
      ];
    }
      where
        lower_of : (m : Node f) → In m (n ∷ ns) → ok m ≡ true → f.lt (dist m) result.1 ≡ false
        lower_of m (inl same) okay =
            ap (λ x. f.lt (dist x) result.1) (sym same)
            ∙ ordered.le_trans _ _ _ r.under (farther (ap ok same ∙ okay))
        lower_of m (inr later) okay = r.lower m later okay

    scan-Scanned :
        (ns : List (Node f)) (best : Option (Node f) × f.F)
        → Scanned ns best (scan f ok dist ns best)
    unfolding scan
    scan-Scanned [] best = record {
      lower = λ m none_there okay. absurd none_there;
      under = ordered.lt_irrefl best.1;
      origin = inl refl;
    }
    scan-Scanned (n ∷ ns) best = elim (Bool-cases (ok n)) [
      | inr bad ↦ rw bad (
          passed-Scanned n ns best _ (λ okay. absurd (false≢true (sym bad ∙ okay)))
            (scan-Scanned ns best))
      | inl fine ↦ elim (Bool-cases (f.lt (dist n) best.1)) [
        | inl closer ↦
            rw (fine, closer)
              (taken-Scanned n ns best _ fine closer (scan-Scanned ns (some n, dist n)))
        | inr farther ↦
            rw (fine, farther) (passed-Scanned n ns best _ (λ okay. farther) (scan-Scanned ns best))
      ]
    ]

  module _ (g : Graph f) (lat lng max_km : f.F) (edge_ok : Option (Edge f → Bool)) where
    abbrev routable : Node f → Bool
    routable n = node_routable f g edge_ok n.id

    abbrev away : Node f → f.F
    away n = distance_from f lat lng n

    -- A node that is the answer lies in a cell around the point, is routable, is no farther than
    -- allowed, and no routable node of those cells is nearer. With no answer each of them is too far.
    abbrev pub IsNearest : Option (Node f) → Type 0
    IsNearest none =
        (m : Node f)
        → In m (nodes_around f g lat lng max_km)
        → routable m ≡ true
        → (f.lt (away m) f.max_float64 ≡ false) ⊎ (f.lt max_km (away m) ≡ true)
    IsNearest (some n) =
        In n (nodes_around f g lat lng max_km)
        × (routable n ≡ true)
        × (f.lt max_km (away n) ≡ false)
        × ((m : Node f)
            → In m (nodes_around f g lat lng max_km)
            → routable m ≡ true
            → f.lt (away m) (away n) ≡ false)

    too_far :
        (n m : Node f)
        → f.lt (away m) (away n) ≡ false
        → f.lt max_km (away n) ≡ true
        → f.lt max_km (away m) ≡ true
    too_far n m order far = elim (Bool-cases (f.lt max_km (away m))) [
      | inl beyond ↦ beyond
      | inr near ↦ absurd (false≢true (sym (ordered.le_trans _ _ _ order near) ∙ far))
    ]

    -- For a radius above zero and a graph with nodes: the node that the search gives is routable,
    -- lies in the cells around the point and within the radius, and none of the routable nodes there
    -- is nearer; where it gives none, each of them is beyond the radius, or at a distance that is no
    -- finite number.
    pub nearest_node_within-IsNearest :
        f.lt f.zero max_km ≡ true
        → is_empty g.ids ≡ false
        → IsNearest (nearest_node_within f g lat lng max_km edge_ok)
    unfolding nearest_node_within
    nearest_node_within-IsNearest wide full =
        let all = nodes_around f g lat lng max_km in
        let scanned = scan-Scanned routable away all (none, f.max_float64) in
        elim scanned.origin [
          | inl same ↦
              rw (wide, nearest_node_within, full, same)
                (λ m place okay.
                  inl (subst (λ b. f.lt (away m) b.1 ≡ false) same (scanned.lower m place okay)))
          | inr (n, e, place, okay) ↦
              let least : (m : Node f)
                  → In m all
                  → routable m ≡ true
                  → f.lt (away m) (away n) ≡ false =
                λ m there fine.
                  subst (λ b. f.lt (away m) b.1 ≡ false) e (scanned.lower m there fine) in
              elim (Bool-cases (f.lt max_km (away n))) [
                | inl far ↦
                    rw (wide, nearest_node_within, full, e, e, far)
                      (λ m there fine. inr (too_far n m (least m there fine) far))
                | inr near ↦
                    rw (wide, nearest_node_within, full, e, e, near) (place, okay, near, least)
              ]
        ]
