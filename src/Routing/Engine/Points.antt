-- ===== src/Routing/Engine/Points.antt =====
-- The points of a route: they begin at the start, lead to the end, and no two in a row are close.
use geo.Base.{◌≡◌, refl, ◌⊎◌, inl, inr, List, [], ◌∷◌, true, false, Bool-cases}
use geo.Base.Float.{Float}
use geo.Routing.Graph.{Node}
use geo.Route.Model.{RoutePoint}
use geo.Routing.Engine.{same_place, append_point, append_nodes, points_of, place_of}

module _ {f : Float} where
  abbrev pub IsSpaced : List (RoutePoint f) → Type 0
  IsSpaced [] = Unit
  IsSpaced (p ∷ []) = Unit
  IsSpaced (p ∷ r ∷ points) = (same_place f p r ≡ false) × IsSpaced (r ∷ points)

  abbrev pub BeginsAt : RoutePoint f → List (RoutePoint f) → Type 0
  BeginsAt p [] = ⊥
  BeginsAt p (r ∷ points) = r ≡ p

  -- The last point is `p`, or `p` is close to it.
  abbrev pub EndsAt : RoutePoint f → List (RoutePoint f) → Type 0
  EndsAt p [] = ⊥
  EndsAt p (r ∷ []) = (r ≡ p) ⊎ (same_place f r p ≡ true)
  EndsAt p (r ∷ x ∷ points) = EndsAt p (x ∷ points)

  append_point-IsSpaced :
      (points : List (RoutePoint f)) (p : RoutePoint f)
      → IsSpaced points
      → IsSpaced (append_point f points p)
  unfolding append_point
  append_point-IsSpaced [] p h = tt
  append_point-IsSpaced (x ∷ []) p h = elim (Bool-cases (same_place f x p)) [
    | inl near ↦ rw near tt
    | inr apart ↦ rw apart (apart, tt)
  ]
  append_point-IsSpaced (x ∷ y ∷ []) p h = elim (Bool-cases (same_place f y p)) [
    | inl near ↦ rw near h
    | inr apart ↦ rw apart (h.0, (apart, tt))
  ]
  append_point-IsSpaced (x ∷ y ∷ z ∷ points) p h =
      (h.0, append_point-IsSpaced (y ∷ z ∷ points) p h.1)

  append_point-BeginsAt :
      (s : RoutePoint f) (points : List (RoutePoint f)) (p : RoutePoint f)
      → BeginsAt s points
      → BeginsAt s (append_point f points p)
  unfolding append_point
  append_point-BeginsAt s [] p h = absurd h
  append_point-BeginsAt s (x ∷ []) p h = elim (Bool-cases (same_place f x p)) [
    | inl near ↦ rw near h
    | inr apart ↦ rw apart h
  ]
  append_point-BeginsAt s (x ∷ y ∷ points) p h = h

  append_point-EndsAt :
      (points : List (RoutePoint f)) (p : RoutePoint f) → EndsAt p (append_point f points p)
  unfolding append_point
  append_point-EndsAt [] p = inl refl
  append_point-EndsAt (x ∷ []) p = elim (Bool-cases (same_place f x p)) [
    | inl near ↦ rw near (inr near)
    | inr apart ↦ rw apart (inl refl)
  ]
  append_point-EndsAt (x ∷ y ∷ []) p = elim (Bool-cases (same_place f y p)) [
    | inl near ↦ rw near (inr near)
    | inr apart ↦ rw apart (inl refl)
  ]
  append_point-EndsAt (x ∷ y ∷ z ∷ points) p = append_point-EndsAt (y ∷ z ∷ points) p

  pub record IsOutline (start end : RoutePoint f) (points : List (RoutePoint f)) : Type 0 where
    pub spaced : IsSpaced points
    pub begins : BeginsAt start points
    pub ends : EndsAt end points

  append_nodes-lem :
      (s : RoutePoint f) (points : List (RoutePoint f)) (ns : List (Node f))
      → IsSpaced points
      → BeginsAt s points
      → IsSpaced (append_nodes f points ns) × BeginsAt s (append_nodes f points ns)
  unfolding append_nodes
  append_nodes-lem s points [] spaced begins = (spaced, begins)
  append_nodes-lem s points (n ∷ ns) spaced begins =
      append_nodes-lem s (append_point f points (place_of f n)) ns
        (append_point-IsSpaced points (place_of f n) spaced)
        (append_point-BeginsAt s points (place_of f n) begins)

  pub points_of-IsOutline :
      (start : RoutePoint f) (ns : List (Node f)) (end : RoutePoint f)
      → IsOutline start end (points_of f start ns end)
  unfolding points_of
  points_of-IsOutline start ns end =
      let first = append_point f [] start in
      let so_far =
        append_nodes-lem start first ns (append_point-IsSpaced [] start tt)
          (unfold append_point in refl) in
      record {
        spaced = append_point-IsSpaced (append_nodes f first ns) end so_far.0;
        begins = append_point-BeginsAt start (append_nodes f first ns) end so_far.1;
        ends = append_point-EndsAt (append_nodes f first ns) end;
      }
