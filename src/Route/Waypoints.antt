-- ===== src/Route/Waypoints.antt =====
-- internal/route/multi_service.go: the order in which the waypoints of a route are visited.
pub mod Order
use geo.Base.{
  ℕ, zero, suc, List, [], ◌∷◌, ◌++◌, Option, none, some, String, get_elem?, if◌then◌else◌, length,
}
use geo.Base.Float.{Float}
use geo.Routing.Snap.{haversine}

-- Waypoint
pub record Waypoint (f : Float) : Type 0 where
  pub lat : f.F
  pub lng : f.F
  pub label : String

-- `append(remaining[:i], remaining[i+1:]...)`
abbrev pub erase_idx {ℓ} : {A : Type ℓ} → List A → ℕ → List A
erase_idx [] i = []
erase_idx (x ∷ xs) zero = xs
erase_idx (x ∷ xs) (suc i) = x ∷ erase_idx xs i

module _ (f : Float) where
  abbrev pub distance : Waypoint f → Waypoint f → f.F
  distance a b = haversine f a.lat a.lng b.lat b.lng

  -- The inner loop from `i` on; its argument is remaining[i:].
  pub nearest_loop : Waypoint f → ℕ → List (Waypoint f) → ℕ → f.F → ℕ
  nearest_loop current i [] best_idx best_dist = best_idx
  nearest_loop current i (w ∷ ws) best_idx best_dist =
      let dist = distance current w in
      let closer = f.lt dist best_dist in
      nearest_loop current (suc i) ws (if closer then i else best_idx)
        (if closer then dist else best_dist)

  -- The outer loop, on fuel; an index out of range gives none as well.
  pub order_loop :
      ℕ → List (Waypoint f) → Waypoint f → List (Waypoint f) → Option (List (Waypoint f))
  order_loop fuel ordered current [] = some ordered
  order_loop zero ordered current (w ∷ ws) = none
  order_loop (suc fuel) ordered current (w ∷ ws) =
      let best_idx = nearest_loop current 1 ws 0 (distance current w) in
      elim (get_elem? (w ∷ ws) best_idx) [
        | none ↦ none
        | some next ↦ order_loop fuel (ordered ++ next ∷ []) next (erase_idx (w ∷ ws) best_idx)
      ]

  -- orderWaypointsNearestNeighbor
  pub order_waypoints_nearest_neighbor : List (Waypoint f) → Option (List (Waypoint f))
  order_waypoints_nearest_neighbor [] = some []
  order_waypoints_nearest_neighbor (w ∷ ws) = order_loop (length ws) (w ∷ []) w ws
