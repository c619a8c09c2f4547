-- ===== src/Routing/Engine/Answers.antt =====
-- What CalculateAlternativesCtx answers, and why an answer is empty.
use mathlib.Core.List.{Permᴰ}
use geo.Base.{ℕ, ◌≡◌, ◌⊎◌, List, [], ◌∷◌, Bool, true, none, some, if◌then◌else◌, ◌==◌, Option, In}
use geo.Base.Result.{ok, Result}
use geo.Base.Float.{Float, IsOrdered}
use geo.Routing.Graph.{Node, Graph}
use geo.Routing.Heap.{PriorityQueue}
use geo.Routing.AStar.{SearchError, PathResult, failed}
use geo.Routing.Profiles.{TransportMode, ModeProfile, profile}
use geo.Routing.Yen.{Profile, Way}
use geo.Routing.Yen.Walk.{HasOwnIds}
use geo.Routing.Yen.Ends.{AreAlternatives, primary}
use geo.Route.Model.{RoutePoint, Route}
use geo.Routing.Engine.{RoadEngine, Context, Instructor, k_fastest_paths}
use geo.Routing.Engine.Trips.{Shown, IsSnapped, IsFarOff, IsStraight, IsFlight, number}

module _ {f : Float} (ordered : IsOrdered f) (pq : PriorityQueue f)
    (sort_slice : (Way f → Way f → Bool) → List (Way f) → List (Way f))
    (sort_perm : (less : Way f → Way f → Bool) (ws : List (Way f)) → Permᴰ ws (sort_slice less ws))
    (build_instructions : Instructor f)
    (flight_arc : RoutePoint f → RoutePoint f → List (RoutePoint f)) (e : RoadEngine f)
    (ctx : Context f) (start end : RoutePoint f) where
  -- The request that the searches are made with.
  abbrev pub asked : ModeProfile f → Profile f
  asked p = record {
    edge_ok = some p.edge_allowed;
    speed_fn = p.edge_speed;
    heuristic_speed_kmh = p.heuristic_speed_kmh;
    done = ctx.done;
  }

  abbrev pub IsOne : (Route f → Type 0) → List (Route f) → Type 0
  IsOne P (r ∷ []) = P r
  IsOne P _ = ⊥

  module _ (mode : TransportMode) (k : ℕ) where
    abbrev most : ℕ
    most = let n = number start end k in if n == 0 then 1 else n

    -- What KFastestPaths answers between two nodes, asked for as many paths as `number` says.
    abbrev found :
        Graph f
        → ModeProfile f
        → Node f
        → Node f
        → Option (Result SearchError (List (PathResult f)))
    found g p s t =
        k_fastest_paths f pq sort_slice g (asked p) s.id t.id (number start end k) e.yen_spur_cap

    -- The answer is the one found, and is what KFastestPaths promises.
    abbrev Chosen :
        Graph f
        → ModeProfile f
        → Node f
        → Node f
        → Result SearchError (List (PathResult f))
        → Type 0
    Chosen g p s t answer =
        AreAlternatives ordered pq sort_slice sort_perm g (asked p) s.id t.id most answer
        × (found g p s t ≡ some answer)

    -- The routes show, each in its place, the paths between the two nodes that the ends are snapped
    -- to.
    pub record IsTrip (g : Graph f) (p : ModeProfile f) (routes : List (Route f)) : Type 0 where
      pub from_node : Node f
      pub to_node : Node f
      pub snapped_from : IsSnapped g p start from_node
      pub snapped_to : IsSnapped g p end to_node
      pub paths : List (PathResult f)
      pub chosen : Chosen g p from_node to_node (ok paths)
      pub shown : Shown build_instructions e start end mode paths routes

    -- Why there is no route.
    pub data IsDeclined (g : Graph f) : Type 0 where
      before : ctx.cancelled_before ≡ true → IsDeclined g
      after : ctx.cancelled_after ≡ true → IsDeclined g
      no_profile : profile f mode ≡ none → IsDeclined g
      no_start : (p : ModeProfile f) → profile f mode ≡ some p → IsFarOff g p start → IsDeclined g
      no_end : (p : ModeProfile f) → profile f mode ≡ some p → IsFarOff g p end → IsDeclined g
      no_route :
          (p : ModeProfile f) (s t : Node f) (reason : SearchError)
          → profile f mode ≡ some p
          → IsSnapped g p start s
          → IsSnapped g p end t
          → primary ordered pq sort_slice sort_perm g (asked p) s.id t.id ≡ failed reason
          → IsDeclined g

    abbrev pub IsAnswer : Graph f → List (Route f) → Type 0
    IsAnswer g routes =
        ((routes ≡ []) × IsDeclined g)
        ⊎ ((p : ModeProfile f) × (profile f mode ≡ some p) × IsTrip g p routes)

    -- What is answered for a mode on the ground.
    abbrev pub IsGroundAnswer : Option (Graph f) → List (Route f) → Type 0
    IsGroundAnswer none routes = IsOne (IsStraight e mode start end) routes
    IsGroundAnswer (some g) routes = IsAnswer g routes

    abbrev pub IsSound : Option (Graph f) → Type 0
    IsSound none = Unit
    IsSound (some g) = HasOwnIds g × ((v : ℕ) (n : Node f) → g.nodes v ≡ some n → In v g.ids)

  -- A request for k routes, one where k is 0, by a mode; the mode that is empty is that of a car.
  abbrev pub IsCalculated : Option TransportMode → ℕ → List (Route f) → Type 0
  IsCalculated none k routes =
      IsGroundAnswer TransportMode.car (if k == 0 then 1 else k) e.graph routes
  IsCalculated (some TransportMode.airplane) k routes = IsOne (IsFlight flight_arc start end) routes
  IsCalculated (some mode) k routes = IsGroundAnswer mode (if k == 0 then 1 else k) e.graph routes
