-- ===== src/Route/Service/Kept.antt =====
-- What the records of an answer leave alone.
use geo.Base.{Bool, ◌&&◌, ◌≡◌, ◌∙◌, if_cases, refl}
use geo.Base.Int.{ℤ, is_pos}
use geo.Base.Float.{Float}
use geo.Route.Model.{RouteRequest, RouteResponse}
use geo.Route.Service.{RouteService, set_trip_route, persist_route, publish_route_calculated}

module _ {f : Float} {W : Type 0} where
  -- The slots, the cached routes and the backend are as they were.
  pub record Kept (s s' : RouteService f W) : Type 0 where
    pub sem : s'.sem ≡ s.sem
    pub routes : s'.routes ≡ s.routes
    pub backend : s'.backend ≡ s.backend

  Kept-refl : (s : RouteService f W) → Kept s s
  Kept-refl s = record { sem = refl; routes = refl; backend = refl }

  pub Kept-trans : (r s t : RouteService f W) → Kept r s → Kept s t → Kept r t
  Kept-trans r s t h k = record {
    sem = k.sem ∙ h.sem;
    routes = k.routes ∙ h.routes;
    backend = k.backend ∙ h.backend;
  }

  pub set_trip_route-Kept :
      (answers : Bool) (req : RouteRequest f) (resp : RouteResponse f) (s : RouteService f W)
      → Kept s (set_trip_route answers req resp s)
  unfolding set_trip_route
  set_trip_route-Kept answers req resp s =
      if_cases (Kept s) (s.redis && answers && is_pos req.trip_id)
        (λ _. record { sem = refl; routes = refl; backend = refl }) (λ _. Kept-refl s)

  pub persist_route-Kept :
      (req : RouteRequest f) (resp : RouteResponse f) (s : RouteService f W)
      → Kept s (persist_route req resp s)
  unfolding persist_route
  persist_route-Kept req resp s =
      if_cases (Kept s) s.has_repo (λ _. record { sem = refl; routes = refl; backend = refl })
        (λ _. Kept-refl s)

  pub publish_route_calculated-Kept :
      (trip_id : ℤ) (resp : RouteResponse f) (s : RouteService f W)
      → Kept s (publish_route_calculated trip_id resp s)
  unfolding publish_route_calculated
  publish_route_calculated-Kept trip_id resp s =
      if_cases (Kept s) (is_pos trip_id && s.has_bus)
        (λ _. record { sem = refl; routes = refl; backend = refl }) (λ _. Kept-refl s)

  -- Nothing is recorded: no route, no route of a trip, no save and no event.
  pub record Silent (s s' : RouteService f W) : Type 0 where
    pub routes : s'.routes ≡ s.routes
    pub trips : s'.trips ≡ s.trips
    pub saved : s'.saved ≡ s.saved
    pub published : s'.published ≡ s.published
