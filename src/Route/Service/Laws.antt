-- ===== src/Route/Service/Laws.antt =====
-- What a call of CalculateWithMeta leaves: slots given back, and records of answered requests only.
use geo.Base.{Bool, Option, some, ◌≡◌, ◌⊎◌, refl, inl, inr, none, String, Option-cases}
use geo.Base.Int.{ℤ}
use geo.Base.Float.{Float}
use geo.Base.Result.{Result, ok, err}
use geo.Route.Model.{RouteError, RouteRequest, RouteResponse}
use geo.Route.Backends.{Asked, RouteBackend, Slots, Waited}
use geo.Route.Service.{
  route_key_with_precision, RouteKey, RouteService, set_trip_route, persist_route, calculate_mode,
  calculate_with_meta, cached_route, TransportMode, normalize_mode, route_mode, mode_name,
  normalize_alternatives,
}
use geo.Route.Service.Kept.{Kept-trans, set_trip_route-Kept, persist_route-Kept, Silent}
use geo.Route.Service.Missed.{IsMissed, Computed, calculate_limited-IsMissed}

module _ {f : Float} {W : Type 0} (b : RouteBackend f W) (waits : (s : Slots) → Waited s)
    (answers : Bool) (shared : Option (Result RouteError (RouteResponse f))) where
  -- A request with the same ends, for some mode and number of routes.
  abbrev pub SameEnds : RouteRequest f → Asked f → Type 0
  SameEnds req asked =
      (asked.start_lat ≡ req.start_lat)
      × (asked.start_lng ≡ req.start_lng)
      × (asked.end_lat ≡ req.end_lat)
      × (asked.end_lng ≡ req.end_lng)

  -- The key under which the route is cached.
  abbrev pub key_of : (ℤ → f.F → String) → RouteService f W → Asked f → RouteKey
  key_of format s asked =
      route_key_with_precision format b.backend_name (mode_name asked.mode) asked.alternatives
        s.cache_precision asked

  -- What a call of CalculateWithMeta is, in each case of its outcome.
  abbrev pub IsCalculated :
      (ℤ → f.F → String)
      → RouteRequest f
      → RouteService f W
      → RouteService f W × Result RouteError (RouteResponse f)
      → Type 0
  IsCalculated format req s (s', err e) = (s'.sem ≡ s.sem) × Silent s s'
  IsCalculated format req s (s', ok resp) =
      (s'.sem ≡ s.sem)
      × ((asked : Asked f) × SameEnds req asked
          × (((cached_route answers (key_of format s asked) s ≡ some resp)
                × (s'.routes ≡ s.routes)
                × (s'.backend ≡ s.backend))
              ⊎ (Computed b waits answers shared s asked resp ⊎ (shared ≡ some (ok resp)))))

  missed-IsCalculated :
      (format : ℤ → f.F → String) (req : RouteRequest f) (asked : Asked f) (s : RouteService f W)
      (step : RouteService f W × Result RouteError (RouteResponse f))
      → SameEnds req asked
      → IsMissed b waits answers shared s asked step
      → IsCalculated format req s step
  missed-IsCalculated format req asked s (s', ok resp) ends (sem, from) =
      (sem, (asked, ends, inr from))
  missed-IsCalculated format req asked s (s', err e) ends h = h

  cached_lem :
      (format : ℤ → f.F → String) (req : RouteRequest f) (asked : Asked f) (s : RouteService f W)
      (missed : RouteService f W × Result RouteError (RouteResponse f))
      (found : Option (RouteResponse f))
      → SameEnds req asked
      → cached_route answers (key_of format s asked) s ≡ found
      → IsCalculated format req s missed
      → IsCalculated format req s (elim found [
        | some cached ↦ (persist_route req cached (set_trip_route answers req cached s), ok cached)
        | none ↦ missed
      ])
  cached_lem format req asked s missed none ends same h = h
  cached_lem format req asked s missed (some resp) ends same h =
      let kept =
        Kept-trans s _ _ (set_trip_route-Kept answers req resp s)
          (persist_route-Kept req resp (set_trip_route answers req resp s)) in
      (kept.sem, (asked, ends, inl (same, kept.routes, kept.backend)))

  calculate_mode-IsCalculated :
      (format : ℤ → f.F → String) (req : RouteRequest f) (mode : TransportMode)
      (s : RouteService f W)
      → IsCalculated format req s (calculate_mode b waits answers shared format req mode s)
  unfolding calculate_mode
  calculate_mode-IsCalculated format req mode s =
      let asked : Asked f = record {
        mode = mode;
        alternatives = normalize_alternatives req.alternatives s.max_alternatives;
        start_lat = req.start_lat;
        start_lng = req.start_lng;
        end_lat = req.end_lat;
        end_lng = req.end_lng;
      } in
      cached_lem format req asked s _ _ (refl, refl, refl, refl) refl
        (missed-IsCalculated format req asked s _ (refl, refl, refl, refl)
          (calculate_limited-IsMissed b waits answers shared req (key_of format s asked) asked s))

  -- Whatever happens, the slots in use are as many after the call as before it. An answer is that of
  -- the cache under the key of the ends that were asked for, which leaves the cache and the backend
  -- alone; or the backend's for those ends; or that of the call that singleflight shares. A call that
  -- ends in an error caches, saves and publishes nothing.
  pub calculate_with_meta-IsCalculated :
      (format : ℤ → f.F → String) (fold : String → String) (req : RouteRequest f)
      (s : RouteService f W)
      → IsCalculated format req s (calculate_with_meta b waits answers shared format fold req s)
  unfolding calculate_with_meta
  calculate_with_meta-IsCalculated format fold req s =
      elim (Option-cases (normalize_mode (fold (route_mode f req)))) [
        | inl unknown ↦
            rw (unknown, calculate_with_meta)
              (refl, record { routes = refl; trips = refl; saved = refl; published = refl })
        | inr (mode, known) ↦
            rw (known, calculate_with_meta) (calculate_mode-IsCalculated format req mode s)
      ]
