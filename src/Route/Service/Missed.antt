-- ===== src/Route/Service/Missed.antt =====
-- A call of CalculateWithMeta that finds no route in the cache.
use geo.Base.{
  Bool, Option, some, ◌&&◌, ◌≡◌, ◌∙◌, if_cases, ◌⊎◌, refl, inl, inr, ap, arith, sym, none,
}
use geo.Base.Float.{Float}
use geo.Base.Result.{Result, ok, err}
use geo.Route.Model.{RouteError, RouteRequest, RouteResponse, overloaded, timeout}
use geo.Route.Backends.{
  Asked, RouteComputeResult, RouteBackend, compute_route_result, Slots, Waited, slot, free_slot,
  take_slot, timer, done,
}
use geo.Route.Service.{
  RouteKey, RouteService, set_trip_route, persist_route, publish_route_calculated, set_route,
  compute_and_cache, calculate_missed, with_slots, calculate_limited,
}
use geo.Route.Service.Kept.{
  set_trip_route-Kept, persist_route-Kept, publish_route_calculated-Kept, Silent,
}

module _ {f : Float} {W : Type 0} (b : RouteBackend f W) (waits : (s : Slots) → Waited s)
    (answers : Bool) (shared : Option (Result RouteError (RouteResponse f))) where
  -- The backend gave this route.
  abbrev pub Computed : RouteService f W → Asked f → RouteResponse f → Type 0
  Computed s asked resp =
      (r : RouteComputeResult f) × ((compute_route_result b s.backend asked).1 ≡ ok r)
      × (r.response ≡ resp)

  -- A call that had no route in the cache: slots as before; an answer is the backend's or another
  -- call's, and an error records nothing.
  abbrev pub IsMissed :
      RouteService f W → Asked f → RouteService f W × Result RouteError (RouteResponse f) → Type 0
  IsMissed s asked (s', ok resp) =
      (s'.sem ≡ s.sem) × (Computed s asked resp ⊎ (shared ≡ some (ok resp)))
  IsMissed s asked (s', err e) = (s'.sem ≡ s.sem) × Silent s s'

  abbrev IsOwn :
      RouteService f W → Asked f → RouteService f W × Result RouteError (RouteResponse f) → Type 0
  IsOwn s asked (s', ok resp) = (s'.sem ≡ s.sem) × Computed s asked resp
  IsOwn s asked (s', err e) = (s'.sem ≡ s.sem) × Silent s s'

  set_route-sem :
      (key : RouteKey) (resp : RouteResponse f) (s : RouteService f W)
      → (set_route answers key resp s).sem ≡ s.sem
  unfolding set_route
  set_route-sem key resp s =
      if_cases (λ (s' : RouteService f W). s'.sem ≡ s.sem) (s.redis && answers) (λ _. refl)
        (λ _. refl)

  own_lem :
      (key : RouteKey) (asked : Asked f) (s : RouteService f W) (w : W)
      (r : Result RouteError (RouteComputeResult f))
      → (compute_route_result b s.backend asked).1 ≡ r
      → IsOwn s asked (elim r [
        | err e ↦ (record s { backend = w }, err e)
        | ok r ↦ (set_route answers key r.response (record s { backend = w }), ok r.response)
      ])
  own_lem key asked s w (err e) same =
      (refl, record { routes = refl; trips = refl; saved = refl; published = refl })
  own_lem key asked s w (ok r) same =
      (set_route-sem key r.response (record s { backend = w }), (r, same, refl))

  compute_and_cache-IsOwn :
      (key : RouteKey) (asked : Asked f) (s : RouteService f W)
      → IsOwn s asked (compute_and_cache b waits answers shared key asked s)
  unfolding compute_and_cache
  compute_and_cache-IsOwn key asked s =
      own_lem key asked s (compute_route_result b s.backend asked).0 _ refl

  own-IsMissed :
      (s : RouteService f W) (asked : Asked f)
      (step : RouteService f W × Result RouteError (RouteResponse f))
      → IsOwn s asked step
      → IsMissed s asked step
  own-IsMissed s asked (s', ok resp) (sem, computed) = (sem, inl computed)
  own-IsMissed s asked (s', err e) h = h

  shared-IsMissed :
      (s : RouteService f W) (asked : Asked f) (r : Result RouteError (RouteResponse f))
      → shared ≡ some r
      → IsMissed s asked (s, r)
  shared-IsMissed s asked (ok resp) same = (refl, inr same)
  shared-IsMissed s asked (err e) same =
      (refl, record { routes = refl; trips = refl; saved = refl; published = refl })

  recorded-IsMissed :
      (req : RouteRequest f) (asked : Asked f) (s s' : RouteService f W)
      (r : Result RouteError (RouteResponse f))
      → IsMissed s asked (s', r)
      → IsMissed s asked (elim r [
        | err e ↦ (s', err e)
        | ok resp ↦ (
          publish_route_calculated req.trip_id resp
              (persist_route req resp (set_trip_route answers req resp s')),
          ok resp,
        )
      ])
  recorded-IsMissed req asked s s' (err e) h = h
  recorded-IsMissed req asked s s' (ok resp) (sem, from) =
      let trip = set_trip_route answers req resp s' in
      let saved = persist_route req resp trip in
      (
        (publish_route_calculated-Kept req.trip_id resp saved).sem
            ∙ (persist_route-Kept req resp trip).sem
            ∙ (set_trip_route-Kept answers req resp s').sem
            ∙ sem,
        from,
      )

  either_lem :
      (req : RouteRequest f) (asked : Asked f) (s : RouteService f W)
      (own : RouteService f W × Result RouteError (RouteResponse f))
      (other_call : Option (Result RouteError (RouteResponse f)))
      → shared ≡ other_call
      → IsOwn s asked own
      → let step : RouteService f W × Result RouteError (RouteResponse f) = elim other_call [
        | none ↦ own
        | some r ↦ (s, r)
      ] in
        IsMissed s asked (elim step.1 [
          | err e ↦ (step.0, err e)
          | ok resp ↦ (
            publish_route_calculated req.trip_id resp
                (persist_route req resp (set_trip_route answers req resp step.0)),
            ok resp,
          )
        ])
  either_lem req asked s own none same h =
      recorded-IsMissed req asked s own.0 own.1 (own-IsMissed s asked own h)
  either_lem req asked s own (some r) same h =
      recorded-IsMissed req asked s s r (shared-IsMissed s asked r same)

  calculate_missed-IsMissed :
      (req : RouteRequest f) (key : RouteKey) (asked : Asked f) (s : RouteService f W)
      → IsMissed s asked (calculate_missed b waits answers shared req key asked s)
  unfolding calculate_missed
  calculate_missed-IsMissed req key asked s =
      either_lem req asked s _ shared refl (compute_and_cache-IsOwn key asked s)

  with_slots-IsMissed :
      (asked : Asked f) (s : RouteService f W) (held back : Option Slots)
      (step : RouteService f W × Result RouteError (RouteResponse f))
      → back ≡ s.sem
      → IsMissed (record s { sem = held }) asked step
      → IsMissed s asked (with_slots b waits answers shared back step)
  with_slots-IsMissed asked s held back (s', ok resp) given (sem, from) = (given, from)
  with_slots-IsMissed asked s held back (s', err e) given (sem, silent) = (
    given,
    record {
      routes = silent.routes;
      trips = silent.trips;
      saved = silent.saved;
      published = silent.published;
    },
  )

  waits_lem :
      (req : RouteRequest f) (key : RouteKey) (asked : Asked f) (s : RouteService f W)
      (slots : Slots)
      → s.sem ≡ some slots
      → (wait : Waited slots)
      → IsMissed s asked (elim wait [
        | slot free ↦ with_slots b waits answers shared (some (free_slot (take_slot slots))) (
            calculate_missed b waits answers shared req key asked
              (record s { sem = some (take_slot slots) }))
        | timer ↦ (s, err overloaded)
        | done ↦ (s, err timeout)
      ])
  waits_lem req key asked s slots same (slot free) =
      with_slots-IsMissed asked s (some (take_slot slots)) _ _
        (ap some (ap (λ n. record { capacity = slots.capacity; in_use = n }) (omega arith))
          ∙ sym same)
        (calculate_missed-IsMissed req key asked (record s { sem = some (take_slot slots) }))
  waits_lem req key asked s slots same timer =
      (refl, record { routes = refl; trips = refl; saved = refl; published = refl })
  waits_lem req key asked s slots same done =
      (refl, record { routes = refl; trips = refl; saved = refl; published = refl })

  sem_lem :
      (req : RouteRequest f) (key : RouteKey) (asked : Asked f) (s : RouteService f W)
      (sem : Option Slots)
      → s.sem ≡ sem
      → IsMissed s asked (elim sem [
        | none ↦ calculate_missed b waits answers shared req key asked s
        | some slots ↦ elim (waits slots) [
          | slot free ↦ with_slots b waits answers shared (some (free_slot (take_slot slots))) (
              calculate_missed b waits answers shared req key asked
                (record s { sem = some (take_slot slots) }))
          | timer ↦ (s, err overloaded)
          | done ↦ (s, err timeout)
        ]
      ])
  sem_lem req key asked s none same = calculate_missed-IsMissed req key asked s
  sem_lem req key asked s (some slots) same = waits_lem req key asked s slots same (waits slots)

  pub calculate_limited-IsMissed :
      (req : RouteRequest f) (key : RouteKey) (asked : Asked f) (s : RouteService f W)
      → IsMissed s asked (calculate_limited b waits answers shared req key asked s)
  unfolding calculate_limited
  calculate_limited-IsMissed req key asked s = sem_lem req key asked s s.sem refl
