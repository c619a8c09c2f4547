-- ===== src/Route/Backends.antt =====
-- internal/route/backend.go: the backends that compute routes, one wrapped in another. A backend
-- keeps a state `W`; a call of it is one step. Metrics and log lines are left out, and an error is
-- its class: the text around it is dropped.
pub mod Internal
pub mod Osrm
pub mod Laws
use geo.Base.{
  Option, none, some, String, ℕ, suc, ◌-◌, ltb, Bool, true, false, not, ◌&&◌, if◌then◌else◌, ◌<◌,
}
use geo.Base.Int.{ℤ}
use geo.Base.Float.{Float}
use geo.Base.Result.{Result, ok, err}
use geo.Routing.Profiles.{TransportMode}
use geo.Route.Model.{RouteError, overloaded, timeout, unavailable, other, RouteResponse}
use text.Mathlib.Text.{◌==◌ as str_eq}

-- The arguments of a call beside its context.
pub record Asked (f : Float) : Type 0 where
  pub mode : TransportMode
  pub alternatives : ℤ
  pub start_lat : f.F
  pub start_lng : f.F
  pub end_lat : f.F
  pub end_lng : f.F

-- RouteComputeResult
pub record RouteComputeResult (f : Float) : Type 0 where
  pub response : RouteResponse f
  pub backend : String

-- RouteBackend, with ComputeRouteResult and CanServeModeWithoutLoad where it has them.
pub record RouteBackend (f : Float) (W : Type 0) : Type 0 where
  pub backend_name : String
  pub compute_route : W → Asked f → W × Result RouteError (RouteResponse f)
  pub with_result : Option (W → Asked f → W × Result RouteError (RouteComputeResult f))
  pub can_serve_mode_without_load : Option (W → TransportMode → Bool)

-- The response alone: ComputeRoute of the backends that have ComputeRouteResult.
pub response_of {ℓ} :
    {f : Float} {W : Type ℓ}
    → W × Result RouteError (RouteComputeResult f)
    → W × Result RouteError (RouteResponse f)
response_of (w, ok r) = (w, ok r.response)
response_of (w, err e) = (w, err e)

module _ {f : Float} {W : Type 0} where
  -- computeRouteResult
  pub compute_route_result :
      RouteBackend f W → W → Asked f → W × Result RouteError (RouteComputeResult f)
  compute_route_result b w asked = elim b.with_result [
    | some compute ↦ compute w asked
    | none ↦
        let (w', answer) = b.compute_route w asked in
        elim answer [
          | ok resp ↦ (w', ok (record { response = resp; backend = b.backend_name }))
          | err e ↦ (w', err e)
        ]
  ]

-- A semaphore, chan struct{}: the slots in use, and how many there are.
pub record Slots : Type 0 where
  pub capacity : ℕ
  pub in_use : ℕ

-- How the wait for a slot ends: one is free, the timer fires, or the context is done.
pub data Waited (s : Slots) : Type 0 where
  slot : s.in_use < s.capacity → Waited s
  timer : Waited s
  done : Waited s

-- `case sem <- struct{}{}` and `<-sem`
abbrev pub take_slot : Slots → Slots
take_slot s = record s { in_use = suc s.in_use }

abbrev pub free_slot : Slots → Slots
free_slot s = record s { in_use = s.in_use - 1 }

-- LimitedBackend: the state of the backend it wraps, and its semaphore.
pub record Limited (W : Type 0) : Type 0 where
  pub inner : W
  pub sem : Option Slots

abbrev pub is_airplane : TransportMode → Bool
is_airplane TransportMode.airplane = true
is_airplane _ = false

module _ {f : Float} {W : Type 0} (b : RouteBackend f W) (name : String)
    (waits : (s : Slots) → Waited s) where
  -- The call of the wrapped backend, with the semaphore that it leaves.
  pub run_inner :
      Limited W → Option Slots → Asked f → Limited W × Result RouteError (RouteComputeResult f)
  run_inner l after asked =
      let (w, answer) = compute_route_result b l.inner asked in
      (record { inner = w; sem = after }, answer)

  -- ComputeRouteResult of LimitedBackend
  pub limited_result : Limited W → Asked f → Limited W × Result RouteError (RouteComputeResult f)
  unfolding run_inner
  limited_result l asked = elim l.sem [
    | none ↦ run_inner l none asked
    | some s ↦
        if str_eq name "internal" && is_airplane asked.mode
        then run_inner l (some s) asked
        else elim (waits s) [
          | slot free ↦ run_inner l (some (free_slot (take_slot s))) asked
          | timer ↦ (l, err overloaded)
          | done ↦ (l, err timeout)
        ]
  ]

  pub limited_ready : Limited W → TransportMode → Bool
  limited_ready l mode = elim b.can_serve_mode_without_load [
    | some ready ↦ ready l.inner mode
    | none ↦ true
  ]

  abbrev pub limited_backend : RouteBackend f (Limited W)
  unfolding limited_result limited_ready
  limited_backend = record {
    backend_name = b.backend_name;
    compute_route = λ l asked. response_of (limited_result l asked);
    with_result = some limited_result;
    can_serve_mode_without_load = some limited_ready;
  }

-- errors.Is with one of the four sentinels
abbrev pub is_classified : RouteError → Bool
is_classified other = false
is_classified _ = true

module _ {f : Float} {V W : Type 0} (primary : RouteBackend f V)
    (secondary : RouteBackend f W) where
  -- `ready, ok := b.secondary.(modeReadiness); ok && !ready.CanServeModeWithoutLoad(mode)`
  abbrev pub not_loaded : W → TransportMode → Bool
  not_loaded w mode = elim secondary.can_serve_mode_without_load [
    | none ↦ false
    | some ready ↦ not (ready w mode)
  ]

  -- ComputeRouteResult of FallbackBackend
  pub fallback_result : V × W → Asked f → (V × W) × Result RouteError (RouteComputeResult f)
  fallback_result (v, w) asked =
      let (v', answer) = compute_route_result primary v asked in
      elim answer [
        | ok resp ↦ ((v', w), ok resp)
        | err e ↦
            let (w', fallback) = compute_route_result secondary w asked in
            if not_loaded w asked.mode then ((v', w), err unavailable) else elim fallback [
              | ok resp ↦ ((v', w'), ok resp)
              | err e' ↦ ((v', w'), err (if is_classified e' then e' else unavailable))
            ]
      ]

  abbrev pub fallback_backend : RouteBackend f (V × W)
  unfolding fallback_result
  fallback_backend = record {
    backend_name = primary.backend_name;
    compute_route = λ s asked. response_of (fallback_result s asked);
    with_result = some fallback_result;
    can_serve_mode_without_load = none;
  }
