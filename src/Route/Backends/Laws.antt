-- ===== src/Route/Backends/Laws.antt =====
-- What the wrapping backends promise: answers where one of two backends has one, errors that the
-- handlers know, and slots that are given back.

use geo.Base.{
  true, false, ◌≡◌, ◌⊎◌, if◌then◌else◌, inr, inl, refl, if_cases, String, Option, some, ◌&&◌, none,
  ap, arith,
}
use geo.Base.Float.{Float}
use geo.Base.Result.{Result, ok, err}
use geo.Route.Model.{RouteError, unavailable}
use geo.Route.Backends.{
  slot, timer, done, Asked, RouteComputeResult, RouteBackend, compute_route_result, fallback_result,
  is_classified, not_loaded, Slots, Waited, Limited, limited_result, overloaded, run_inner, timeout,
  str_eq, is_airplane, slot, free_slot, take_slot,
}

module _ {f : Float} {V W : Type 0} (primary : RouteBackend f V)
    (secondary : RouteBackend f W) where
  abbrev Answer : Type 0
  Answer = Result RouteError (RouteComputeResult f)

  -- What the two backends give of themselves.
  abbrev first_answer : V → Asked f → Answer
  first_answer v asked = (compute_route_result primary v asked).1

  abbrev second_answer : W → Asked f → Answer
  second_answer w asked = (compute_route_result secondary w asked).1

  -- An answer of the first, with the second as it was, or an answer of the second where the first has
  -- failed; an error has a class, and comes only when the first one has failed and the second one has
  -- failed too or is not loaded.
  abbrev pub IsFallback : V → W → Asked f → (V × W) × Answer → Type 0
  IsFallback v w asked (s, ok r) =
      ((first_answer v asked ≡ ok r) × (s.1 ≡ w))
      ⊎ (((e₁ : RouteError) × (first_answer v asked ≡ err e₁))
          × (not_loaded primary secondary w asked.mode ≡ false)
          × (second_answer w asked ≡ ok r))
  IsFallback v w asked (s, err e) =
      (is_classified e ≡ true)
      × ((e₁ : RouteError) × (first_answer v asked ≡ err e₁))
      × (((not_loaded primary secondary w asked.mode ≡ true) × (s.1 ≡ w))
          ⊎ ((e₂ : RouteError) × (second_answer w asked ≡ err e₂)))

  -- When the first backend has no answer and the second is asked.
  second_lem :
      (v v' : V) (w : W) (asked : Asked f) (e₁ : RouteError)
      → first_answer v asked ≡ err e₁
      → not_loaded primary secondary w asked.mode ≡ false
      → (w' : W) (a : Answer) → second_answer w asked ≡ a
      → IsFallback v w asked (elim a [
        | ok resp ↦ ((v', w'), ok resp)
        | err e' ↦ ((v', w'), err (if is_classified e' then e' else unavailable))
      ])
  second_lem v v' w asked e₁ failed loaded w' (ok r) same = inr ((e₁, failed), loaded, same)
  second_lem v v' w asked e₁ failed loaded w' (err e₂) same = (
    if_cases (λ e. is_classified e ≡ true) (is_classified e₂) (λ h. h) (λ _. refl),
    (e₁, failed),
    inr (e₂, same),
  )

  first_lem :
      (v v' : V) (w : W) (asked : Asked f) (a : Answer)
      → first_answer v asked ≡ a
      → IsFallback v w asked (elim a [
        | ok resp ↦ ((v', w), ok resp)
        | err e ↦
            let (w', fallback) = compute_route_result secondary w asked in
            if not_loaded primary secondary w asked.mode
            then ((v', w), err unavailable)
            else elim fallback [
              | ok resp ↦ ((v', w'), ok resp)
              | err e' ↦ ((v', w'), err (if is_classified e' then e' else unavailable))
            ]
      ])
  first_lem v v' w asked (ok r) same = inl (same, refl)
  first_lem v v' w asked (err e) same =
      if_cases (IsFallback v w asked) (not_loaded primary secondary w asked.mode)
        (λ missing. (refl, (e, same), inl (missing, refl)))
        (λ loaded.
          second_lem v v' w asked e same loaded (compute_route_result secondary w asked).0
            (compute_route_result secondary w asked).1 refl)

  -- The chain of two backends gives the answer of the first one, with the state of the second as it
  -- was, or the answer of the second where the first has failed and the second is loaded. An error has one of the four classes of the service, and comes only when
  -- the first backend has failed and the second has failed as well, or is not loaded and not asked.
  pub fallback_result-IsFallback :
      (v : V) (w : W) (asked : Asked f)
      → IsFallback v w asked (fallback_result primary secondary (v, w) asked)
  unfolding fallback_result
  fallback_result-IsFallback v w asked =
      first_lem v (compute_route_result primary v asked).0 w asked
        (compute_route_result primary v asked).1 refl

module _ {f : Float} {W : Type 0} (b : RouteBackend f W) (name : String)
    (waits : (s : Slots) → Waited s) where
  -- An answer of the wrapped backend, or one of the two errors of a wait.
  abbrev pub IsLimited :
      Limited W → Asked f → Limited W × Result RouteError (RouteComputeResult f) → Type 0
  IsLimited l asked step =
      (step.0.sem ≡ l.sem)
      × (((step.1 ≡ (compute_route_result b l.inner asked).1)
            × (step.0.inner ≡ (compute_route_result b l.inner asked).0))
          ⊎ (((step.1 ≡ err overloaded) ⊎ (step.1 ≡ err timeout))
              × (step.0 ≡ l)
              × (str_eq name "internal" && is_airplane asked.mode ≡ false)))

  waits_lem :
      (w : W) (s : Slots) (asked : Asked f)
      → str_eq name "internal" && is_airplane asked.mode ≡ false
      → (a : Waited s)
      → IsLimited
          (record { inner = w; sem = some s })
          asked
          (elim a [
            | slot free ↦
                run_inner b name waits
                  (record { inner = w; sem = some s })
                  (some (free_slot (take_slot s)))
                  asked
            | timer ↦ (record { inner = w; sem = some s }, err overloaded)
            | done ↦ (record { inner = w; sem = some s }, err timeout)
          ])
  unfolding run_inner
  waits_lem w s asked h (slot free) = (
    ap some (ap (λ n. record { capacity = s.capacity; in_use = n }) (omega arith)),
    inl (refl, refl),
  )
  waits_lem w s asked h timer = (refl, inr (inl refl, refl, h))
  waits_lem w s asked h done = (refl, inr (inr refl, refl, h))

  sem_lem :
      (w : W) (sem : Option Slots) (asked : Asked f)
      → IsLimited
          (record { inner = w; sem = sem })
          asked
          (limited_result b name waits (record { inner = w; sem = sem }) asked)
  unfolding limited_result run_inner
  sem_lem w none asked = (refl, inl (refl, refl))
  sem_lem w (some s) asked =
      if_cases (IsLimited (record { inner = w; sem = some s }) asked)
        (str_eq name "internal" && is_airplane asked.mode) (λ flight. (refl, inl (refl, refl)))
        (λ other. waits_lem w s asked other (waits s))

  -- The wrapped backend is asked, or the call ends in an error of the wait that changes nothing: too
  -- many calls, or a context that is done, never so for a flight of the internal backend. Either way
  -- the slots in use are as many as before the
  -- call.
  pub limited_result-IsLimited :
      (l : Limited W) (asked : Asked f) → IsLimited l asked (limited_result b name waits l asked)
  unfolding limited_result run_inner
  limited_result-IsLimited l asked = sem_lem l.inner l.sem asked
