-- ===== src/Route/Backends/Internal.antt =====
-- internal/route/backend.go: the backend with the routing engine in its own process, which loads the
-- road graph when the first request needs it. What the mutex guards is one step.
pub mod Laws
use geo.Base.{
  ℕ, suc, List, [], ◌∷◌, Bool, true, false, not, ◌||◌, Option, none, some, if◌then◌else◌, value_or,
}
use geo.Base.Int.{ℤ}
use geo.Base.Float.{Float}
use geo.Base.Result.{Result, ok, err}
use geo.Routing.Profiles.{TransportMode}
use geo.Route.Model.{
  RouteError, RouteResponse, timeout, not_found, unavailable, Route, MultiModalLeg,
}
use geo.Route.Answers.{build_route_response, build_multi_modal_response}
use geo.Route.Backends.{Asked, RouteComputeResult, RouteBackend, response_of}

-- Engine of internal/routing, by what the backend calls of it.
pub record Engine (f : Float) : Type 0 where
  pub has_graph : Bool
  pub has_rail_graph : Bool
  pub has_transit_graph : Bool
  pub compute_train_route : f.F → f.F → f.F → f.F → List (MultiModalLeg f)
  pub compute_transit_route : f.F → f.F → f.F → f.F → List (MultiModalLeg f)
  pub calculate_alternatives : f.F → f.F → f.F → f.F → TransportMode → ℤ → List (Route f)

-- What ctx.Err() says when it is read.
pub data CtxErr : Type 0 where
  running deadline_exceeded cancelled : CtxErr

abbrev pub is_deadline : CtxErr → Bool
is_deadline deadline_exceeded = true
is_deadline _ = false

-- InternalBackend; `loads` counts the calls of loadEngine, and the n-th of them gives `load n`: none
-- for an error, some none for nil.
pub record InternalBackend (f : Float) : Type 0 where
  pub engine : Option (Engine f)
  pub without_graph : Engine f
  pub graph_enabled : Bool
  pub lazy_load : Bool
  pub load_engine : Option (ℕ → Option (Option (Engine f)))
  pub loads : ℕ

-- classifyInternalRouteError
pub classify_internal_route_error : CtxErr → RouteError
classify_internal_route_error running = not_found
classify_internal_route_error deadline_exceeded = timeout
classify_internal_route_error cancelled = timeout

module _ {f : Float} where
  -- `engine != nil && test(engine)`
  abbrev pub engine_has : (Engine f → Bool) → Option (Engine f) → Bool
  engine_has test none = false
  engine_has test (some e) = test e

  abbrev pub on_road : Option (Engine f) → Bool
  on_road engine = engine_has (λ e. e.has_graph) engine

  -- CanServeModeWithoutLoad
  pub can_serve_mode_without_load : InternalBackend f → TransportMode → Bool
  can_serve_mode_without_load b TransportMode.airplane = true
  can_serve_mode_without_load b TransportMode.train = engine_has (λ e. e.has_rail_graph) b.engine
  can_serve_mode_without_load b TransportMode.public_transport =
      engine_has (λ e. e.has_transit_graph) b.engine
  can_serve_mode_without_load b _ = on_road b.engine

  -- The engine if it is there and passes a test, else the error.
  abbrev pub engine_if :
      (Engine f → Bool) → Option (Engine f) → RouteError → Result RouteError (Engine f)
  engine_if test none e = err e
  engine_if test (some engine) e = if test engine then ok engine else err e

  -- What a call of loadEngine gave, and what it leaves.
  unfoldable pub loaded_answer :
      InternalBackend f
      → CtxErr
      → Option (Option (Engine f))
      → InternalBackend f × Result RouteError (Engine f)
  loaded_answer b ctx none = (b, err (if is_deadline ctx then timeout else unavailable))
  loaded_answer b ctx (some none) = (b, err unavailable)
  loaded_answer b ctx (some (some loaded)) =
      if loaded.has_graph
      then (record b { engine = some loaded }, ok loaded)
      else (b, err unavailable)

  -- What engineFor does under the lock: another call may have loaded the graph meanwhile.
  unfoldable pub load_locked :
      InternalBackend f
      → (ℕ → Option (Option (Engine f)))
      → CtxErr
      → InternalBackend f × Result RouteError (Engine f)
  unfolding loaded_answer
  load_locked b load ctx =
      if on_road b.engine
      then (b, engine_if (λ e. e.has_graph) b.engine unavailable)
      else loaded_answer (record b { loads = suc b.loads }) ctx (load b.loads)

  -- engineFor for the modes on the road
  pub road_engine : InternalBackend f → CtxErr → InternalBackend f × Result RouteError (Engine f)
  unfolding load_locked
  road_engine b ctx =
      if on_road b.engine
      then (b, engine_if (λ e. e.has_graph) b.engine unavailable)
      else if not b.graph_enabled || not b.lazy_load
      then (b, err unavailable)
      else elim b.load_engine [ none ↦ (b, err unavailable) | some load ↦ load_locked b load ctx ]

  -- engineFor, for a call that no other comes between; load_locked is what another would do.
  pub engine_for :
      InternalBackend f → TransportMode → CtxErr → InternalBackend f × Result RouteError (Engine f)
  unfolding road_engine
  engine_for b TransportMode.airplane ctx = (b, ok (value_or b.engine b.without_graph))
  engine_for b TransportMode.train ctx = (b, engine_if (λ e. e.has_rail_graph) b.engine unavailable)
  engine_for b TransportMode.public_transport ctx =
      (b, engine_if (λ e. e.has_transit_graph) b.engine unavailable)
  engine_for b TransportMode.car ctx = road_engine b ctx
  engine_for b TransportMode.motorcycle ctx = road_engine b ctx
  engine_for b TransportMode.bus ctx = road_engine b ctx
  engine_for b TransportMode.walking ctx = road_engine b ctx

  -- The answer of legs, of which there must be one.
  abbrev pub legs_answer :
      TransportMode → List (MultiModalLeg f) → Result RouteError (RouteComputeResult f)
  legs_answer mode [] = err not_found
  legs_answer mode (leg ∷ legs) =
      ok
        (record { response = build_multi_modal_response f mode (leg ∷ legs); backend = "internal" })

  abbrev pub routes_answer :
      TransportMode → CtxErr → List (Route f) → Result RouteError (RouteComputeResult f)
  unfolding classify_internal_route_error
  routes_answer mode ctx [] = err (classify_internal_route_error ctx)
  routes_answer mode ctx (r ∷ routes) =
      ok (record { response = build_route_response f mode (r ∷ routes); backend = "internal" })

  pub compute_with : Engine f → CtxErr → Asked f → Result RouteError (RouteComputeResult f)
  compute_with e ctx asked =
      let found = routes_answer asked.mode ctx (
        e.calculate_alternatives asked.start_lat asked.start_lng asked.end_lat asked.end_lng
          asked.mode asked.alternatives) in
      elim asked.mode [
        | TransportMode.train ↦
            legs_answer TransportMode.train
              (e.compute_train_route asked.start_lat asked.start_lng asked.end_lat asked.end_lng)
        | TransportMode.public_transport ↦
            legs_answer TransportMode.public_transport
              (e.compute_transit_route asked.start_lat asked.start_lng asked.end_lat asked.end_lng)
        | _ ↦ found
      ]

  -- ComputeRouteResult of InternalBackend, with what ctx.Err() says if it is read.
  pub internal_result :
      CtxErr
      → InternalBackend f
      → Asked f
      → InternalBackend f × Result RouteError (RouteComputeResult f)
  unfolding engine_for compute_with
  internal_result ctx b asked =
      let (b', answer) = engine_for b asked.mode ctx in
      elim answer [ err e ↦ (b', err e) | ok e ↦ (b', compute_with e ctx asked) ]

  abbrev pub internal_backend : CtxErr → RouteBackend f (InternalBackend f)
  unfolding internal_result can_serve_mode_without_load
  internal_backend ctx = record {
    backend_name = "internal";
    compute_route = λ b asked. response_of (internal_result ctx b asked);
    with_result = some (internal_result ctx);
    can_serve_mode_without_load = some can_serve_mode_without_load;
  }
