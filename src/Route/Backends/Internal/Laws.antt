-- ===== src/Route/Backends/Internal/Laws.antt =====
-- Which engine answers a request, and that the road graph is loaded once.
use mathlib.Core.Path.{subst}
use mathlib.Core.Bool.{false≢true}
use geo.Base.{
  ℕ, List, [], ◌∷◌, Bool, true, Option, none, some, Bool-cases, ◌≡◌, if_cases, not, ap,
  Option-cases, inl, ◌||◌, inr, ◌∙◌, map, refl, if◌then◌else◌, value_or,
}
use geo.Base.Float.{Float}
use geo.Base.Result.{Result, ok, err}
use geo.Routing.Profiles.{TransportMode}
use geo.Route.Model.{RouteError, unavailable, timeout}
use geo.Route.Backends.Internal.{
  Engine, InternalBackend, CtxErr, engine_has, on_road, is_deadline, engine_if, load_locked,
  road_engine, engine_for, can_serve_mode_without_load, loaded_answer,
}

module _ {f : Float} where
  -- What the engine must have for a mode.
  abbrev pub Serves : TransportMode → Engine f → Type 0
  Serves TransportMode.airplane e = Unit
  Serves TransportMode.train e = e.has_rail_graph ≡ true
  Serves TransportMode.public_transport e = e.has_transit_graph ≡ true
  Serves _ e = e.has_graph ≡ true

  -- An engine that serves the mode, or an error of the two that engineFor has.
  abbrev pub IsServed : TransportMode → CtxErr → Result RouteError (Engine f) → Type 0
  IsServed mode ctx (ok e) = Serves mode e
  IsServed mode ctx (err unavailable) = Unit
  IsServed mode ctx (err timeout) = is_deadline ctx ≡ true
  IsServed mode ctx (err _) = ⊥

  engine_if-IsServed :
      (mode : TransportMode) (ctx : CtxErr) (test : Engine f → Bool) (engine : Option (Engine f))
      → ((e : Engine f) → test e ≡ true → Serves mode e)
      → IsServed mode ctx (engine_if test engine unavailable)
  engine_if-IsServed mode ctx test none h = tt
  engine_if-IsServed mode ctx test (some e) h =
      if_cases (IsServed mode ctx) (test e) (h e) (λ _. tt)

  -- A step that gives such an answer.
  abbrev StepServed :
      TransportMode → CtxErr → InternalBackend f × Result RouteError (Engine f) → Type 0
  StepServed mode ctx step = IsServed mode ctx step.1

  loaded_answer-StepServed :
      (mode : TransportMode) (b : InternalBackend f) (ctx : CtxErr)
      (got : Option (Option (Engine f)))
      → ((e : Engine f) → e.has_graph ≡ true → Serves mode e)
      → StepServed mode ctx (loaded_answer b ctx got)
  unfolding loaded_answer
  loaded_answer-StepServed mode b ctx none h = elim (Bool-cases (is_deadline ctx)) [
    | inl late ↦ rw (late, loaded_answer) late
    | inr other ↦ rw (other, loaded_answer) tt
  ]
  loaded_answer-StepServed mode b ctx (some none) h = tt
  loaded_answer-StepServed mode b ctx (some (some e)) h =
      if_cases (StepServed mode ctx) e.has_graph (h e) (λ _. tt)

  load_locked-StepServed :
      (mode : TransportMode) (b : InternalBackend f) (load : ℕ → Option (Option (Engine f)))
      (ctx : CtxErr)
      → ((e : Engine f) → e.has_graph ≡ true → Serves mode e)
      → StepServed mode ctx (load_locked b load ctx)
  unfolding load_locked
  load_locked-StepServed mode b load ctx h =
      if_cases (StepServed mode ctx) (on_road b.engine)
        (λ there. engine_if-IsServed mode ctx (λ e. e.has_graph) b.engine h)
        (λ missing. loaded_answer-StepServed mode _ ctx (load b.loads) h)

  road_engine-StepServed :
      (mode : TransportMode) (b : InternalBackend f) (ctx : CtxErr)
      → ((e : Engine f) → e.has_graph ≡ true → Serves mode e)
      → StepServed mode ctx (road_engine b ctx)
  unfolding road_engine
  road_engine-StepServed mode b ctx h =
      if_cases (StepServed mode ctx) (on_road b.engine)
        (λ there. engine_if-IsServed mode ctx (λ e. e.has_graph) b.engine h)
        (λ missing.
          if_cases (StepServed mode ctx) (not b.graph_enabled || not b.lazy_load) (λ _. tt)
            (λ lazy. elim (Option-cases b.load_engine) [
              | inl none_given ↦ rw (none_given, road_engine) tt
              | inr (load, given) ↦
                  rw (given, road_engine) (load_locked-StepServed mode b load ctx h)
            ]))

  -- An engine that is there passes through.
  engine_if-ok :
      (test : Engine f → Bool) (engine : Option (Engine f)) (e : RouteError)
      → engine_has test engine ≡ true
      → (found : Engine f) × (engine_if test engine e ≡ ok found)
  engine_if-ok test none e h = absurd (false≢true h)
  engine_if-ok test (some engine) e h = (engine, rw h refl)

  road_engine-ready :
      (b : InternalBackend f) (ctx : CtxErr)
      → on_road b.engine ≡ true
      → (e : Engine f) × (road_engine b ctx ≡ (b, ok e))
  unfolding road_engine
  road_engine-ready b ctx h =
      let (e, found) = engine_if-ok (λ e. e.has_graph) b.engine unavailable h in
      (e, rw h (ap (λ r. (b, r)) found))

  ready_lem :
      (b : InternalBackend f) (mode : TransportMode) (ctx : CtxErr)
      → can_serve_mode_without_load b mode ≡ true
      → (e : Engine f) × (engine_for b mode ctx ≡ (b, ok e))
  unfolding engine_for can_serve_mode_without_load
  ready_lem b TransportMode.airplane ctx h = (value_or b.engine b.without_graph, refl)
  ready_lem b TransportMode.train ctx h =
      let (e, found) = engine_if-ok (λ e. e.has_rail_graph) b.engine unavailable h in
      (e, ap (λ r. (b, r)) found)
  ready_lem b TransportMode.public_transport ctx h =
      let (e, found) = engine_if-ok (λ e. e.has_transit_graph) b.engine unavailable h in
      (e, ap (λ r. (b, r)) found)
  ready_lem b TransportMode.car ctx h = road_engine-ready b ctx h
  ready_lem b TransportMode.motorcycle ctx h = road_engine-ready b ctx h
  ready_lem b TransportMode.bus ctx h = road_engine-ready b ctx h
  ready_lem b TransportMode.walking ctx h = road_engine-ready b ctx h

  served_lem :
      (b : InternalBackend f) (mode : TransportMode) (ctx : CtxErr)
      → StepServed mode ctx (engine_for b mode ctx)
  unfolding engine_for
  served_lem b TransportMode.airplane ctx = tt
  served_lem b TransportMode.train ctx =
      engine_if-IsServed TransportMode.train ctx (λ e. e.has_rail_graph) b.engine (λ e h. h)
  served_lem b TransportMode.public_transport ctx =
      engine_if-IsServed TransportMode.public_transport ctx (λ e. e.has_transit_graph) b.engine
        (λ e h. h)
  served_lem b TransportMode.car ctx = road_engine-StepServed TransportMode.car b ctx (λ e h. h)
  served_lem b TransportMode.motorcycle ctx =
      road_engine-StepServed TransportMode.motorcycle b ctx (λ e h. h)
  served_lem b TransportMode.bus ctx = road_engine-StepServed TransportMode.bus b ctx (λ e h. h)
  served_lem b TransportMode.walking ctx =
      road_engine-StepServed TransportMode.walking b ctx (λ e h. h)

  -- engineFor gives an engine that has the graph of the mode, or reports that the backend is
  -- unavailable, or a timeout, and that only past the deadline. When CanServeModeWithoutLoad says
  -- yes, there is an engine and the backend stays as it is: nothing is loaded.
  pub engine_for-IsServed :
      (b : InternalBackend f) (mode : TransportMode) (ctx : CtxErr)
      → IsServed mode ctx (engine_for b mode ctx).1
        × (can_serve_mode_without_load b mode ≡ true
            → (e : Engine f) × (engine_for b mode ctx ≡ (b, ok e)))
  engine_for-IsServed b mode ctx = (served_lem b mode ctx, ready_lem b mode ctx)

  -- The calls that wait for the lock, one after another.
  pub run_loads :
      InternalBackend f
      → (ℕ → Option (Option (Engine f)))
      → List CtxErr
      → InternalBackend f × List (Result RouteError (Engine f))
  run_loads b load [] = (b, [])
  run_loads b load (ctx ∷ ctxs) =
      let step = load_locked b load ctx in
      let rest = run_loads step.0 load ctxs in (rest.0, step.1 ∷ rest.1)

  -- An engine that was given is the one that the backend holds, and it has a road graph.
  abbrev Held : InternalBackend f × Result RouteError (Engine f) → Type 0
  Held (b, ok e) = (b.engine ≡ some e) × (e.has_graph ≡ true)
  Held (b, err _) = Unit

  engine_if-Held :
      (b : InternalBackend f) (engine : Option (Engine f))
      → b.engine ≡ engine
      → Held (b, engine_if (λ e. e.has_graph) engine unavailable)
  engine_if-Held b none same = tt
  engine_if-Held b (some e) same =
      if_cases (λ (r : Result RouteError (Engine f)). Held (b, r)) e.has_graph (λ h. (same, h))
        (λ _. tt)

  loaded_answer-Held :
      (b : InternalBackend f) (ctx : CtxErr) (got : Option (Option (Engine f)))
      → Held (loaded_answer b ctx got)
  unfolding loaded_answer
  loaded_answer-Held b ctx none = tt
  loaded_answer-Held b ctx (some none) = tt
  loaded_answer-Held b ctx (some (some e)) = if_cases Held e.has_graph (λ h. (refl, h)) (λ _. tt)

  load_locked-Held :
      (b : InternalBackend f) (load : ℕ → Option (Option (Engine f))) (ctx : CtxErr)
      → Held (load_locked b load ctx)
  unfolding load_locked
  load_locked-Held b load ctx =
      if_cases Held (on_road b.engine) (λ _. engine_if-Held b b.engine refl)
        (λ _. loaded_answer-Held _ ctx (load b.loads))

  load_locked_again :
      (b : InternalBackend f) (load : ℕ → Option (Option (Engine f))) (ctx : CtxErr) (e : Engine f)
      → Held (b, ok e)
      → load_locked b load ctx ≡ (b, ok e)
  unfolding load_locked
  load_locked_again b load ctx e (held, road) =
      let there : on_road b.engine ≡ true = ap on_road held ∙ road in
      let same : engine_if (λ x. x.has_graph) b.engine unavailable ≡ ok e =
        ap (λ o. engine_if (λ x. x.has_graph) o unavailable) held
        ∙ ap (λ t. if t then ok e else err unavailable) road in
      rw there (ap (λ r. (b, r)) same)

  run_loads_again :
      (b : InternalBackend f) (load : ℕ → Option (Option (Engine f))) (e : Engine f)
      (ctxs : List CtxErr)
      → Held (b, ok e)
      → run_loads b load ctxs ≡ (b, map (λ _. ok e) ctxs)
  unfolding run_loads
  run_loads_again b load e [] h = refl
  run_loads_again b load e (ctx ∷ ctxs) h =
      ap
        (λ (s : InternalBackend f × Result RouteError (Engine f)).
          let rest = run_loads s.0 load ctxs in (rest.0, s.1 ∷ rest.1))
        (load_locked_again b load ctx e h)
      ∙ ap (λ (s : InternalBackend f × List (Result RouteError (Engine f))). (s.0, ok e ∷ s.1))
          (run_loads_again b load e ctxs h)

  -- Once a call has got an engine under the lock, every call that waits for the lock gets the same
  -- engine, and none of them loads the graph again.
  pub load_locked-once :
      (b b' : InternalBackend f) (load : ℕ → Option (Option (Engine f))) (ctx : CtxErr)
      (e : Engine f) (ctxs : List CtxErr)
      → load_locked b load ctx ≡ (b', ok e)
      → run_loads b' load ctxs ≡ (b', map (λ _. ok e) ctxs)
  load_locked-once b b' load ctx e ctxs got =
      run_loads_again b' load e ctxs (subst Held got (load_locked-Held b load ctx))
