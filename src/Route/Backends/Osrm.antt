-- ===== src/Route/Backends/Osrm.antt =====
-- internal/route/backend.go: the backend that asks an OSRM server. The client is an argument; of its
-- error the code reads whether it is a deadline, and the text.
use geo.Base.{Bool, String, none, some, ◌||◌, if◌then◌else◌}
use geo.Base.Float.{Float}
use geo.Base.Result.{Result, ok, err}
use geo.Route.Model.{RouteError, RouteResponse, timeout, not_found, unavailable}
use geo.Route.Backends.{Asked, RouteComputeResult, RouteBackend, response_of}

pub record OsrmError : Type 0 where
  pub is_deadline : Bool
  pub msg : String

-- Client: what a request gives; `contains` is strings.Contains on the text in lower case.
pub record Client (f : Float) (W : Type 0) : Type 0 where
  pub route : W → Asked f → W × Result OsrmError (RouteResponse f)
  pub contains : String → String → Bool

module _ {f : Float} {W : Type 0} (client : Client f W) where
  -- classifyOSRMError
  pub classify_osrm_error : OsrmError → RouteError
  classify_osrm_error e =
      if e.is_deadline
        || client.contains e.msg "deadline exceeded"
        || client.contains e.msg "client.timeout"
        || client.contains e.msg "timeout"
      then timeout
      else if client.contains e.msg "noroute"
          || client.contains e.msg "no route"
          || client.contains e.msg "no routes"
      then not_found
      else unavailable

  -- ComputeRouteResult of OSRMBackend
  pub osrm_result : W → Asked f → W × Result RouteError (RouteComputeResult f)
  unfolding classify_osrm_error
  osrm_result w asked =
      let (w', answer) = client.route w asked in
      elim answer [
        | ok resp ↦ (w', ok (record { response = resp; backend = "osrm" }))
        | err e ↦ (w', err (classify_osrm_error e))
      ]

  abbrev pub osrm_backend : RouteBackend f W
  unfolding osrm_result
  osrm_backend = record {
    backend_name = "osrm";
    compute_route = λ w asked. response_of (osrm_result w asked);
    with_result = some osrm_result;
    can_serve_mode_without_load = none;
  }
