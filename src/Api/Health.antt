-- ===== src/Api/Health.antt =====
-- api/health.go: the health check. `startTime` is the time at which the process started; the clock
-- that times are compared by does not go back.
pub mod Laws
use architecture_playground.Base.{ℕ, ◌-◌, not, ◌==◌, if◌then◌else◌}
use architecture_playground.Errors.{new_internal_error}
use architecture_playground.World.{M, Env, pure, ◌>>=◌, now}
use architecture_playground.Registry.{HandlerRegistry, get_registered_types}
use architecture_playground.Config.{Config}
use architecture_playground.Api.Writer.{
  health_response, Response, set_content_type, write_header, encode, http_error, respond_with_error,
}
use architecture_playground.Api.Submit.{Request, Http}

module _ {R : Type 0} (env : Env) (http : Http) where
  unfoldable pub handle_health :
      Config → HandlerRegistry R → (start_time : ℕ) → Request → Response → M R Response
  unfolding now get_registered_types respond_with_error
  handle_health cfg registry start_time req r =
      if not (req.method == "GET") then pure (http_error "Method not allowed" 405 r) else (do
        since ← now env
        t ← now env
        let b = health_response (record {
          status = "healthy";
          timestamp = t;
          uptime = since - start_time;
          registered_tasks = get_registered_types registry;
          version = cfg.version;
        })
        let r' = encode http.encodes b (write_header 200 (set_content_type "application/json" r))
        if r'.1
            then pure r'.0
            else (respond_with_error env http.encodes
                (new_internal_error "failed to encode response") r'.0))
