-- ===== src/Api/Server.antt =====
-- api/server/server.go: the router, and the server's life. The choice of a route is that of net/http.
pub mod Laws
pub mod Life
pub mod Sessions
pub mod Routes
use architecture_playground.Base.{ℕ, String, ◌==◌, List, [], ◌∷◌, Option, none, some, if◌then◌else◌}
use architecture_playground.Errors.{Err, error_text, nil, field, text}
use architecture_playground.World.{M, Env, pure, ◌>>=◌, ◌>>◌, on_some, on_error}
use architecture_playground.Logger.{log_info, log_error}
use architecture_playground.Context.{Ctx}
use architecture_playground.Registry.{HandlerRegistry}
use architecture_playground.Config.{Config, address}
use architecture_playground.Api.Writer.{Response, new_response}
use architecture_playground.Api.Submit.{Request, Orchestrator, Http, handle_submit}
use architecture_playground.Api.Status.{handle_task_status}
use architecture_playground.Api.Health.{handle_health}
use architecture_playground.Api.Middleware.{Handler, Caller, logging_middleware}

-- `http.ServeMux`: the pattern that it chooses for a path, and its own answer where there is none.
pub record Mux : Type 0 where
  pub pattern_of : List String → String → Option String
  pub fallback : Request → Response → Response

abbrev pub patterns : List String
patterns = "/submit" ∷ "/health" ∷ "/tasks/" ∷ []

-- `dependencies`
pub record Dependencies (R : Type 0) : Type 0 where
  pub orchestrator : Orchestrator R
  pub registry : HandlerRegistry R
  pub config : Config

module _ {R : Type 0} (env : Env) (http : Http) (mux : Mux) (deps : Dependencies R) (ctx : Ctx)
    (start_time : ℕ) where
  -- The routes, before the middleware is applied.
  unfoldable pub route : Handler R
  unfolding handle_submit handle_health handle_task_status
  route req r = on_some (mux.pattern_of patterns req.path) (pure (mux.fallback req r)) (λ pattern.
      if pattern == "/submit"
      then handle_submit env http deps.orchestrator ctx req r
      else if pattern == "/health"
      then handle_health env http deps.config deps.registry start_time req r
      else (handle_task_status env http deps.orchestrator req r))

  unfoldable pub new_router : Caller → Handler R
  unfolding logging_middleware route
  new_router client = logging_middleware env route client

-- A request as net/http hands it over: with its context and its caller.
pub record Visit : Type 0 where
  pub ctx : Ctx
  pub caller : Caller
  pub request : Request

-- `Server`, the fields of its `http.Server` included; the timeouts are in seconds.
pub record Server (R : Type 0) : Type 0 where
  pub bound_to : String
  pub handler : Visit → Response → M R Response
  pub read_timeout : ℕ
  pub write_timeout : ℕ
  pub idle_timeout : ℕ
  pub config : Config

-- `New`
abbrev pub new_server :
    {R : Type 0} → Env → Http → Mux → (start_time : ℕ) → Dependencies R → Server R
unfolding address new_router
new_server env http mux start_time deps = record {
  bound_to = address deps.config;
  handler = λ v r. new_router env http mux deps v.ctx start_time v.caller v.request r;
  read_timeout = 15;
  write_timeout = 15;
  idle_timeout = 60;
  config = deps.config;
}

-- How the listening went until the signal to stop: it failed, or these requests were served.
pub data Listening : Type 0 where
  not_listening : Err → Listening
  listening : List Visit → Listening

module _ {R : Type 0} (env : Env) where
  -- `shutdown`, given the result of `http.Server.Shutdown`.
  unfoldable pub shutdown : Option Err → M R (Option Err)
  unfolding log_info log_error
  shutdown failed =
      on_error failed
        (λ e. do
          log_error env "Server forced to shutdown" (field "error" (text (error_text e)) nil)
          pure (some e))
        (do log_info env "Server shutdown complete" nil; pure none)

module _ {R : Type 0} (env : Env) (srv : Server R) where
  -- One request after the other, each with a response of its own.
  unfoldable pub serve_all : List Visit → M R (List Response)
  serve_all [] = pure []
  serve_all (v ∷ rest) = do r ← srv.handler v new_response; rs ← serve_all rest; pure (r ∷ rs)

  unfoldable pub listen : Listening → M R (List Response)
  unfolding log_error serve_all
  listen (not_listening e) = do
    log_error env "Server failed to start" (field "error" (text (error_text e)) nil)
    pure []
  listen (listening visits) = serve_all visits

  -- `Start`: what was answered, and the error.
  unfoldable pub start : Listening → Option Err → M R (List Response × Option Err)
  start life failed = do
    log_info env "Server starting" (field "address" (text (address srv.config)) nil)
    rs ← listen life
    log_info env "Shutting down server" nil
    lost ← shutdown env failed
    pure (rs, lost)
