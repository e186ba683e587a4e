-- ===== src/Main.antt =====
-- cmd/task-orchestrator/main.go: how the process is put together, and its run.
pub mod Laws
use architecture_playground.Base.{ℕ, String, List, [], Option, none, some, length}
use architecture_playground.Errors.{Err, nil, field, text, texts, int, size}
use architecture_playground.World.{M, Env, pure, ◌>>=◌, ◌>>◌, now, on_error}
use architecture_playground.Logger.{log_info, parse_level}
use architecture_playground.Context.{Ctx}
use architecture_playground.Base.Int.{ℤ}
use architecture_playground.Registry.{HandlerRegistry, new_registry, register, get_registered_types}
use architecture_playground.Handlers.{Payloads, Ready, real_sleeper, run_print, run_sleep}
use architecture_playground.Store.{memory_store}
use architecture_playground.Runners.{synchronous}
use architecture_playground.Config.{Config, ConfigError, Os, Loaded, loaded, refused, load_config}
use architecture_playground.Api.Writer.{Response}
use architecture_playground.Api.Submit.{Http, default_orchestrator}
use architecture_playground.Api.Server.{Mux, Server, Listening, new_server, start}

-- `logger.New` with the standard output: the logger is the environment's.
abbrev pub new_logger : String → Env → Env
unfolding parse_level
new_logger level env = record env { level = parse_level level }

-- What the process is given from outside, beside the clock and the UUIDs.
pub record Outside : Type 0 where
  pub os : Os
  pub payloads : Payloads
  pub select : Ctx → ℤ → Ready  -- of `realSleeper.Sleep`
  pub http : Http
  pub mux : Mux

pub data Exit : Type 0 where
  invalid_config : ConfigError → Exit
  server_failed : Err → List Response → Exit
  stopped : List Response → Exit

-- A failed server ends the process with its error.
abbrev pub exit_of : Option Err → List Response → Exit
exit_of none rs = stopped rs
exit_of (some e) rs = server_failed e rs

module _ {R : Type 0} (env : Env) (out : Outside) where
  -- The handlers of the program.
  abbrev pub handlers : HandlerRegistry R
  handlers =
      register "sleep" (run_sleep env out.payloads (real_sleeper out.select))
        (register "print" (run_print env out.payloads) new_registry)

  unfoldable pub create_handler_registry : M R (HandlerRegistry R)
  unfolding log_info get_registered_types
  create_handler_registry = do
    log_info env "Registered task handlers" (
        field "count" (size (length (get_registered_types handlers)))
          (field "types" (texts (get_registered_types handlers)) nil))
    pure handlers

  abbrev pub wired : Config → HandlerRegistry R → (start_time : ℕ) → Server R
  wired cfg registry start_time = new_server env out.http out.mux start_time (record {
    orchestrator = default_orchestrator env memory_store (synchronous registry);
    registry = registry;
    config = cfg;
  })

  -- What follows the making of the logger.
  unfoldable pub run_server : Config → ℕ → Listening → Option Err → M R Exit
  run_server cfg start_time life failed = do
    log_info env "Starting task orchestrator" (
        field "version" (text cfg.version)
          (field "port" (int cfg.server_port) (field "log_level" (text cfg.log_level) nil)))
    registry ← create_handler_registry
    (rs, lost) ← start env (wired cfg registry start_time) life failed
    pure (exit_of lost rs)

module _ {R : Type 0} (env : Env) (out : Outside) where
  -- What follows the loading of the configuration.
  unfoldable pub run_loaded : Loaded → ℕ → Listening → Option Err → M R Exit
  unfolding run_server
  run_loaded (refused e) start_time life failed = pure (invalid_config e)
  run_loaded (loaded cfg) start_time life failed =
      run_server (new_logger cfg.log_level env) out cfg start_time life failed

  -- `main`; `startTime` of api/health.go is read before it.
  unfoldable pub main : Listening → Option Err → M R Exit
  unfolding now run_loaded
  main life failed = do start_time ← now env; run_loaded (load_config out.os) start_time life failed
