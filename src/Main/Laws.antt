-- ===== src/Main/Laws.antt =====
-- A run of the whole process, from the empty store.
use architecture_playground.Base.{
  arith, ℕ, ◌+◌, ◌≡◌, ◌≢◌, refl, List, [], length, Option, none, lookup, true, some,
}
use architecture_playground.Errors.{Err, nil, field, text, texts, int, size}
use architecture_playground.World.{World, Env}
use architecture_playground.World.Laws.{Returns, Returns-map, Quiet, Quiet-refl, ticked}
use architecture_playground.Logger.Laws.{log_info-Quiet}
use architecture_playground.Store.View.{view}
use architecture_playground.Registry.{new_registry, get_handler, get_registered_types}
use architecture_playground.Registry.Laws.{AllTame, register-AllTame}
use architecture_playground.Handlers.Tame.{run_print-IsTame, run_sleep-IsTame, real_sleeper-IsQuiet}
use architecture_playground.Config.{Config, Loaded, loaded, refused, load_config}
use architecture_playground.Orchestrator.Settled.{IsSettled, Unique, Quiet-IsSettled}
use architecture_playground.Api.Writer.{Body, Response}
use architecture_playground.Api.Submit.{Request}
use architecture_playground.Api.Server.{Listening}
use architecture_playground.Api.Server.Laws.{IsServed}
use architecture_playground.Api.Server.Life.{Replies, start_lem}
use architecture_playground.Main.{
  Outside, Exit, invalid_config, server_failed, stopped, exit_of, new_logger, handlers,
  create_handler_registry, run_server, run_loaded, main,
}

-- The state in which the process starts: `NewMemoryTaskStore` makes an empty map.
abbrev pub new_world : {R : Type 0} → R → World R
new_world server = record {
  heap = λ p. none;
  next = 0;
  tasks = [];
  output = [];
  reads = 0;
  ids = 0;
  server = server;
}

pub new_world-IsSettled : {R : Type 0} (env : Env) (server : R) → IsSettled env (new_world server)
unfolding lookup view
new_world-IsSettled env server = record {
  valid = record { stored = λ id p e. ground arith; unused = λ p h. refl };
  final = λ id t e. ground arith;
  issued = λ id t e. absurd (ground arith);
}

new_registry-AllTame : {R : Type 0} → AllTame {R = R} new_registry
unfolding get_handler lookup
new_registry-AllTame type h e = absurd (ground arith)

-- The handlers that the program registers write only their task's result.
pub handlers-AllTame : {R : Type 0} (env : Env) (out : Outside) → AllTame {R = R} (handlers env out)
handlers-AllTame env out =
    register-AllTame "sleep" _ _
      (run_sleep-IsTame env out.payloads _ (real_sleeper-IsQuiet out.select))
      (register-AllTame "print" _ _ (run_print-IsTame env out.payloads) new_registry-AllTame)

-- What the process is given: IDs that are not repeated, responses that can be encoded, and a status
-- from net/http for a path without a route.
pub record IsProvided (env : Env) (out : Outside) : Type 0 where
  pub unique : Unique env
  pub encodable : (b : Body) → out.http.encodes b ≡ true
  pub fallback : (req : Request) (r : Response) → (out.mux.fallback req r).sent ≢ none

-- How the process ends: at once for a configuration that is refused, and with the error of the
-- shutdown, or without one, after an answer to each request.
abbrev pub EndsBy : Loaded → Listening → Option Err → Exit → Type 0
EndsBy (refused e) life failed x = x ≡ invalid_config e
EndsBy (loaded c) life none x = (rs : List Response) × (x ≡ stopped rs) × Replies life rs
EndsBy (loaded c) life (some e) x =
    (rs : List Response) × (x ≡ server_failed e rs) × Replies life rs

exit_of-EndsBy :
    (c : Config) (life : Listening) (failed : Option Err) (rs : List Response)
    → Replies life rs
    → EndsBy (loaded c) life failed (exit_of failed rs)
exit_of-EndsBy c life none rs h = (rs, refl, h)
exit_of-EndsBy c life (some e) rs h = (rs, refl, h)

module _ {R : Type 0} (env : Env) (out : Outside) (given : IsProvided env out) where
  create_handler_registry_lem :
      (w : World R)
      → Returns (create_handler_registry env out w) (λ r w'. (r ≡ handlers env out) × Quiet w w')
  unfolding create_handler_registry
  create_handler_registry_lem w =
      let a =
        log_info-Quiet env "Registered task handlers"
          (field "count" (size (length (get_registered_types (handlers {R = R} env out))))
            (field "types" (texts (get_registered_types (handlers {R = R} env out))) nil))
          w in
      record {
        value = handlers env out;
        world = a.world;
        run = ground (arith, a.run);
        holds = (refl, a.holds);
      }

  run_server_lem :
      (cfg : Config) (start_time : ℕ) (life : Listening) (failed : Option Err) (w : World R)
      → IsSettled env w
      → Returns
          (run_server env out cfg start_time life failed w)
          (λ x w'. IsSettled env w' × EndsBy (loaded cfg) life failed x)
  unfolding run_server
  run_server_lem cfg start_time life failed w s =
      let f =
        field "version" (text cfg.version)
          (field "port" (int cfg.server_port) (field "log_level" (text cfg.log_level) nil)) in
      let a = log_info-Quiet env "Starting task orchestrator" f w in
      let b = create_handler_registry_lem a.world in
      let s1 = Quiet-IsSettled env w s a.world a.holds in
      let s2 = Quiet-IsSettled env a.world s1 b.world b.holds.1 in
      let served : IsServed env out.http out.mux (handlers {R = R} env out) = record {
        unique = given.unique;
        encodable = given.encodable;
        tame = handlers-AllTame env out;
        fallback = given.fallback;
      } in
      let c =
        start_lem env out.http out.mux (handlers env out) cfg start_time served life failed b.world
          s2 in
      let kept = c.holds.0 in
      record {
        value = exit_of failed c.value.0;
        world = c.world;
        run = ground (arith, a.run, b.run, c.run, c.holds.2);
        holds = (kept, exit_of-EndsBy cfg life failed c.value.0 c.holds.1);
      }

module _ {R : Type 0} (env : Env) (out : Outside) (given : IsProvided env out) where
  start_main :
      (o : Loaded) (t : ℕ) (life : Listening) (failed : Option Err) (w : World R)
      → IsSettled env w
      → Returns
          (run_loaded env out o t life failed w)
          (λ x w'. IsSettled env w' × EndsBy o life failed x)
  unfolding run_loaded new_logger
  start_main (refused e) t life failed w s = record {
    value = invalid_config e;
    world = w;
    run = refl;
    holds = (s, refl);
  }
  start_main (loaded cfg) t life failed w s =
      let env' = new_logger cfg.log_level env in
      let settled : IsSettled env' w = record {
        valid = s.valid;
        final = s.final;
        issued = s.issued;
      } in
      let provided : IsProvided env' out = record {
        unique = given.unique;
        encodable = given.encodable;
        fallback = given.fallback;
      } in
      Returns-map (run_server_lem env' out provided cfg t life failed w settled)
        (λ x w' h. (record { valid = h.0.valid; final = h.0.final; issued = h.0.issued }, h.1))

  -- The process ends without a panic: at once if the configuration is refused, and otherwise with an
  -- answer, and a status in it, to each request that was made, and with the error of the shutdown if
  -- it failed; and then every stored task is done or failed, under an ID that was issued.
  pub main_lem :
      (life : Listening) (failed : Option Err) (server : R)
      → Returns
          (main env out life failed (new_world server))
          (λ x w'. IsSettled env w' × EndsBy (load_config out.os) life failed x)
  unfolding main
  main_lem life failed server =
      let w = new_world server in
      let w1 = record w { reads = w.reads + 1 } in
      let s = Quiet-IsSettled env w (new_world-IsSettled env server) w1 (ticked (Quiet-refl w)) in
      start_main (load_config out.os) (env.time_at 0) life failed w1 s
