-- ===== src/Api/Server/Life.antt =====
-- The server from its start to the end of its shutdown.
use architecture_playground.Base.{arith, ℕ, ◌≡◌, refl, List, [], length, Option, none, some}
use architecture_playground.Errors.{Err, error_text, nil, field, text}
use architecture_playground.World.{World, Env}
use architecture_playground.World.Laws.{Returns, Returns-map, Quiet}
use architecture_playground.Logger.Laws.{log_info-Quiet, log_error-Quiet}
use architecture_playground.Registry.{HandlerRegistry}
use architecture_playground.Config.{Config, address}
use architecture_playground.Orchestrator.Settled.{IsSettled, Quiet-IsSettled}
use architecture_playground.Api.Writer.{Response}
use architecture_playground.Api.Submit.{Http}
use architecture_playground.Api.Server.{
  Mux, Visit, Server, Listening, not_listening, listening, new_server, shutdown, listen, start,
}
use architecture_playground.Api.Server.Laws.{IsServed, AllSent, dependencies, serve_all_lem}

-- The requests that were to be answered.
abbrev pub visits_of : Listening → List Visit
visits_of (not_listening e) = []
visits_of (listening visits) = visits

-- There is an answer to each request, each with a status.
abbrev pub Replies : Listening → List Response → Type 0
Replies life rs = (length rs ≡ length (visits_of life)) × AllSent rs

shutdown_lem :
    {R : Type 0} (env : Env) (failed : Option Err) (w : World R)
    → Returns (shutdown env failed w) (λ lost w'. (lost ≡ failed) × Quiet w w')
unfolding shutdown
shutdown_lem env none w =
    let a = log_info-Quiet env "Server shutdown complete" nil w in
    record { value = none; world = a.world; run = ground (arith, a.run); holds = (refl, a.holds) }
shutdown_lem env (some e) w =
    let a =
      log_error-Quiet env "Server forced to shutdown" (field "error" (text (error_text e)) nil) w in
    record { value = some e; world = a.world; run = ground (arith, a.run); holds = (refl, a.holds) }

module _ {R : Type 0} (env : Env) (http : Http) (mux : Mux) (registry : HandlerRegistry R)
    (cfg : Config) (start_time : ℕ) (h : IsServed env http mux registry) where
  abbrev srv : Server R
  srv = new_server env http mux start_time (dependencies env registry cfg)

  listen_lem :
      (life : Listening) (w : World R)
      → IsSettled env w
      → Returns (listen env srv life w) (λ rs w'. IsSettled env w' × Replies life rs)
  unfolding listen
  listen_lem (not_listening e) w s =
      let a =
        log_error-Quiet env "Server failed to start" (field "error" (text (error_text e)) nil) w in
      record {
        value = [];
        world = a.world;
        run = ground (arith, a.run);
        holds = (Quiet-IsSettled env w s a.world a.holds, (refl, tt));
      }
  listen_lem (listening visits) w s =
      Returns-map (serve_all_lem env http mux registry cfg start_time h visits w s)
        (λ rs w' q. (q.0.settled, (q.1, q.2)))

  -- From a settled state the server's life ends without a panic: there is an answer to each request,
  -- each with a status, the error is that of the shutdown, and the state is settled again.
  pub start_lem :
      (life : Listening) (failed : Option Err) (w : World R)
      → IsSettled env w
      → Returns
          (start env srv life failed w)
          (λ r w'. IsSettled env w' × Replies life r.0 × (r.1 ≡ failed))
  unfolding start
  start_lem life failed w s =
      let a =
        log_info-Quiet env "Server starting" (field "address" (text (address srv.config)) nil) w in
      let b = listen_lem life a.world (Quiet-IsSettled env w s a.world a.holds) in
      let c = log_info-Quiet env "Shutting down server" nil b.world in
      let d = shutdown_lem env failed c.world in
      record {
        value = (b.value, d.value);
        world = d.world;
        run = ground (arith, a.run, b.run, c.run, d.run);
        holds = (
          Quiet-IsSettled env c.world (Quiet-IsSettled env b.world b.holds.0 c.world c.holds)
              d.world d.holds.1,
          b.holds.1,
          d.holds.0,
        );
      }
