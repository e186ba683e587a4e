-- ===== src/Api/Middleware/Laws.antt =====
-- The middleware answers what its handler answers, and logs it.
use architecture_playground.Base.{arith, ◌+◌, ◌-◌, ◌≤◌, true, ◌≡◌, refl, ◌∷◌, some}
use architecture_playground.Base.Int.{pos}
use architecture_playground.Errors.{text, size, get_field, copy_fields}
use architecture_playground.World.{World, Env, LogEntry, Line, json}
use architecture_playground.World.Laws.{Returns, Quiet, Quiet-refl, ticked}
use architecture_playground.Api.Submit.Laws.{Quiet-trans}
use architecture_playground.Logger.{info}
use architecture_playground.Logger.Laws.{log_http_lem, log_http-Quiet}
use architecture_playground.Api.Writer.{Response}
use architecture_playground.Api.Submit.{Request}
use architecture_playground.Api.Middleware.{Handler, Caller, client_fields, logging_middleware}

-- A line of the log that tells of a request and the status of its answer.
pub record Tells (req : Request) (r : Response) (l : Line) : Type 0 where
  pub entry : LogEntry
  pub written : l ≡ json entry
  pub method : get_field "http_method" entry.fields ≡ some (text req.method)
  pub path : get_field "http_path" entry.fields ≡ some (text req.path)
  pub status : get_field "http_status" entry.fields ≡ some (size r.status_code)

module _ {R : Type 0} (env : Env) (next : Handler R) (client : Caller) (req : Request)
    (r : Response) (w : World R) where
  -- Where the handler answers, the middleware gives the same answer, and beside the log and the
  -- clock nothing else changes.
  pub logging_middleware-Quiet :
      (r' : Response) (w1 : World R)
      → next req r (record w { reads = w.reads + 1 }) ≡ some (r', w1)
      → Returns (logging_middleware env next client req r w) (λ r'' w'. (r'' ≡ r') × Quiet w1 w')
  unfolding logging_middleware
  logging_middleware-Quiet r' w1 h =
      let w2 = record w1 { reads = w1.reads + 1 } in
      let elapsed = pos (env.time_at w1.reads - env.time_at w.reads) in
      let a =
        log_http-Quiet env (client_fields client) w2 req.method req.path r'.status_code elapsed in
      record {
        value = r';
        world = a.world;
        run = ground (arith, h, a.run);
        holds = (refl, Quiet-trans (ticked (Quiet-refl w1)) a.holds);
      }

  -- Where the handler answers, with a logger that shows INFO and entries that can be encoded, the
  -- middleware gives the same answer; the newest line of the log tells the method, the path and the
  -- answer's status; and beside the log and the clock nothing else changes.
  pub logging_middleware_lem :
      (r' : Response) (w1 : World R)
      → next req r (record w { reads = w.reads + 1 }) ≡ some (r', w1)
      → env.level ≤ info
      → ((e : LogEntry) → env.marshals e ≡ true)
      → Returns (logging_middleware env next client req r w) (λ r'' w'.
        (r'' ≡ r') × Quiet w1 w' × ((l : Line) × (w'.output ≡ l ∷ w1.output) × Tells req r' l))
  unfolding logging_middleware get_field copy_fields
  logging_middleware_lem r' w1 h shown encodable =
      let w2 = record w1 { reads = w1.reads + 1 } in
      let elapsed = pos (env.time_at w1.reads - env.time_at w.reads) in
      let a =
        log_http_lem env w2 shown encodable req.method req.path r'.status_code elapsed
          (client_fields client) in
      record {
        value = r';
        world = a.world;
        run = ground (arith, h, a.run);
        holds = (
          refl,
          record {
            same_heap = a.holds.0.same_heap;
            same_tasks = a.holds.0.same_tasks;
            same_next = a.holds.0.same_next;
            same_ids = a.holds.0.same_ids;
            same_server = a.holds.0.same_server;
          },
          (
            _,
            a.holds.1,
            record { entry = _; written = refl; method = refl; path = refl; status = refl },
          ),
        );
      }
