-- ===== src/Api/Submit/Sync.antt =====
-- The submission handler before an orchestrator with the memory store and the synchronous runner.
use architecture_playground.Base.{arith, ℕ, String, true, ◌≡◌, refl, Option, none, some, List, ◌∷◌}
use architecture_playground.Errors.{Err, task_error}
use architecture_playground.Task.{Task}
use architecture_playground.World.{World, Env}
use architecture_playground.World.Laws.{Returns, Quiet, Quiet-refl}
use architecture_playground.Context.{Ctx}
use architecture_playground.Store.{memory_store}
use architecture_playground.Store.View.{view, IsWellFormed}
use architecture_playground.Registry.{HandlerRegistry}
use architecture_playground.Registry.Laws.{AllTame}
use architecture_playground.Runners.{synchronous}
use architecture_playground.Orchestrator.Laws.{Submitted, submit_task_sync}
use architecture_playground.Api.Writer.{Body, Response, submit_response}
use architecture_playground.Api.Submit.{
  Request, SubmitRequest, Http, handle_submit, accept, default_orchestrator, response_of,
}
use architecture_playground.Api.Submit.Laws.{
  Admits, handle_submit_accepted, respond_with_error_lem, Returns-by,
}

-- What is answered for a task and the error of its execution: 200 with the task as it stands, or the
-- error's code.
abbrev pub Answers : Task → Option Err → Response → Response → Type 0
Answers t none r r' =
    (r'.sent ≡ some 200) × (r'.written ≡ submit_response (response_of t) ∷ r.written)
Answers t (some (task_error e)) r r' = (r'.sent ≡ some e.code) × (r'.status_code ≡ e.code)
Answers t (some (Err.plain s)) r r' = r'.sent ≡ some 500

-- The world of the orchestrator's return, of which the answer changes only the log and the clock.
pub record Served {R : Type 0} (id type : String) (payload : List ℕ) (r : Response) (w : World R)
    (r' : Response) (w' : World R) : Type 0 where
  pub failure : Option Err
  pub address : ℕ
  pub returned : World R
  pub submitted : Submitted id type payload w failure address returned
  pub answers : Answers submitted.task failure r r'
  pub quiet : Quiet returned w'

module _ {R : Type 0} (env : Env) (http : Http) (registry : HandlerRegistry R) (ctx : Ctx)
    (s : SubmitRequest) (r : Response) (w : World R) (unsent : r.sent ≡ none)
    (encodable : (b : Body) → http.encodes b ≡ true) where
  accept_of :
      (e : Option Err) (p : ℕ) (w1 : World R)
      → (default_orchestrator env memory_store (synchronous registry)).submit ctx s.type s.payload w
        ≡ some ((p, e), w1)
      → Submitted (env.uuid_at w.ids) s.type s.payload w e p w1
      → Returns
          (accept env http (default_orchestrator env memory_store (synchronous registry)) ctx s r w)
          (Served (env.uuid_at w.ids) s.type s.payload r w)
  unfolding accept
  accept_of none p w1 h sub = record {
    value = record r {
      content_type = "application/json";
      sent = some 200;
      written = submit_response (response_of sub.task) ∷ r.written;
    };
    world = w1;
    run = ground (arith, unsent, h, sub.held, encodable (submit_response (response_of sub.task)));
    holds = record {
      failure = none;
      address = p;
      returned = w1;
      submitted = sub;
      answers = (refl, refl);
      quiet = Quiet-refl w1;
    };
  }
  accept_of (some (task_error e)) p w1 h sub =
      let a = respond_with_error_lem env http.encodes e r unsent w1 in
      record {
        value = a.value;
        world = a.world;
        run = ground (arith, h);
        holds = record {
          failure = some (task_error e);
          address = p;
          returned = w1;
          submitted = sub;
          answers = (a.holds.1, a.holds.2);
          quiet = a.holds.0;
        };
      }
  accept_of (some (Err.plain m)) p w1 h sub = absurd sub.structured

  -- A request that is let through, over a store that does not hold the next UUID and handlers that
  -- write only their task's result, with responses that can be encoded: the handler returns; the
  -- task is stored and settled, as `Submitted` says; and the answer is the task as it was stored,
  -- with 200, or else the code of the task's error.
  pub handle_submit_sync :
      (req : Request)
      → Admits http req s
      → IsWellFormed w
      → view w (env.uuid_at w.ids) ≡ none
      → AllTame registry
      → Returns
          (handle_submit env http
            (default_orchestrator env memory_store (synchronous registry))
            ctx
            req
            r
            w)
          (Served (env.uuid_at w.ids) s.type s.payload r w)
  handle_submit_sync req a v fresh tame =
      let o = default_orchestrator env memory_store (synchronous registry) in
      let b = submit_task_sync env registry ctx s.type s.payload w v fresh tame in
      Returns-by (handle_submit_accepted env http o ctx req s r w a)
        (accept_of b.value.1 b.value.0 b.world b.run b.holds)
