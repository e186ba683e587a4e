-- ===== src/Execution/Workflow/Async.antt =====
-- Asynchronous execution with the memory store: the task is queued, or failed with the error's text.
use mathlib.Core.Path.{subst}
use architecture_playground.Base.{ℕ, ◌≡◌, ◌≢◌, refl, sym, Option, none, some, arith}
use architecture_playground.Errors.{Err, error_text, nil}
use architecture_playground.Task.{Task, queued, failed, can_transition_to}
use architecture_playground.World.{World, Env}
use architecture_playground.World.Laws.{Returns, Returns-map, Frame, Frame-Quiet, Frame-trans}
use architecture_playground.Logger.Laws.{log_task-Quiet}
use architecture_playground.Context.{ExecutionContext, Ctx}
use architecture_playground.Store.{memory_store}
use architecture_playground.Registry.{HandlerRegistry}
use architecture_playground.Queue.{TaskQueue}
use architecture_playground.Queue.Laws.{Frame-Kept, IsCalm, OnSend, Delivers, IsCalm-Delivers}
use architecture_playground.Runners.{asynchronous, run_async}
use architecture_playground.Runners.Laws.{IsStructured}
use architecture_playground.Execution.StateManager.Stored.{Holds, Holds-Quiet, queued_stored}
use architecture_playground.Execution.StateManager.{transition_to_queued}
use architecture_playground.Execution.ResultHandler.Laws.{final_result}
use architecture_playground.Execution.Workflow.{
  default_state_manager, default_result_handler, execute_async,
}
use architecture_playground.Runners.Delivery.{run_async_lem}
use architecture_playground.Execution.Workflow.Abandoned.{abandon_enqueueing_lem}

-- How a task stands after it was handed to the queue, and why it was not.
abbrev pub Handed : {R : Type 0} → Env → Task → Option Err → Task → World R → Type 0
Handed env t none t' w =
    t' ≡ record t { status = queued; queued_at = some (env.time_at w.reads); result = "" }
Handed env t (some e) t' w =
    (t'.status ≡ failed)
    × (t'.result ≡ final_result (error_text e) e)
    × (t'.id ≡ t.id)
    × (t'.type ≡ t.type)
    × (t'.payload ≡ t.payload)
    × (t'.queued_at ≡ some (env.time_at w.reads))
    × (t'.completed_at ≢ none)

module _ {R : Type 0} (env : Env) (queue : TaskQueue R) (registry : HandlerRegistry R) (ctx : Ctx)
    (x : ExecutionContext) (p : ℕ) (t : Task) (w : World R) (task : x.task ≡ some p)
    (h : Holds p t w) (allowed : can_transition_to t.status queued ≡ none) where
  abbrev pub waiting_task : Task
  waiting_task = record t { status = queued; queued_at = some (env.time_at w.reads); result = "" }

  abbrev pub Ends :
      (ExecutionContext → Task → R → R → Type 0) → (R → R → Type 0) → Option Err → World R → Type 0
  Ends Sent Unsent e w' =
      IsStructured e
      × Frame p p w w'
      × ((t' : Task) × Holds p t' w' × Handed env t e t' w)
      × OnSend Sent Unsent x waiting_task e w.server w'.server

  -- What follows the runner, by its outcome.
  async-Ends :
      (Sent : ExecutionContext → Task → R → R → Type 0) (Unsent : R → R → Type 0) (w1 w2 : World R)
      (e : Option Err)
      → transition_to_queued env memory_store x w ≡ some (none, w1)
      → run_async queue registry ctx x w1 ≡ some (e, w2)
      → IsStructured e
      → Frame p p w w2
      → Holds p waiting_task w2
      → OnSend Sent Unsent x waiting_task e w.server w2.server
      → Returns
          (execute_async env
            (default_state_manager env memory_store)
            (default_result_handler env)
            (asynchronous queue registry)
            ctx
            x
            w)
          (Ends Sent Unsent)
  unfolding execute_async can_transition_to
  async-Ends Sent Unsent w1 w2 none moved ran structured f held o =
      let d = log_task-Quiet env "task successfully queued" nil w2 t.id in
      record {
        value = none;
        world = d.world;
        run = ground arith;
        holds = (
          tt,
          Frame-trans p p w w2 d.world f (Frame-Quiet p p w2 d.world d.holds),
          (waiting_task, Holds-Quiet held d.holds, refl),
          subst (λ s. Sent x waiting_task w.server s) (sym d.holds.same_server) o,
        );
      }
  async-Ends Sent Unsent w1 w2 (some e) moved ran structured f held o =
      let d = abandon_enqueueing_lem env x p waiting_task w2 task held e refl in
      record {
        value = some e;
        world = d.world;
        run = ground arith;
        holds = (
          structured,
          Frame-trans p p w w2 d.world f d.holds.1.frame,
          (_, d.holds.2.1, ground arith),
          subst (λ s. Unsent w.server s) (sym d.holds.1.same_server) o,
        );
      }

  -- With the memory store, asynchronous execution of a task that may be queued returns; what is known
  -- of the queue tells what became of the server.
  pub execute_async_delivers :
      (Sent : ExecutionContext → Task → R → R → Type 0) (Unsent : R → R → Type 0)
      → Delivers queue Sent Unsent
      → Returns
          (execute_async env
            (default_state_manager env memory_store)
            (default_result_handler env)
            (asynchronous queue registry)
            ctx
            x
            w)
          (Ends Sent Unsent)
  execute_async_delivers Sent Unsent c =
      let a = queued_stored env x p t w task h allowed in
      let b =
        run_async_lem queue registry ctx x p waiting_task a.world task a.holds.2.at Sent Unsent c in
      async-Ends Sent Unsent a.world b.world b.value (ground arith) b.run b.holds.0
        (Frame-trans p p w a.world b.world a.holds.1.frame
          (Frame-Kept p p a.world b.world b.holds.1))
        (record { at = ground arith; stored = ground arith })
        (subst (λ s. OnSend Sent Unsent x waiting_task b.value s b.world.server)
          a.holds.1.same_server b.holds.2)

  -- With the memory store, asynchronous execution of a task that may be queued returns, and every
  -- error is structured. Without an error the task is queued, stamped with the clock's reading, and
  -- its result is empty; with an error it is failed and its result is the error's text.
  pub execute_async_lem :
      IsCalm queue
      → Returns
          (execute_async env
            (default_state_manager env memory_store)
            (default_result_handler env)
            (asynchronous queue registry)
            ctx
            x
            w)
          (λ e w'.
            IsStructured e × Frame p p w w' × ((t' : Task) × Holds p t' w' × Handed env t e t' w))
  execute_async_lem c =
      Returns-map (execute_async_delivers _ _ (IsCalm-Delivers queue c)) (λ e w' z. (z.0, z.1, z.2))
