-- ===== src/Runners/Delivery.antt =====
-- How the asynchronous runner ends, over what is known of its queue.
use architecture_playground.Base.{ℕ, ◌≡◌, ◌<>◌, Option, none, some, arith, Option-cases, inl, inr}
use architecture_playground.Errors.{
  Err, task_error, plain, new_execution_error, new_not_found_error,
}
use architecture_playground.Task.{Task}
use architecture_playground.World.{World}
use architecture_playground.World.Laws.{Returns}
use architecture_playground.Context.{ExecutionContext, Ctx}
use architecture_playground.Registry.{TaskHandler, HandlerRegistry, get_handler}
use architecture_playground.Queue.{TaskQueue}
use architecture_playground.Queue.Laws.{Kept, Kept-refl, OnSend, Delivers}
use architecture_playground.Runners.{run_async, execution_details}
use architecture_playground.Runners.Laws.{IsStructured}

module _ {R : Type 0} (queue : TaskQueue R) (registry : HandlerRegistry R) (ctx : Ctx)
    (x : ExecutionContext) (p : ℕ) (t : Task) (w : World R) (task : x.task ≡ some p)
    (at : w.heap p ≡ some t) (Sent : ExecutionContext → Task → R → R → Type 0)
    (Unsent : R → R → Type 0) (c : Delivers queue Sent Unsent) where
  -- The runner changes the kind of an error and not whether there is one.
  run_async_sends :
      (h : TaskHandler R)
      → get_handler t.type registry ≡ some h
      → (r : Option Err) (w' : World R) → queue.enqueue ctx x w ≡ some (r, w')
      → Kept w w'
      → OnSend Sent Unsent x t r w.server w'.server
      → Returns
          (run_async queue registry ctx x w)
          (λ e w''. IsStructured e × Kept w w'' × OnSend Sent Unsent x t e w.server w''.server)
  unfolding run_async
  run_async_sends h found none w' sent k o = record {
    value = none;
    world = w';
    run = ground arith;
    holds = (tt, k, o);
  }
  run_async_sends h found (some (task_error e)) w' sent k o = record {
    value = some (task_error e);
    world = w';
    run = ground arith;
    holds = (tt, k, o);
  }
  run_async_sends h found (some (Err.plain m)) w' sent k o = record {
    value =
        some (
          task_error
            (new_execution_error "failed to enqueue task" (execution_details t (plain m))));
    world = w';
    run = ground arith;
    holds = (tt, k, o);
  }

  -- Every error of the runner is structured, and the task was handed to the queue or it was not.
  pub run_async_lem :
      Returns
        (run_async queue registry ctx x w)
        (λ e w'. IsStructured e × Kept w w' × OnSend Sent Unsent x t e w.server w'.server)
  unfolding run_async
  run_async_lem = elim (Option-cases (get_handler t.type registry)) [
    | inl missing ↦ record {
      value =
          some
            (task_error (new_not_found_error ("no handler registered for task type: " <> t.type)));
      world = w;
      run = ground arith;
      holds = (tt, Kept-refl w, c.unsent_refl w.server);
    }
    | inr (h, found) ↦
        let a = c.deliver ctx x p t w task at in
        run_async_sends h found a.value a.world a.run a.holds.0 a.holds.1
  ]
