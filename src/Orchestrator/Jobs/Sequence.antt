-- ===== src/Orchestrator/Jobs/Sequence.antt =====
-- A submission whose steps follow one another is a call of `SubmitTask`.
use architecture_playground.Base.{
  length, ◌+◌, arith, ℕ, String, ◌≡◌, refl, List, Option, none, some,
}
use architecture_playground.Errors.{
  Err, error_text, task_error, new_internal_error, nil, field, text, size,
}
use architecture_playground.Task.{Task, new_task}
use architecture_playground.Logger.Laws.{log_task-Quiet}
use architecture_playground.World.{write_at, World, M, Env, pure, ◌>>=◌, on_error}
use architecture_playground.Context.{ExecutionContext, Ctx}
use architecture_playground.Store.{TaskStore}
use architecture_playground.Registry.{HandlerRegistry}
use architecture_playground.Runners.{synchronous, run_sync}
use architecture_playground.Execution.StateManager.{transition_to_running}
use architecture_playground.Execution.Workflow.{
  default_state_manager, default_result_handler, execute, execute_sync, fail_sync, complete_sync,
}
use architecture_playground.Orchestrator.{submit_task, execute_task}
use architecture_playground.Orchestrator.Jobs.{
  Stage, entered, started, ran, over, enter, next_stage, error_of,
}

module _ {R : Type 0} (env : Env) (store : TaskStore R) (registry : HandlerRegistry R)
    (ctx : Ctx) where
  -- Three steps from where the task is saved.
  abbrev pub to_end : Stage → M R (Option Err)
  to_end s = do
    s1 ← next_stage env store registry ctx s
    s2 ← next_stage env store registry ctx s1
    s3 ← next_stage env store registry ctx s2
    pure (error_of s3)

  over-to_end : (e : Option Err) (w : World R) → to_end (over e) w ≡ some (e, w)
  unfolding next_stage
  over-to_end e w = refl

  -- The last step, after the handler has returned.
  ended :
      (x : ExecutionContext) (failed : Option Err) (w : World R)
      → on_error failed
          (λ e. fail_sync env (default_state_manager env store) (default_result_handler env) x e)
          (complete_sync env (default_state_manager env store) (default_result_handler env) x)
          w
        ≡ (do s ← next_stage env store registry ctx (ran x failed); pure (error_of s)) w
  unfolding next_stage
  ended x none w = ground arith
  ended x (some e) w = ground arith

  execute_sync-to_end :
      (x : ExecutionContext) (w : World R)
      → execute_sync env
          (default_state_manager env store)
          (default_result_handler env)
          (synchronous registry)
          ctx
          x
          w
        ≡ to_end (entered x) w
  unfolding execute_sync next_stage
  execute_sync-to_end x w = go (transition_to_running env store x w) refl
    where
      ran_on :
          (o : Option (Option Err × World R)) (w1 : World R)
          → run_sync registry ctx x w1 ≡ o
          → (run_sync registry ctx x >>= λ failed.
                on_error failed
                  (λ e.
                    fail_sync env
                      (default_state_manager env store)
                      (default_result_handler env)
                      x
                      e)
                  (complete_sync env
                    (default_state_manager env store)
                    (default_result_handler env)
                    x))
              w1
            ≡ (next_stage env store registry ctx (started x) >>= λ s1.
                  next_stage env store registry ctx s1 >>= λ s. pure (error_of s))
                w1
      ran_on none w1 e = ground (arith, e)
      ran_on (some (failed, w2)) w1 e = ground (arith, e, ended x failed w2)

      go :
          (o : Option (Option Err × World R))
          → transition_to_running env store x w ≡ o
          → execute_sync env
              (default_state_manager env store)
              (default_result_handler env)
              (synchronous registry)
              ctx
              x
              w
            ≡ to_end (entered x) w
      go none e = ground (arith, e)
      go (some (some err, w1)) e = ground (arith, e)
      go (some (none, w1)) e = ground (arith, e, ran_on (run_sync registry ctx x w1) w1 refl)

  -- With any store, `SubmitTask` with the synchronous runner is the entering of the task followed by
  -- three steps, each when the one before it has ended.
  pub submit_task-enter :
      (type : String) (payload : List ℕ) (w : World R)
      → submit_task env store (synchronous registry) ctx type payload w
        ≡ (do job ← enter env store ctx type payload; e ← to_end job.stage; pure (job.at, e)) w
  unfolding submit_task enter execute_task execute
  submit_task-enter type payload w = saved (store.save w.next w0) refl
    where
      t0 : Task
      t0 = new_task (env.uuid_at w.ids) (env.time_at w.reads) type payload

      w0 : World R
      w0 = record w {
        heap = write_at w.heap w.next t0;
        next = w.next + 1;
        reads = w.reads + 1;
        ids = w.ids + 1;
      }

      same : Type 0
      same =
          submit_task env store (synchronous registry) ctx type payload w
          ≡ (enter env store ctx type payload >>= λ job. to_end job.stage >>= λ e. pure (job.at, e))
              w

      held :
          (lost : Option Err) (w1 : World R) (o : Option Task)
          → store.save w.next w0 ≡ some (lost, w1)
          → w1.heap w.next ≡ o
          → same
      held lost w1 none saved at = ground (arith, saved, at)
      held (some e) w1 (some t) saved at =
          let a =
            log_task-Quiet env t.id (field "error" (text (error_text e)) nil) w1
              "failed to save task" in
          ground (
            arith,
            saved,
            at,
            a.run,
            over-to_end (some (task_error (new_internal_error "failed to save task"))) a.world,
          )
      held none w1 (some t) saved at =
          let a =
            log_task-Quiet env "task submitted"
              (field "task_type" (text t.type) (field "payload_size" (size (length t.payload)) nil))
              w1 t.id in
          let x : ExecutionContext = record {
            task = some w.next;
            error = none;
            start_time = env.time_at a.world.reads;
            end_time = none;
          } in
          ground (
            arith,
            saved,
            at,
            a.run,
            execute_sync-to_end x (record a.world { reads = a.world.reads + 1 }),
          )

      saved : (o : Option (Option Err × World R)) → store.save w.next w0 ≡ o → same
      saved none e = ground (arith, e)
      saved (some (lost, w1)) e = held lost w1 (w1.heap w.next) e refl
