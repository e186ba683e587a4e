-- ===== src/Execution/Workflow/Sync.antt =====
-- Synchronous execution with the memory store and tame handlers.
use architecture_playground.Base.{
  ℕ, ◌+◌, ◌≡◌, ◌≢◌, refl, Option, none, some, arith, Option-cases, inl, inr,
}
use architecture_playground.Errors.{Err, error_text, nil, field, text}
use architecture_playground.Task.{Task, done, failed, running, can_transition_to}
use architecture_playground.World.{World, Env}
use architecture_playground.World.Laws.{
  Returns, Quiet-refl, ticked, Local, Local-Quiet, Local-trans,
}
use architecture_playground.Context.{ExecutionContext, Ctx, set_error}
use architecture_playground.Logger.Laws.{log_task-Quiet}
use architecture_playground.Store.{memory_store}
use architecture_playground.Registry.{HandlerRegistry}
use architecture_playground.Registry.Laws.{AllTame}
use architecture_playground.Runners.{synchronous}
use architecture_playground.Runners.Laws.{IsStructured, run_sync_lem}
use architecture_playground.Execution.StateManager.Stored.{
  Holds, Holds-Quiet, Holds-Local, running_stored, failed_stored, completed_stored,
}
use architecture_playground.Execution.ResultHandler.{handle_success}
use architecture_playground.Execution.ResultHandler.Laws.{
  handle_failure_lem, final_result, final_result-ne-nil,
}
use architecture_playground.Execution.Workflow.{
  default_state_manager, default_result_handler, fail_sync, complete_sync, execute_sync,
}

-- How a task stands when its execution has ended with the error e.
abbrev pub Outcome : Option Err → Task → Type 0
Outcome none t = t.status ≡ done
Outcome (some e) t = (t.status ≡ failed) × (t.result ≢ "")

-- t' is what became of t.
pub record Settled (t : Task) (e : Option Err) (t' : Task) : Type 0 where
  pub same_id : t'.id ≡ t.id
  pub same_type : t'.type ≡ t.type
  pub same_payload : t'.payload ≡ t.payload
  pub started : t'.started_at ≢ none
  pub completed : t'.completed_at ≢ none
  pub outcome : Outcome e t'

-- The task at p is one that t became, and the store still holds it.
abbrev pub SettledAt : {R : Type 0} → ℕ → Task → Option Err → World R → Type 0
SettledAt p t e w = (t' : Task) × Holds p t' w × Settled t e t'

module _ {R : Type 0} (env : Env) (x : ExecutionContext) (p : ℕ) (t : Task) (w : World R)
    (task : x.task ≡ some p) (h : Holds p t w) where
  pub fail_sync_lem :
      (e : Err)
      → can_transition_to t.status failed ≡ none
      → Returns
          (fail_sync env
            (default_state_manager env memory_store)
            (default_result_handler env)
            x
            e
            w)
          (λ e' w'.
            (e' ≡ some e)
            × Local p p w w'
            × ((n : ℕ) × Holds p
                  (record t {
                    status = failed;
                    result = final_result t.result e;
                    completed_at = some (env.time_at n);
                  })
                  w'))
  unfolding fail_sync set_error
  fail_sync_lem e allowed =
      let a =
        log_task-Quiet env "execution failed" (field "error" (text (error_text e)) nil) w t.id in
      let x' = record x { error = some e; end_time = some (env.time_at a.world.reads) } in
      let w1 = record a.world { reads = a.world.reads + 1 } in
      let b =
        handle_failure_lem x' p t w1 e task refl
          (record { at = ground arith; stored = ground arith }) in
      let c =
        failed_stored env x' p (record t { result = final_result t.result e }) b.world task
          b.holds.1 allowed in
      record {
        value = some e;
        world = c.world;
        run = ground arith;
        holds = (
          refl,
          Local-trans p p w w1 c.world (Local-Quiet p p w w1 (ticked a.holds))
              (Local-trans p p w1 b.world c.world b.holds.0 c.holds.1),
          (b.world.reads, c.holds.2),
        );
      }

  pub complete_sync_lem :
      can_transition_to t.status done ≡ none
      → Returns
          (complete_sync env
            (default_state_manager env memory_store)
            (default_result_handler env)
            x
            w)
          (λ e w'.
            (e ≡ none)
            × Local p p w w'
            × ((n : ℕ) × Holds p
                  (record t { status = done; completed_at = some (env.time_at n) })
                  w'))
  unfolding complete_sync handle_success
  complete_sync_lem allowed =
      let x' = record x { end_time = some (env.time_at w.reads) } in
      let w1 = record w { reads = w.reads + 1 } in
      let a =
        completed_stored env x' p t w1 task (record { at = h.at; stored = h.stored }) allowed in
      let b = log_task-Quiet env "task completed" (field "status" (text "done") nil) a.world t.id in
      record {
        value = none;
        world = b.world;
        run = ground arith;
        holds = (
          refl,
          Local-trans p p w a.world b.world
              (Local-trans p p w w1 a.world (Local-Quiet p p w w1 (ticked (Quiet-refl w)))
                a.holds.1)
              (Local-Quiet p p a.world b.world b.holds),
          (w1.reads, Holds-Quiet a.holds.2 b.holds),
        );
      }

module _ {R : Type 0} (env : Env) (registry : HandlerRegistry R) (ctx : Ctx) (x : ExecutionContext)
    (p : ℕ) (t : Task) (w : World R) (task : x.task ≡ some p) (h : Holds p t w)
    (allowed : can_transition_to t.status running ≡ none) (tame : AllTame registry) where
  -- With the memory store and handlers that write only their task's result, synchronous execution
  -- of a task that may start returns; every error is structured; and the task is done if there is no
  -- error, failed with a text otherwise, with both times set and its ID, type and payload kept.
  pub execute_sync_lem :
      Returns
        (execute_sync env
          (default_state_manager env memory_store)
          (default_result_handler env)
          (synchronous registry)
          ctx
          x
          w)
        (λ e w'. IsStructured e × Local p p w w' × SettledAt p t e w')
  unfolding execute_sync can_transition_to
  execute_sync_lem =
      let a = running_stored env x p t w task h allowed in
      let t1 = record t { status = running; started_at = some (env.time_at w.reads) } in
      let b = run_sync_lem registry ctx x p t1 a.world task a.holds.2.at tame in
      let (r, held) = Holds-Local a.holds.2 b.holds.1 b.holds.2 in
      let t2 = record t1 { result = r } in
      let f = Local-trans p p w a.world b.world a.holds.1 b.holds.1 in
      elim (Option-cases b.value) [
        | inl fine ↦
            let c = complete_sync_lem env x p t2 b.world task held refl in
            record {
              value = none;
              world = c.world;
              run = ground arith;
              holds = (
                tt,
                Local-trans p p w b.world c.world f c.holds.1,
                (_, c.holds.2.1, ground arith),
              );
            }
        | inr (e, broken) ↦
            let c = fail_sync_lem env x p t2 b.world task held e refl in
            record {
              value = some e;
              world = c.world;
              run = ground arith;
              holds = (
                ground arith,
                Local-trans p p w b.world c.world f c.holds.1,
                (_, c.holds.2.1, ground (arith, final_result-ne-nil r e)),
              );
            }
      ]
