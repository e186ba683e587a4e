-- ===== src/Execution/Workflow/Abandoned.antt =====
-- What the workflow does with a task that could not be enqueued.
use architecture_playground.Base.{ℕ, ◌+◌, ◌≡◌, refl, none, some, arith}
use architecture_playground.Errors.{Err, error_text, nil, field, text}
use architecture_playground.Task.{Task, failed, can_transition_to}
use architecture_playground.World.{World, Env, write_at}
use architecture_playground.World.Laws.{Returns, Local, Local-write, Local-trans}
use architecture_playground.Logger.Laws.{log_task-Quiet}
use architecture_playground.Context.{ExecutionContext, set_error}
use architecture_playground.Store.{memory_store}
use architecture_playground.Execution.StateManager.Stored.{Holds, failed_stored, failed_refused}
use architecture_playground.Execution.ResultHandler.Laws.{handle_failure_lem, final_result}
use architecture_playground.Execution.Workflow.{
  default_state_manager, default_result_handler, abandon_enqueueing,
}

module _ {R : Type 0} (env : Env) (x : ExecutionContext) (p : ℕ) (t : Task) (w : World R)
    (task : x.task ≡ some p) (h : Holds p t w) where
  -- After a failed enqueueing the task is failed with the error's own text, and the second of the two
  -- calls of the failure transition finds it failed already.
  pub abandon_enqueueing_lem :
      (e : Err)
      → can_transition_to t.status failed ≡ none
      → Returns
          (abandon_enqueueing env
            (default_state_manager env memory_store)
            (default_result_handler env)
            x
            e
            w)
          (λ e' w'.
            (e' ≡ some e)
            × Local p p w w'
            × ((n : ℕ) × Holds p
                  (record t {
                    status = failed;
                    result = final_result (error_text e) e;
                    completed_at = some (env.time_at n);
                  })
                  w'))
  unfolding abandon_enqueueing set_error can_transition_to
  abandon_enqueueing_lem e allowed =
      let a =
        log_task-Quiet env "failed to enqueue task" (field "error" (text (error_text e)) nil) w
          t.id in
      let x' = record x { error = some e; end_time = some (env.time_at a.world.reads) } in
      let t1 = record t { result = error_text e } in
      let w1 = record a.world { reads = a.world.reads + 1; heap = write_at a.world.heap p t1 } in
      let held1 : Holds p t1 w1 = record { at = ground arith; stored = ground arith } in
      let b = handle_failure_lem x' p t1 w1 e task refl held1 in
      let t2 = record t1 { result = final_result (error_text e) e } in
      let c = failed_stored env x' p t2 b.world task b.holds.1 allowed in
      let t3 = record t2 { status = failed; completed_at = some (env.time_at b.world.reads) } in
      let d = failed_refused env x' p t3 c.world task c.holds.2 (λ z. cc) in
      let f0 = Local-write p t1 w a.world a.holds in
      let f1 = Local-trans p p w w1 b.world f0 b.holds.0 in
      let f2 = Local-trans p p w b.world c.world f1 c.holds.1 in
      let f = Local-trans p p w c.world d.world f2 d.holds.1 in
      record {
        value = some e;
        world = d.world;
        run = ground arith;
        holds = (refl, f, (c.world.reads, d.holds.2));
      }
