-- ===== src/Workers/Laws.antt =====
-- A worker and one task: the store's object under the task's ID ends in a final state.
use architecture_playground.Base.{
  ℕ, ◌+◌, String, ◌<>◌, ◌≡◌, refl, sym, ◌⊎◌, Option, none, some, arith, Option-cases, inl, inr,
  eqb_iff,
}
use architecture_playground.Errors.{Err, plain, error_text, nil, field, text, size}
use architecture_playground.Task.{Task, running, done, failed, can_transition_to}
use architecture_playground.World.{World, Env, write_at}
use architecture_playground.World.Laws.{
  Returns, Quiet, Local, Local-Quiet, Local-write, Local-widen, Local-trans,
}
use architecture_playground.Logger.Laws.{log_task-Quiet}
use architecture_playground.Context.{ExecutionContext, Ctx, set_error}
use architecture_playground.Store.{memory_store}
use architecture_playground.Registry.{TaskHandler, HandlerRegistry, get_handler}
use architecture_playground.Registry.Laws.{ResultOnly, AllTame}
use architecture_playground.Queue.{TaskQueue}
use architecture_playground.Execution.Workflow.{default_state_manager}
use architecture_playground.Execution.StateManager.Copied.{
  Mirrors, running_copied, failed_copied, completed_copied,
}
use architecture_playground.Workers.{
  Worker, execute_task, handle_task_success, handle_task_failure, process_task,
}

-- The worker that the pool makes for the memory store.
abbrev pub made_worker : {R : Type 0} → Env → ℕ → TaskQueue R → HandlerRegistry R → Worker R
made_worker env id queue registry = record {
  id = id;
  queue = queue;
  state_manager = default_state_manager env memory_store;
  registry = registry;
}

Mirrors-Quiet :
    {R : Type 0} {p q : ℕ} {t u : Task} {w w' : World R}
    → Mirrors p q t u w
    → Quiet w w'
    → Mirrors p q t u w'
Mirrors-Quiet h f = ground arith

Mirrors-Local :
    {R : Type 0} {p q : ℕ} {t u : Task} {w w' : World R}
    → Mirrors p q t u w
    → Local p p w w'
    → ResultOnly t (w'.heap p)
    → (r : String) × Mirrors p q (record t { result = r }) u w'
Mirrors-Local {p} {q} {t} {u} {w} {w'} h f k = go (w'.heap p) refl k
  where
    go :
        (o : Option Task)
        → w'.heap p ≡ o
        → ResultOnly t o
        → (r : String) × Mirrors p q (record t { result = r }) u w'
    go none e k = absurd k
    go (some t') e k = (
      t'.result,
      record {
        at = ground arith;
        stored = ground arith;
        original =
            ground (arith, f.frame.same_heap q (λ s. h.apart (sym s)) (λ s. h.apart (sym s)));
        apart = h.apart;
      },
    )

module _ {R : Type 0} (env : Env) (id : ℕ) (queue : TaskQueue R) (registry : HandlerRegistry R)
    (x : ExecutionContext) (p q : ℕ) (t u : Task) (w : World R) (task : x.task ≡ some p)
    (h : Mirrors p q t u w) where
  handle_task_success_lem :
      can_transition_to t.status done ≡ none
      → Returns (handle_task_success env (made_worker env id queue registry) x w) (λ _ w'.
        Local p q w w' × (w'.heap q ≡ some (record u { status = done; result = t.result })))
  unfolding handle_task_success
  handle_task_success_lem allowed =
      let a = completed_copied env x p q t u w task h allowed in
      let f = field "worker_id" (size id) (field "result" (text t.result) nil) in
      let b = log_task-Quiet env "task completed successfully" f a.world t.id in
      record {
        value = tt;
        world = b.world;
        run = ground arith;
        holds = (
          Local-trans p q w a.world b.world a.holds.1 (Local-Quiet p q a.world b.world b.holds),
          ground arith,
        );
      }

  handle_task_failure_lem :
      (e : Err)
      → can_transition_to t.status failed ≡ none
      → Returns (handle_task_failure env (made_worker env id queue registry) x e w) (λ _ w'.
        Local p q w w' × (w'.heap q ≡ some (record u { status = failed; result = error_text e })))
  unfolding handle_task_failure set_error
  handle_task_failure_lem e allowed =
      let f = field "worker_id" (size id) (field "error" (text (error_text e)) nil) in
      let a = log_task-Quiet env "task execution failed" f w t.id in
      let x' = record x { error = some e; end_time = some (env.time_at a.world.reads) } in
      let t1 = record t { result = error_text e } in
      let w1 = record a.world { reads = a.world.reads + 1; heap = write_at a.world.heap p t1 } in
      let held : Mirrors p q t1 u w1 = record {
        at = ground arith;
        stored = ground arith;
        original = ground (arith, eqb_iff p q);
        apart = h.apart;
      } in
      let b = failed_copied env x' p q t1 u w1 task held allowed in
      record {
        value = tt;
        world = b.world;
        run = ground arith;
        holds = (
          Local-trans p q w w1 b.world (Local-widen p q w w1 (Local-write p t1 w a.world a.holds))
              b.holds.1,
          ground arith,
        );
      }

-- What the store's object u becomes when the copy's task is processed: nothing but its status and
-- its result changes, so the times that the worker takes stay with the copy.
abbrev pub Processed : {R : Type 0} → String → HandlerRegistry R → Task → Task → Type 0
Processed type registry u u' = elim (get_handler type registry) [
  | none ↦
      u' ≡ record u { status = failed; result = "no handler registered for task type: " <> type }
  | some h ↦
      (u' ≡ record u { status = done; result = u'.result })
      ⊎ (u' ≡ record u { status = failed; result = u'.result })
]

module _ {R : Type 0} (env : Env) (id : ℕ) (queue : TaskQueue R) (registry : HandlerRegistry R)
    (ctx : Ctx) (x : ExecutionContext) (p q : ℕ) (t u : Task) (w : World R) (task : x.task ≡ some p)
    (h : Mirrors p q t u w) where
  execute_task_missing :
      get_handler t.type registry ≡ none
      → execute_task env (made_worker env id queue registry) ctx (some p) w
        ≡ some (some (plain ("no handler registered for task type: " <> t.type)), w)
  unfolding execute_task
  execute_task_missing missing = ground arith

  execute_task_lem :
      AllTame registry
      → (g : TaskHandler R) → get_handler t.type registry ≡ some g
      → Returns
          (execute_task env (made_worker env id queue registry) ctx (some p) w)
          (λ e w'. Local p p w w' × ((r : String) × Mirrors p q (record t { result = r }) u w'))
  unfolding execute_task
  execute_task_lem tame g found =
      let a = (tame t.type g found).tame ctx p t w h.at in
      record {
        value = a.value;
        world = a.world;
        run = ground arith;
        holds = (a.holds.0, Mirrors-Local h a.holds.0 a.holds.1);
      }

module _ {R : Type 0} (env : Env) (id : ℕ) (queue : TaskQueue R) (registry : HandlerRegistry R)
    (ctx : Ctx) (x : ExecutionContext) (p q : ℕ) (t u : Task) (w : World R) (task : x.task ≡ some p)
    (h : Mirrors p q t u w) where
  -- A decoded task that may start is processed to the end: the worker returns, and the task that the
  -- store holds under the ID is done or failed, failed with a fixed text if no handler is registered.
  pub process_task_lem :
      can_transition_to t.status running ≡ none
      → AllTame registry
      → Returns (process_task env (made_worker env id queue registry) ctx x w) (λ _ w'.
        Local p q w w' × ((u' : Task) × (w'.heap q ≡ some u') × Processed t.type registry u u'))
  unfolding process_task can_transition_to
  process_task_lem allowed tame =
      let f = field "worker_id" (size id) (field "task_type" (text t.type) nil) in
      let a = log_task-Quiet env "worker processing task" f w t.id in
      let b = running_copied env x p q t u a.world task (Mirrors-Quiet h a.holds) allowed in
      let t1 = record t { status = running; started_at = some (env.time_at a.world.reads) } in
      let u1 = record u { status = running; result = t.result } in
      let f1 = Local-trans p q w a.world b.world (Local-Quiet p q w a.world a.holds) b.holds.1 in
      elim (Option-cases (get_handler t.type registry)) [
        | inl missing ↦
            let e = plain ("no handler registered for task type: " <> t.type) in
            let c =
              handle_task_failure_lem env id queue registry x p q t1 u1 b.world task b.holds.2 e
                refl in
            let ran =
              execute_task_missing env id queue registry ctx x p q t1 u1 b.world task b.holds.2
                missing in
            record {
              value = tt;
              world = c.world;
              run = ground arith;
              holds = (
                Local-trans p q w b.world c.world f1 c.holds.0,
                (_, c.holds.1, rw (missing, Processed) refl),
              );
            }
        | inr (g, found) ↦
            let e =
              execute_task_lem env id queue registry ctx x p q t1 u1 b.world task b.holds.2 tame g
                found in
            let (r, m) = e.holds.1 in
            let t2 = record t1 { result = r } in
            let f2 =
              Local-trans p q w b.world e.world f1 (Local-widen p q b.world e.world e.holds.0) in
            elim (Option-cases e.value) [
              | inl fine ↦
                  let c =
                    handle_task_success_lem env id queue registry x p q t2 u1 e.world task m refl in
                  record {
                    value = tt;
                    world = c.world;
                    run = ground arith;
                    holds = (
                      Local-trans p q w e.world c.world f2 c.holds.0,
                      (_, c.holds.1, rw (found, Processed) (inl refl)),
                    );
                  }
              | inr (broken, why) ↦
                  let c =
                    handle_task_failure_lem env id queue registry x p q t2 u1 e.world task m broken
                      refl in
                  record {
                    value = tt;
                    world = c.world;
                    run = ground arith;
                    holds = (
                      Local-trans p q w e.world c.world f2 c.holds.0,
                      (_, c.holds.1, rw (found, Processed) (inr refl)),
                    );
                  }
            ]
      ]
