-- ===== src/Orchestrator/Jobs.antt =====
-- Submissions to the synchronous runner that overlap in time, as net/http serves them: `SubmitTask`
-- and `executeSync` cut into steps, between which other requests are served.
pub mod Sequence
pub mod Moves
pub mod Invariant
pub mod Steps
pub mod Entering
pub mod Safety
pub mod Ending
use architecture_playground.Base.{
  suc, ℕ, String, ◌≡◌, List, [], ◌∷◌, ◌++◌, Option, none, some, length,
}
use architecture_playground.Errors.{
  Err, task_error, error_text, nil, field, text, size, new_internal_error,
}
use architecture_playground.Task.{new_task}
use architecture_playground.World.{
  World, M, Env, Result, pure, ◌>>=◌, ◌>>◌, on_error, deref, alloc, now, new_uuid,
}
use architecture_playground.Logger.{log_task}
use architecture_playground.Context.{ExecutionContext, Ctx, new_execution_context}
use architecture_playground.Store.{TaskStore, memory_store}
use architecture_playground.Registry.{HandlerRegistry}
use architecture_playground.Runners.{run_sync}
use architecture_playground.Execution.StateManager.{transition_to_running}
use architecture_playground.Execution.Workflow.{
  default_state_manager, default_result_handler, fail_sync, complete_sync,
}
use architecture_playground.Orchestrator.{get_task_status}

-- How far a submission is: its task is saved; marked as running; its handler has returned; or it has
-- ended, with the error that the client gets.
pub data Stage : Type 0 where
  entered : ExecutionContext → Stage
  started : ExecutionContext → Stage
  ran : ExecutionContext → Option Err → Stage
  over : Option Err → Stage

-- A submission in progress, with the address of its task.
pub record Job : Type 0 where
  pub ctx : Ctx
  pub at : ℕ
  pub stage : Stage

module _ {R : Type 0} (env : Env) (store : TaskStore R) where
  -- `SubmitTask` and `Execute` up to the choice of a strategy.
  unfoldable pub enter : Ctx → String → List ℕ → M R Job
  unfolding deref alloc now new_uuid log_task new_execution_context
  enter ctx type payload = do
    uuid ← new_uuid env
    t ← now env
    p ← alloc (new_task uuid t type payload)
    lost ← store.save p
    task ← deref (some p)
    on_error lost
        (λ e. do
          log_task env "failed to save task" task.id (field "error" (text (error_text e)) nil)
          pure (record {
            ctx = ctx;
            at = p;
            stage = over (some (task_error (new_internal_error "failed to save task")));
          }))
        (do
          log_task env task.id "task submitted" (
              field "task_type" (text task.type)
                (field "payload_size" (size (length task.payload)) nil))
          x ← new_execution_context env (some p)
          pure (record { ctx = ctx; at = p; stage = entered x }))

module _ {R : Type 0} (env : Env) (store : TaskStore R) (registry : HandlerRegistry R) where
  -- The next step of `executeSync`.
  unfoldable pub next_stage : Ctx → Stage → M R Stage
  unfolding transition_to_running run_sync fail_sync complete_sync
  next_stage ctx (entered x) = do
    refused ← transition_to_running env store x
    on_error refused (λ e. pure (over (some e))) (pure (started x))
  next_stage ctx (started x) = do failed ← run_sync registry ctx x; pure (ran x failed)
  next_stage ctx (ran x (some e)) = do
    failed ← fail_sync env (default_state_manager env store) (default_result_handler env) x e
    pure (over failed)
  next_stage ctx (ran x none) = do
    failed ← complete_sync env (default_state_manager env store) (default_result_handler env) x
    pure (over failed)
  next_stage ctx (over e) = pure (over e)

-- What `SubmitTask` returns beside the task.
abbrev pub error_of : Stage → Option Err
error_of (over e) = e
error_of _ = none

-- Any number of submissions, each at its stage, with status queries between their steps.
pub data Step {R : Type 0} (env : Env) (registry : HandlerRegistry R)
    : List Job → World R → List Job → World R → Type 0 where
  submits :
      (ctx : Ctx) (type : String) (payload : List ℕ) (job : Job) {js : List Job} {w w' : World R}
      → enter env memory_store ctx type payload w ≡ some (job, w')
      → Step env registry js w (js ++ job ∷ []) w'
  asks :
      (id : String) (r : Result String) {js : List Job} {w w' : World R}
      → get_task_status memory_store id w ≡ some (r, w')
      → Step env registry js w js w'
  moves :
      (before : List Job) (job : Job) (after : List Job) (stage : Stage) {w w' : World R}
      → next_stage env memory_store registry job.ctx job.stage w ≡ some (stage, w')
      → Step env registry
          (before ++ job ∷ after)
          w
          (before ++ record job { stage = stage } ∷ after)
          w'

pub data Reach {R : Type 0} (env : Env) (registry : HandlerRegistry R) (w0 : World R)
    : List Job → World R → Type 0 where
  here : Reach env registry w0 [] w0
  later :
      {js js' : List Job} {w w' : World R}
      → Reach env registry w0 js w
      → Step env registry js w js' w'
      → Reach env registry w0 js' w'

-- A number of steps of the submissions in progress, with nothing between them.
pub data Runs {R : Type 0} (env : Env) (registry : HandlerRegistry R)
    : ℕ → List Job → World R → List Job → World R → Type 0 where
  stop : {js : List Job} {w : World R} → Runs env registry 0 js w js w
  step :
      (before : List Job) (job : Job) (after : List Job) (stage : Stage) {n : ℕ} {js' : List Job}
      {w w1 w' : World R}
      → next_stage env memory_store registry job.ctx job.stage w ≡ some (stage, w1)
      → Runs env registry n (before ++ record job { stage = stage } ∷ after) w1 js' w'
      → Runs env registry (suc n) (before ++ job ∷ after) w js' w'
