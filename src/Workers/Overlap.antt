-- ===== src/Workers/Overlap.antt =====
-- Workers whose rounds overlap: each may hold a task that it took from the queue, while others take
-- and finish theirs and clients submit and ask.
pub mod Lists
pub mod Steps
pub mod Taking
pub mod Processing
pub mod Safety
use architecture_playground.Base.{ℕ, ◌<◌, String, ◌≡◌, ◌≢◌, List, [], ◌∷◌, ◌++◌, Option, none, some}
use architecture_playground.Errors.{Err}
use architecture_playground.Task.{Task}
use architecture_playground.World.{World, Env, Result, ok, err}
use architecture_playground.World.Spares.{Unstored}
use architecture_playground.Context.{ExecutionContext, Ctx}
use architecture_playground.Store.{memory_store}
use architecture_playground.Registry.{HandlerRegistry}
use architecture_playground.Queue.{TaskQueue}
use architecture_playground.Runners.{asynchronous}
use architecture_playground.Orchestrator.{submit_task, get_task_status}
use architecture_playground.Workers.{process_task, process_next_task}
use architecture_playground.Workers.Laws.{made_worker}
use architecture_playground.Store.View.{view}
use architecture_playground.Workers.Tracked.{IsTracked}
use architecture_playground.Store.Advance.{Advances}

-- A task that a worker took and has not processed yet: the execution context, and the object that it
-- points to.
pub record Flight : Type 0 where
  pub worker : ℕ
  pub ctx : Ctx
  pub context : ExecutionContext
  pub at : ℕ
  pub copy : Task

abbrev pub copies : List Flight → List Task
copies [] = []
copies (f ∷ fs) = f.copy ∷ copies fs

-- The steps of the program. A round of a worker is two: it takes a task, and it processes it.
pub data Step {R : Type 0} (env : Env) (queue : TaskQueue R) (registry : HandlerRegistry R)
    : List Flight → World R → List Flight → World R → Type 0 where
  submits :
      (ctx : Ctx) (type : String) (payload : List ℕ) (r : ℕ × Option Err) {fs : List Flight}
      {w w' : World R}
      → submit_task env memory_store (asynchronous queue registry) ctx type payload w ≡ some (r, w')
      → Step env queue registry fs w fs w'
  asks :
      (id : String) (r : Result String) {fs : List Flight} {w w' : World R}
      → get_task_status memory_store id w ≡ some (r, w')
      → Step env queue registry fs w fs w'
  takes :
      (id : ℕ) (ctx : Ctx) (x : ExecutionContext) (p : ℕ) (copy : Task) {fs : List Flight}
      {w w' : World R}
      → queue.dequeue ctx w ≡ some (ok x, w')
      → x.task ≡ some p
      → w'.heap p ≡ some copy
      → Step env queue registry fs w
          (fs ++ record { worker = id; ctx = ctx; context = x; at = p; copy = copy } ∷ [])
          w'
  finds_none :
      (id : ℕ) (ctx : Ctx) (e : Err) (w1 : World R) {fs : List Flight} {w w' : World R}
      → queue.dequeue ctx w ≡ some (err e, w1)
      → process_next_task env (made_worker env id queue registry) ctx w ≡ some (tt, w')
      → Step env queue registry fs w fs w'
  processes :
      (before : List Flight) (f : Flight) (after : List Flight) {w w' : World R}
      → process_task env (made_worker env f.worker queue registry) f.ctx f.context w ≡ some (tt, w')
      → Step env queue registry (before ++ f ∷ after) w (before ++ after) w'

pub data Reach {R : Type 0} (env : Env) (queue : TaskQueue R) (registry : HandlerRegistry R)
    (w0 : World R) : List Flight → World R → Type 0 where
  here : Reach env queue registry w0 [] w0
  later :
      {fs fs' : List Flight} {w w' : World R}
      → Reach env queue registry w0 fs w
      → Step env queue registry fs w fs' w'
      → Reach env queue registry w0 fs' w'

-- The worker's object is as it took it, and the store does not hold it.
pub record IsHeld {R : Type 0} (w : World R) (f : Flight) : Type 0 where
  pub points : f.context.task ≡ some f.at
  pub held : w.heap f.at ≡ some f.copy
  pub low : f.at < w.next
  pub out : Unstored w f.at

abbrev pub AllHeld : {R : Type 0} → World R → List Flight → Type 0
AllHeld w [] = Unit
AllHeld w (f ∷ fs) = IsHeld w f × AllHeld w fs

abbrev pub Elsewhere : ℕ → List Flight → Type 0
Elsewhere p [] = Unit
Elsewhere p (f ∷ fs) = (f.at ≢ p) × Elsewhere p fs

-- Each worker has an object of its own.
abbrev pub Apart : List Flight → Type 0
Apart [] = Unit
Apart (f ∷ fs) = Elsewhere f.at fs × Apart fs

-- The tasks us are those that were taken and those that still wait.
abbrev pub Behind : {R : Type 0} → List Task → (R → List Task → Type 0) → R → List Task → Type 0
Behind taken Waits r us = (ts : List Task) × (us ≡ taken ++ ts) × Waits r ts

-- Each task that was taken or waits is stored as queued, once; every other is done or failed.
pub record IsOverlapped {R : Type 0} (env : Env) (Waits : R → List Task → Type 0) (fs : List Flight)
    (us : List Task) (w : World R) : Type 0 where
  pub tracked : IsTracked env (Behind (copies fs) Waits) us w
  pub held : AllHeld w fs
  pub apart : Apart fs

-- What follows a state w: the flights are these, all is in order, and no task was lost.
abbrev pub Stays :
    {R : Type 0} → Env → (R → List Task → Type 0) → World R → List Flight → World R → Type 0
Stays env Waits w fs w' =
    (us : List Task) × IsOverlapped env Waits fs us w' × Advances (view w) (view w')
