-- ===== src/Workers/System.antt =====
-- The asynchronous program as a system: submissions, status queries and the rounds of its workers, in
-- any order. Each is one step, since a worker works on a copy of its own.
use mathlib.Core.Path.{subst}
use architecture_playground.Base.{
  ℕ, String, ◌≡◌, sym, ap, List, Option, some, Option-cases, inl, inr,
}
use architecture_playground.Errors.{Err}
use architecture_playground.Task.{Task}
use architecture_playground.World.{World, Env, Result}
use architecture_playground.World.Laws.{Returns, Returns-run, Returns-map}
use architecture_playground.Context.{Ctx}
use architecture_playground.Store.{memory_store}
use architecture_playground.Store.View.{view}
use architecture_playground.Registry.{HandlerRegistry}
use architecture_playground.Registry.Laws.{AllTame}
use architecture_playground.Queue.{TaskQueue}
use architecture_playground.Queue.Fifo.{IsFifo}
use architecture_playground.Runners.{asynchronous}
use architecture_playground.Orchestrator.{submit_task, get_task_status}
use architecture_playground.Orchestrator.Laws.{get_task_status_found, get_task_status_missing}
use architecture_playground.Orchestrator.Settled.{Unique}
use architecture_playground.Workers.{process_next_task}
use architecture_playground.Workers.Laws.{made_worker}
use architecture_playground.Workers.Tracked.{IsTracked, SameStore-IsTracked}
use architecture_playground.Workers.Steps.{submit_task-IsTracked}
use architecture_playground.Workers.Rounds.{process_next_task-IsTracked}
use architecture_playground.Store.Advance.{Advances, Advances-refl, Advances-same, Advances-trans}

pub data Step {R : Type 0} (env : Env) (queue : TaskQueue R) (registry : HandlerRegistry R)
    : World R → World R → Type 0 where
  submits :
      (ctx : Ctx) (type : String) (payload : List ℕ) (r : ℕ × Option Err) {w w' : World R}
      → submit_task env memory_store (asynchronous queue registry) ctx type payload w ≡ some (r, w')
      → Step env queue registry w w'
  works :
      (id : ℕ) (ctx : Ctx) {w w' : World R}
      → process_next_task env (made_worker env id queue registry) ctx w ≡ some (tt, w')
      → Step env queue registry w w'
  asks :
      (id : String) (r : Result String) {w w' : World R}
      → get_task_status memory_store id w ≡ some (r, w')
      → Step env queue registry w w'

pub data Reach {R : Type 0} (env : Env) (queue : TaskQueue R) (registry : HandlerRegistry R)
    (w0 : World R) : World R → Type 0 where
  here : Reach env queue registry w0 w0
  later :
      {w w' : World R}
      → Reach env queue registry w0 w
      → Step env queue registry w w'
      → Reach env queue registry w0 w'

module _ {R : Type 0} (env : Env) (queue : TaskQueue R) (registry : HandlerRegistry R)
    (Waits : R → List Task → Type 0) (unique : Unique env) (fifo : IsFifo queue Waits)
    (tame : AllTame registry) where
  status_IsTracked :
      (id : String) (ts : List Task) (w : World R)
      → IsTracked env Waits ts w
      → Returns
          (get_task_status memory_store id w)
          (λ _ w'. IsTracked env Waits ts w' × Advances (view w) (view w'))
  status_IsTracked id ts w s = elim (Option-cases (view w id)) [
    | inl missing ↦ Returns-map (get_task_status_missing id w s.valid missing) (λ _ w' h. (
      subst (IsTracked env Waits ts) (sym h.3) s,
      Advances-same (view w) (view w') (λ j. ap (λ z. view z j) h.3),
    ))
    | inr (t, found) ↦ Returns-map (get_task_status_found id w s.valid t found) (λ _ w' h. (
      SameStore-IsTracked env Waits ts w s w' h.1,
      Advances-same (view w) (view w') h.1.same_view,
    ))
  ]

  Step-IsTracked :
      {w w' : World R}
      → Step env queue registry w w'
      → (ts : List Task) × IsTracked env Waits ts w
      → (us : List Task) × IsTracked env Waits us w' × Advances (view w) (view w')
  Step-IsTracked {w} {w'} (submits ctx type payload r e) (ts, s) =
      let (us, k, more, _) =
        Returns-run
          (submit_task-IsTracked env Waits ts w s unique type payload queue registry ctx fifo.send)
          r w' e in
      (us, k, more)
  Step-IsTracked {w} {w'} (works id ctx e) (ts, s) =
      let (us, k, _, more) =
        Returns-run (process_next_task-IsTracked env id queue registry ctx Waits ts w s tame fifo)
          tt w' e in
      (us, k, more)
  Step-IsTracked {w} {w'} (asks id r e) (ts, s) =
      let (k, more) = Returns-run (status_IsTracked id ts w s) r w' e in (ts, k, more)

  module _ (w0 : World R) (first : (ts : List Task) × IsTracked env Waits ts w0) where
    -- No task is lost: in every state that the program reaches, whatever the order of submissions,
    -- queries and rounds, each stored task waits in the queue, once and stored as queued, or is done
    -- or failed; every task stored at the start is still stored with its type and payload, its status
    -- has not gone back, and one that was over at the start is as it was.
    pub Reach-IsTracked :
        {w : World R}
        → Reach env queue registry w0 w
        → (ts : List Task) × IsTracked env Waits ts w × Advances (view w0) (view w)
    Reach-IsTracked here = (first.0, first.1, Advances-refl (view w0))
    Reach-IsTracked {w} (later {w = w1} r st) =
        let (ts, s, before) = Reach-IsTracked r in
        let (us, k, last) = Step-IsTracked st (ts, s) in
        (us, k, Advances-trans (view w0) (view w1) (view w) before last)
