-- ===== src/Workers/Liveness.antt =====
-- Every submitted task is finished by a worker that nobody stops.
use architecture_playground.Base.{
  ℕ, ◌≤◌, String, ◌≡◌, true, false, length, List, [], some, arith, lookup, refl,
}
use architecture_playground.Task.{Task, is_final}
use architecture_playground.World.{World, Env}
use architecture_playground.World.Laws.{Returns}
use architecture_playground.Context.{Ctx}
use architecture_playground.Store.View.{view}
use architecture_playground.Registry.{HandlerRegistry}
use architecture_playground.Registry.Laws.{AllTame}
use architecture_playground.Queue.{TaskQueue}
use architecture_playground.Queue.Fifo.{IsFifo, IsPrompt}
use architecture_playground.Orchestrator.Settled.{Unique}
use architecture_playground.Main.Laws.{new_world}
use architecture_playground.Workers.{start}
use architecture_playground.Workers.Laws.{made_worker}
use architecture_playground.Workers.Tracked.{IsTracked}
use architecture_playground.Store.Advance.{Advances}
use architecture_playground.Workers.System.{Reach, Reach-IsTracked}
use architecture_playground.Workers.Draining.{idle, start-idle}

pub new_world-IsTracked :
    {R : Type 0} (env : Env) (Waits : R → List Task → Type 0) (server : R)
    → Waits server []
    → IsTracked env Waits [] (new_world server)
unfolding lookup view
new_world-IsTracked env Waits server h = record {
  waits = h;
  valid = record { stored = λ id p e. ground arith; unused = λ p h. refl };
  all_queued = tt;
  distinct = tt;
  covered = λ id u e. absurd (ground arith);
  issued = λ id u e. absurd (ground arith);
}

-- A run of a worker that nobody stops, over n rounds, leaves every task over.
abbrev pub Finishes :
    {R : Type 0} → Env → TaskQueue R → HandlerRegistry R → (id : ℕ) → Ctx → World R → ℕ → Type 0
Finishes env queue registry id ctx w n =
    Returns (start env (made_worker env id queue registry) ctx (idle n) w) (λ stopped w'.
      (stopped ≡ false)
      × Advances (view w) (view w')
      × ((j : String) (t : Task) → view w' j ≡ some t → is_final t.status ≡ true))

module _ {R : Type 0} (env : Env) (queue : TaskQueue R) (registry : HandlerRegistry R)
    (Waits : R → List Task → Type 0) (unique : Unique env) (fifo : IsFifo queue Waits)
    (tame : AllTame registry) (server : R) (no_task : Waits server []) where
  -- From every state that a program with an empty queue and store reaches, by submissions, queries
  -- and rounds of workers in any order, any worker that nobody stops, and to which the queue hands
  -- out a task wherever one waits, finishes every submitted task in enough rounds: it does not panic,
  -- all stored tasks are done or failed, none is lost, and those that were over are as they were.
  pub start-Reach :
      (w : World R)
      → Reach env queue registry (new_world server) w
      → (id : ℕ) (ctx : Ctx) → IsPrompt queue Waits ctx
      → (n : ℕ) × ((m : ℕ) → n ≤ m → Finishes env queue registry id ctx w m)
  start-Reach w reached id ctx prompt =
      let (ts, s, _) =
        Reach-IsTracked env queue registry Waits unique fifo tame (new_world server)
          ([], new_world-IsTracked env Waits server no_task) reached in
      (length ts, λ m few. start-idle env id queue registry ctx Waits fifo prompt tame m ts w few s)
