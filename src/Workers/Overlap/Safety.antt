-- ===== src/Workers/Overlap/Safety.antt =====
-- Overlapping workers lose no task, whatever the order of their steps.
use mathlib.Core.Path.{subst}
use architecture_playground.Base.{◌≡◌, refl, List, [], ◌∷◌, ◌++◌}
use architecture_playground.Task.{Task}
use architecture_playground.World.{World, Env}
use architecture_playground.World.Laws.{Returns, Returns-run, Returns-map}
use architecture_playground.Store.View.{view}
use architecture_playground.Registry.{HandlerRegistry}
use architecture_playground.Registry.Laws.{AllTame}
use architecture_playground.Queue.{TaskQueue}
use architecture_playground.Queue.Fifo.{IsFifo}
use architecture_playground.Orchestrator.Settled.{Unique}
use architecture_playground.Main.Laws.{new_world}
use architecture_playground.Workers.{process_task}
use architecture_playground.Workers.Laws.{made_worker}
use architecture_playground.Store.Advance.{Advances-refl, Advances-trans}
use architecture_playground.Workers.Liveness.{new_world-IsTracked}
use architecture_playground.Workers.Overlap.{
  Flight, Step, submits, asks, takes, finds_none, processes, Reach, here, later, Behind,
  IsOverlapped, Stays,
}
use architecture_playground.Workers.Overlap.Steps.{
  submit_task-IsOverlapped, get_task_status-IsOverlapped, finds_none-IsOverlapped,
}
use architecture_playground.Workers.Overlap.Taking.{takes-IsOverlapped}
use architecture_playground.Workers.Overlap.Processing.{process_task-IsOverlapped}

module _ {R : Type 0} (env : Env) (queue : TaskQueue R) (registry : HandlerRegistry R)
    (Waits : R → List Task → Type 0) (unique : Unique env) (fifo : IsFifo queue Waits)
    (tame : AllTame registry) where
  Step-IsOverlapped :
      {fs fs' : List Flight} {w w' : World R}
      → Step env queue registry fs w fs' w'
      → (us : List Task) → IsOverlapped env Waits fs us w
      → Stays env Waits w fs' w'
  Step-IsOverlapped {fs} {fs'} {w} {w'} (submits ctx type payload r run) us s =
      Returns-run
        (submit_task-IsOverlapped env queue registry Waits fifo fs us w s unique ctx type payload) r
        w' run
  Step-IsOverlapped {fs} {fs'} {w} {w'} (asks id r run) us s =
      Returns-run (get_task_status-IsOverlapped env queue registry Waits fifo fs us w s id) r w' run
  Step-IsOverlapped {fs} {fs'} {w} {w'} (takes id ctx x p copy run points at) us s =
      takes-IsOverlapped env queue registry Waits fifo fs us w s id ctx x p copy w' run points at
  Step-IsOverlapped {fs} {fs'} {w} {w'} (finds_none id ctx e w1 got run) us s =
      Returns-run (finds_none-IsOverlapped env queue registry Waits fifo fs us w s id ctx e w1 got)
        tt w' run
  Step-IsOverlapped {fs} {fs'} {w} {w'} (processes before f after run) us s =
      Returns-run (process_task-IsOverlapped env queue registry Waits tame before after f us w s) tt
        w' run

  module _ (server : R) (no_task : Waits server []) where
    reached :
        {fs : List Flight} {w : World R}
        → Reach env queue registry (new_world server) fs w
        → Stays env Waits (new_world server) fs w
    reached here = (
      [],
      record {
        tracked = new_world-IsTracked env (Behind [] Waits) server ([], refl, no_task);
        held = tt;
        apart = tt;
      },
      Advances-refl (view (new_world server)),
    )
    reached {w = w'} (later {w = w} r st) =
        let (us, s, first) = reached r in
        let (us', s', last) = Step-IsOverlapped st us s in
        (us', s', Advances-trans (view (new_world server)) (view w) (view w') first last)

    -- No task is lost where the rounds of workers overlap: in every state that is reached from an
    -- empty store and queue, by submissions, queries, and workers that take a task and process it
    -- later, in any order, each stored task is done or failed, or is stored as queued and is, once,
    -- among the tasks that wait and those that a worker took; and each worker's object is its own.
    -- A worker that took a task processes it without a panic, and then the same holds.
    pub Reach-IsOverlapped :
        {fs : List Flight} {w : World R}
        → Reach env queue registry (new_world server) fs w
        → Stays env Waits (new_world server) fs w
          × ((before : List Flight) (f : Flight) (after : List Flight)
              → fs ≡ before ++ f ∷ after
              → Returns
                  (process_task env (made_worker env f.worker queue registry) f.ctx f.context w)
                  (λ _ w'. Stays env Waits (new_world server) (before ++ after) w'))
    Reach-IsOverlapped {fs} {w} r =
        let (us, s, first) = reached r in
        (
          (us, s, first),
          λ before f after e.
              Returns-map
                (process_task-IsOverlapped env queue registry Waits tame before after f us w
                  (subst (λ l. IsOverlapped env Waits l us w) e s))
                (λ _ w' (us', s', last). (
                  us',
                  s',
                  Advances-trans (view (new_world server)) (view w) (view w') first last,
                )),
        )
