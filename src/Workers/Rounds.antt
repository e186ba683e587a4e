-- ===== src/Workers/Rounds.antt =====
-- A worker's round takes the task that has waited longest and brings it to its end.
use architecture_playground.Base.{
  arith, ℕ, String, ◌≡◌, ◌∙◌, ◌⊎◌, refl, List, ◌∷◌, some, Option-cases, inl, inr,
}
use architecture_playground.Errors.{Err, error_text, nil, field, text, size}
use architecture_playground.Task.{Task, can_transition_to}
use architecture_playground.World.{World, Env, Result, ok, err}
use architecture_playground.World.Laws.{Returns, Returns-map}
use architecture_playground.Logger.Laws.{log_error-Quiet}
use architecture_playground.Context.{ExecutionContext, Ctx}
use architecture_playground.Store.View.{view}
use architecture_playground.Store.Quiet.{SameStore, SameStore-Quiet}
use architecture_playground.Registry.{HandlerRegistry}
use architecture_playground.Registry.Laws.{AllTame}
use architecture_playground.Queue.{TaskQueue}
use architecture_playground.Queue.Fifo.{Taken, OnTake, IsFifo}
use architecture_playground.Workers.{process_task, process_next_task}
use architecture_playground.Workers.Laws.{made_worker, process_task_lem}
use architecture_playground.Workers.Tracked.{IsTracked, Kept-IsTracked, SameStore-IsTracked}
use architecture_playground.Store.Advance.{Advances, Advances-same}
use architecture_playground.Workers.Finishing.{Processed-final, copy-Mirrors, processed-IsTracked}

module _ {R : Type 0} (env : Env) (id : ℕ) (queue : TaskQueue R) (registry : HandlerRegistry R)
    (ctx : Ctx) (Waits : R → List Task → Type 0) (ts : List Task) (w : World R)
    (s : IsTracked env Waits ts w) (tame : AllTame registry) where
  -- After a successful take, the worker returns, and the task is over.
  process_task-IsTracked :
      (x : ExecutionContext) (w1 : World R) (k : Taken Waits ts w x w1)
      → Returns
          (process_task env (made_worker env id queue registry) ctx x w1)
          (λ _ w'. IsTracked env Waits k.rest w' × Advances (view w) (view w'))
  unfolding can_transition_to
  process_task-IsTracked x w1 k =
      let (u, q, stored, at, mirrors, is_queued, held_queued, found) =
        copy-Mirrors env Waits ts w s x w1 k in
      Returns-map
        (process_task_lem env id queue registry ctx x w.next q k.copy u w1 k.points mirrors
          (rw is_queued refl) tame)
        (λ _ w' h.
          processed-IsTracked env Waits ts w s x w1 w' k u h.1.0 q stored at h.0 h.1.1
            (Processed-final k.copy.type registry u h.1.0 h.1.2) held_queued found)

  -- What a round of the worker makes of the tasks that wait: the one that has waited longest is over,
  -- or `Dequeue` failed and all keep waiting.
  abbrev pub Round : List Task → Type 0
  Round us =
      ((us ≡ ts) × (e : Err) × (w1 : World R) × (queue.dequeue ctx w ≡ some (err e, w1)))
      ⊎ ((t : Task) × (ts ≡ t ∷ us))

  process_next_task-Round :
      (o : Result ExecutionContext) (w1 : World R)
      → queue.dequeue ctx w ≡ some (o, w1)
      → OnTake Waits ts w o w1
      → Returns (process_next_task env (made_worker env id queue registry) ctx w) (λ _ w'.
        (us : List Task) × IsTracked env Waits us w' × Round us × Advances (view w) (view w'))
  unfolding process_next_task view
  process_next_task-Round (ok x) w1 got k =
      let a = process_task-IsTracked x w1 k in
      record {
        value = tt;
        world = a.world;
        run = ground (arith, a.run);
        holds = (k.rest, a.holds.0, inr (k.first, k.in_order), a.holds.1);
      }
  process_next_task-Round (err e) w1 got (kept, waits) =
      let tracked = Kept-IsTracked env Waits ts w s w1 waits kept in
      let same_view : (j : String) → view w1 j ≡ view w j =
        λ j. ground (arith, kept.same_heap, kept.same_tasks) in
      let still : (w2 : World R) → SameStore w1 w2 → Advances (view w) (view w2) =
        λ w2 f. Advances-same (view w) (view w2) (λ j. f.same_view j ∙ same_view j) in
      elim (Option-cases ctx.cancelled) [
        | inl live ↦
            let f = field "worker_id" (size id) (field "error" (text (error_text e)) nil) in
            let a = log_error-Quiet env "failed to dequeue task" f w1 in
            record {
              value = tt;
              world = a.world;
              run = ground (arith, a.run);
              holds = (
                ts,
                SameStore-IsTracked env Waits ts w1 tracked a.world
                    (SameStore-Quiet tracked.valid a.holds),
                inl (refl, e, w1, got),
                still a.world (SameStore-Quiet tracked.valid a.holds),
              );
            }
        | inr (why, stopped) ↦ record {
          value = tt;
          world = w1;
          run = ground arith;
          holds = (ts, tracked, inl (refl, e, w1, got), Advances-same (view w) (view w1) same_view);
        }
      ]

  -- A round of a worker returns, and leaves the program tracked.
  pub process_next_task-IsTracked :
      IsFifo queue Waits
      → Returns (process_next_task env (made_worker env id queue registry) ctx w) (λ _ w'.
        (us : List Task) × IsTracked env Waits us w' × Round us × Advances (view w) (view w'))
  process_next_task-IsTracked fifo =
      let a = fifo.take ctx w ts s.waits in process_next_task-Round a.value a.world a.run a.holds
