-- ===== src/Workers/Overlap/Steps.antt =====
-- Each step keeps the tasks of overlapping workers in order.
use mathlib.Core.Path.{subst}
use mathlib.Core.List.{append_assoc}
use architecture_playground.Base.{
  arith, ℕ, String, ◌≡◌, ◌∙◌, sym, ap, lookup, List, [], ◌∷◌, ◌++◌, Option, none, some,
  Option-cases, inl, inr,
}
use architecture_playground.Errors.{Err, error_text, nil, field, text, size}
use architecture_playground.Task.{Task}
use architecture_playground.World.{World, Env, err}
use architecture_playground.World.Laws.{Returns, Returns-map, Returns-run}
use architecture_playground.Logger.Laws.{log_error-Quiet}
use architecture_playground.Context.{ExecutionContext, Ctx}
use architecture_playground.Store.{memory_store}
use architecture_playground.Store.View.{view}
use architecture_playground.Store.Quiet.{SameStore, SameStore-Quiet}
use architecture_playground.Registry.{HandlerRegistry}
use architecture_playground.Queue.{TaskQueue}
use architecture_playground.Queue.Laws.{Kept, Delivers, OnSend}
use architecture_playground.Queue.Fifo.{Appends, Keeps, IsFifo}
use architecture_playground.Runners.{asynchronous}
use architecture_playground.Orchestrator.{submit_task, get_task_status}
use architecture_playground.Orchestrator.Laws.{get_task_status_found, get_task_status_missing}
use architecture_playground.Orchestrator.Settled.{Unique}
use architecture_playground.Workers.{process_next_task}
use architecture_playground.Workers.Laws.{made_worker}
use architecture_playground.Workers.Tracked.{Kept-IsTracked, SameStore-IsTracked}
use architecture_playground.Store.Advance.{Advances-refl, Advances-same, Advances-trans}
use architecture_playground.Workers.Steps.{submit_task-IsTracked}
use architecture_playground.Workers.Overlap.{Flight, copies, Behind, IsOverlapped, Stays}
use architecture_playground.Workers.Overlap.Lists.{AllHeld-Spares}

module _ {R : Type 0} (Waits : R → List Task → Type 0) (taken : List Task) where
  OnSend-Behind :
      (x : ExecutionContext) (t : Task) (e : Option Err) (s s' : R)
      → OnSend (Appends Waits) (Keeps Waits) x t e s s'
      → OnSend (Appends (Behind taken Waits)) (Keeps (Behind taken Waits)) x t e s s'
  OnSend-Behind x t none s s' h = λ clean us (ts, e, waits).
      (ts ++ t ∷ [], ap (λ l. l ++ t ∷ []) e ∙ append_assoc taken ts (t ∷ []), h clean ts waits)
  OnSend-Behind x t (some _) s s' h = λ us (ts, e, waits). (ts, e, h ts waits)

  -- What is put behind the tasks that wait is behind those that were taken too.
  Delivers-Behind :
      (queue : TaskQueue R)
      → Delivers queue (Appends Waits) (Keeps Waits)
      → Delivers queue (Appends (Behind taken Waits)) (Keeps (Behind taken Waits))
  Delivers-Behind queue d = record {
    deliver = λ ctx x p t w task at.
        Returns-map (d.deliver ctx x p t w task at)
          (λ e w' h. (h.0, OnSend-Behind x t e w.server w'.server h.1));
    unsent_refl = λ s us b. b;
  }

module _ {R : Type 0} (env : Env) (queue : TaskQueue R) (registry : HandlerRegistry R)
    (Waits : R → List Task → Type 0) (fifo : IsFifo queue Waits) (fs : List Flight) (us : List Task)
    (w : World R) (s : IsOverlapped env Waits fs us w) where
  pub submit_task-IsOverlapped :
      Unique env
      → (ctx : Ctx) (type : String) (payload : List ℕ)
      → Returns
          (submit_task env memory_store (asynchronous queue registry) ctx type payload w)
          (λ r w'. Stays env Waits w fs w')
  submit_task-IsOverlapped unique ctx type payload =
      Returns-map
        (submit_task-IsTracked env (Behind (copies fs) Waits) us w s.tracked unique type payload
          queue registry ctx (Delivers-Behind Waits (copies fs) queue fifo.send))
        (λ r w' h. (
          h.0,
          record { tracked = h.1; held = AllHeld-Spares w w' fs h.3 s.held; apart = s.apart },
          h.2,
        ))

  SameStore-IsOverlapped : (w' : World R) → SameStore w w' → Stays env Waits w fs w'
  SameStore-IsOverlapped w' f = (
    us,
    record {
      tracked = SameStore-IsTracked env (Behind (copies fs) Waits) us w s.tracked w' f;
      held = AllHeld-Spares w w' fs f.spares s.held;
      apart = s.apart;
    },
    Advances-same (view w) (view w') f.same_view,
  )

  pub get_task_status-IsOverlapped :
      (id : String) → Returns (get_task_status memory_store id w) (λ r w'. Stays env Waits w fs w')
  get_task_status-IsOverlapped id = elim (Option-cases (view w id)) [
    | inl missing ↦
        Returns-map (get_task_status_missing id w s.tracked.valid missing)
          (λ _ w' h. subst (Stays env Waits w fs) (sym h.3) (us, s, Advances-refl (view w)))
    | inr (t, found) ↦
        Returns-map (get_task_status_found id w s.tracked.valid t found)
          (λ _ w' h. SameStore-IsOverlapped w' h.1)
  ]

  -- The queue and its server may change, where the same tasks wait.
  Kept-IsOverlapped :
      (w1 : World R) → Kept w w1 → Behind (copies fs) Waits w1.server us → Stays env Waits w fs w1
  unfolding view
  Kept-IsOverlapped w1 k waits = (
    us,
    record {
      tracked = Kept-IsTracked env (Behind (copies fs) Waits) us w s.tracked w1 waits k;
      held =
          AllHeld-Spares w w1 fs
            (record {
              same_object = λ p low out. ground (arith, k.same_heap);
              unstored = λ p low out j e. out j (ap (lookup j) (sym k.same_tasks) ∙ e);
              grown = omega (arith, k.same_next);
            })
            s.held;
      apart = s.apart;
    },
    Advances-same (view w) (view w1) (λ j. ground (arith, k.same_heap, k.same_tasks)),
  )

module _ {R : Type 0} (env : Env) (queue : TaskQueue R) (registry : HandlerRegistry R)
    (Waits : R → List Task → Type 0) (fifo : IsFifo queue Waits) (fs : List Flight) (us : List Task)
    (w : World R) (s : IsOverlapped env Waits fs us w) where
  -- A call of `Dequeue` that fails, and what the worker logs of it.
  pub finds_none-IsOverlapped :
      (id : ℕ) (ctx : Ctx) (e : Err) (w1 : World R)
      → queue.dequeue ctx w ≡ some (err e, w1)
      → Returns
          (process_next_task env (made_worker env id queue registry) ctx w)
          (λ _ w'. Stays env Waits w fs w')
  unfolding process_next_task
  finds_none-IsOverlapped id ctx e w1 got =
      let (ts, behind, waits) = s.tracked.waits in
      let took = Returns-run (fifo.take ctx w ts waits) (err e) w1 got in
      let (us1, o, more) =
        Kept-IsOverlapped env queue registry Waits fifo fs us w s w1 took.0 (ts, behind, took.1) in
      elim (Option-cases ctx.cancelled) [
        | inl live ↦
            let f = field "worker_id" (size id) (field "error" (text (error_text e)) nil) in
            let a = log_error-Quiet env "failed to dequeue task" f w1 in
            let (us2, o2, more2) =
              SameStore-IsOverlapped env queue registry Waits fifo fs us1 w1 o a.world
                (SameStore-Quiet o.tracked.valid a.holds) in
            record {
              value = tt;
              world = a.world;
              run = ground (arith, a.run);
              holds = (us2, o2, Advances-trans (view w) (view w1) (view a.world) more more2);
            }
        | inr (why, stopped) ↦ record {
          value = tt;
          world = w1;
          run = ground arith;
          holds = (us1, o, more);
        }
      ]
