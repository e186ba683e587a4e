-- ===== src/Workers/Overlap/Taking.antt =====
-- A worker takes a task off the queue.
use mathlib.Core.Path.{subst}
use mathlib.Core.Option.{some-injective}
use mathlib.Core.List.{append_assoc}
use architecture_playground.Base.{
  arith, ℕ, String, ◌≡◌, ◌∙◌, sym, ap, eqb_iff, lookup, List, [], ◌∷◌, ◌++◌, some, Option-cases,
  inl, inr,
}
use architecture_playground.Task.{Task}
use architecture_playground.World.{World, Env, ok}
use architecture_playground.World.Laws.{Returns-run}
use architecture_playground.World.Spares.{Spares}
use architecture_playground.Context.{ExecutionContext, Ctx}
use architecture_playground.Store.View.{view, IsWellFormed}
use architecture_playground.Registry.{HandlerRegistry}
use architecture_playground.Queue.{TaskQueue}
use architecture_playground.Queue.Fifo.{Resembles, Taken, IsFifo}
use architecture_playground.Workers.Tracked.{AllQueued, Among, Distinct, AllQueued-same}
use architecture_playground.Store.Advance.{Advances-same}
use architecture_playground.Workers.Overlap.{Flight, copies, IsOverlapped, Stays}
use architecture_playground.Workers.Overlap.Lists.{
  AllQueued-copy, Among-copy, Distinct-copy, copies-append, AllHeld-Spares, AllHeld-append,
  Elsewhere-low, Apart-append,
}

-- A task taken from the queue is a new object, and the store is as it was.
module _ {R : Type 0} {Waits : R → List Task → Type 0} (w w' : World R) (ts : List Task)
    (x : ExecutionContext) (v : IsWellFormed w) (k : Taken Waits ts w x w') where
  taken_view : (j : String) → view w' j ≡ view w j
  unfolding view
  taken_view j = elim (Option-cases (lookup j w.tasks)) [
    | inl e ↦ ground (arith, k.same_tasks, e)
    | inr (q, e) ↦
        ground (arith, k.same_tasks, k.new_heap, e, v.stored j q e, v.unused q, eqb_iff w.next q)
  ]

  taken_IsWellFormed : IsWellFormed w'
  taken_IsWellFormed = record {
    stored = λ j q e.
        let old : lookup j w.tasks ≡ some q = ap (lookup j) (sym k.same_tasks) ∙ e in
        ground (arith, k.new_heap, v.stored j q old, v.unused q, eqb_iff w.next q);
    unused = λ q h. ground (arith, k.new_heap, k.new_next, v.unused q, eqb_iff w.next q);
  }

  taken_Spares : Spares w w'
  taken_Spares = record {
    same_object = λ p low out. ground (arith, k.new_heap, eqb_iff w.next p, low);
    unstored = λ p low out j e. out j (ap (lookup j) (sym k.same_tasks) ∙ e);
    grown = omega (arith, k.new_next);
  }

module _ {R : Type 0} (env : Env) (queue : TaskQueue R) (registry : HandlerRegistry R)
    (Waits : R → List Task → Type 0) (fifo : IsFifo queue Waits) (fs : List Flight) (us : List Task)
    (w : World R) (s : IsOverlapped env Waits fs us w) where
  -- A call of `Dequeue` that hands out a task: it is in the worker's hands now.
  pub takes-IsOverlapped :
      (id : ℕ) (ctx : Ctx) (x : ExecutionContext) (p : ℕ) (copy : Task) (w' : World R)
      → queue.dequeue ctx w ≡ some (ok x, w')
      → x.task ≡ some p
      → w'.heap p ≡ some copy
      → Stays env Waits w
          (fs ++ record { worker = id; ctx = ctx; context = x; at = p; copy = copy } ∷ [])
          w'
  takes-IsOverlapped id ctx x p copy w' run points at =
      let (ts, behind, waits) = s.tracked.waits in
      let k = Returns-run (fifo.take ctx w ts waits) (ok x) w' run in
      let f : Flight = record { worker = id; ctx = ctx; context = x; at = p; copy = copy } in
      let here : p ≡ w.next = some-injective p w.next (sym points ∙ k.points) in
      let same : copy ≡ k.copy = ground (arith, at, here, k.new_heap) in
      let like : Resembles k.first copy = subst (Resembles k.first) (sym same) k.resembles in
      let whole : us ≡ copies fs ++ k.first ∷ k.rest =
        behind ∙ ap (λ l. copies fs ++ l) k.in_order in
      let us' = copies fs ++ copy ∷ k.rest in
      let same_view = taken_view w w' ts x s.tracked.valid k in
      (
        us',
        record {
          tracked = record {
            waits = (
              k.rest,
              sym (append_assoc (copies fs) (copy ∷ []) k.rest)
                  ∙ ap (λ l. l ++ k.rest) (sym (copies-append fs (f ∷ []))),
              k.waits,
            );
            valid = taken_IsWellFormed w w' ts x s.tracked.valid k;
            all_queued = AllQueued-same (view w) (view w') us' same_view (
                AllQueued-copy k.first copy like k.rest (view w) (copies fs)
                  (subst (AllQueued (view w)) whole s.tracked.all_queued));
            distinct =
                Distinct-copy k.first copy like k.rest (copies fs)
                  (subst Distinct whole s.tracked.distinct);
            covered = λ i u e. elim (s.tracked.covered i u (sym (same_view i) ∙ e)) [
              | inl over ↦ inl over
              | inr (q, among) ↦ inr (
                q,
                Among-copy k.first copy like k.rest i (copies fs)
                    (subst (λ l. Among i l) whole among),
              )
            ];
            issued = λ i u e.
                let (m, low, is) = s.tracked.issued i u (sym (same_view i) ∙ e) in
                (m, omega (arith, low, k.same_ids), is);
          };
          held =
              AllHeld-append w' fs f
                (AllHeld-Spares w w' fs (taken_Spares w w' ts x s.tracked.valid k) s.held)
                (record {
                  points = points;
                  held = at;
                  low = omega (arith, here, k.new_next);
                  out = λ j e.
                      let old : lookup j w.tasks ≡ some p = ap (lookup j) (sym k.same_tasks) ∙ e in
                      ground
                        (arith, s.tracked.valid.stored j p old, s.tracked.valid.unused p, here);
                });
          apart = Apart-append fs f s.apart (Elsewhere-low w p fs (omega (arith, here)) s.held);
        },
        Advances-same (view w) (view w') same_view,
      )
