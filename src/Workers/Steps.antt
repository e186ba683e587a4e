-- ===== src/Workers/Steps.antt =====
-- A submission and a worker's round keep the asynchronous program tracked.
use mathlib.Core.Path.{subst}
use architecture_playground.Base.{
  arith, ℕ, String, ◌≡◌, ◌∙◌, refl, sym, true, List, [], ◌∷◌, ◌++◌, Option, none, some, ◌==◌,
  eq_iff, Bool-cases, inl, inr,
}
use architecture_playground.Errors.{Err}
use architecture_playground.Task.{Task, is_final}
use architecture_playground.World.{World, Env}
use architecture_playground.World.Spares.{Spares}
use architecture_playground.World.Laws.{Returns, Returns-map}
use architecture_playground.Context.{Ctx}
use architecture_playground.Store.{memory_store}
use architecture_playground.Store.View.{view}
use architecture_playground.Registry.{HandlerRegistry}
use architecture_playground.Queue.{TaskQueue}
use architecture_playground.Queue.Fifo.{Appends, Keeps}
use architecture_playground.Queue.Laws.{Delivers}
use architecture_playground.Runners.{asynchronous}
use architecture_playground.Orchestrator.{submit_task}
use architecture_playground.Orchestrator.Settled.{Unique}
use architecture_playground.Orchestrator.Queued.{Accepted, Posted, submit_task_delivers}
use architecture_playground.Workers.Tracked.{
  IsTracked, Among, Absent, Absent-of_none, AllQueued-With, AllQueued-append, Among-append,
  Among-last, Distinct-append, next_id_new, issued_With,
}
use architecture_playground.Store.Advance.{With}
use architecture_playground.Store.Advance.{Advances, Advances-With}

module _ {R : Type 0} (env : Env) (Waits : R → List Task → Type 0) (ts : List Task) (w : World R)
    (s : IsTracked env Waits ts w) (unique : Unique env) (type : String) (payload : List ℕ) where
  added :
      (w' : World R) (u : Task)
      → With (view w) (env.uuid_at w.ids) u (view w')
      → Advances (view w) (view w')
  added w' u with_u =
      Advances-With (view w) (view w') (env.uuid_at w.ids) u with_u
        (λ t e. absurd (cc (e, next_id_new env Waits ts w s unique)))

  submitted_IsTracked :
      (e : Option Err) (p : ℕ) (w' : World R)
      → Accepted (env.uuid_at w.ids) type payload w e p w'
      → Posted (Appends Waits) (Keeps Waits) (env.uuid_at w.ids) type e w.server w'.server
      → (us : List Task) × IsTracked env Waits us w' × Advances (view w) (view w') × Spares w w'
  submitted_IsTracked none p w' acc posted =
      let id = env.uuid_at w.ids in
      let t = posted.task in
      let absent =
        Absent-of_none (view w) id ts s.all_queued (next_id_new env Waits ts w s unique) in
      let here : view w' t.id ≡ some acc.task =
        ground (arith, acc.stored t.id, posted.same_id, eq_iff id t.id) in
      (
        ts ++ t ∷ [],
        record {
          waits = posted.outcome posted.no_error ts s.waits;
          valid = acc.valid;
          all_queued =
              AllQueued-append (view w') ts t
                (AllQueued-With (view w) (view w') id acc.task ts acc.stored absent s.all_queued)
                (posted.is_queued, (acc.task, here, acc.standing.0));
          distinct =
              Distinct-append ts t s.distinct
                (subst (λ j. Absent j ts) (sym posted.same_id) absent);
          covered = λ j u e. elim (Bool-cases (id == j)) [
            | inl new ↦
                let same : some acc.task ≡ some u = sym (rw new at (acc.stored j)) ∙ e in
                inr (
                  cc (acc.standing.0),
                  subst (λ k. Among k (ts ++ t ∷ [])) (posted.same_id ∙ (eq_iff id j).0 new)
                      (Among-last t ts),
                )
            | inr old ↦ elim (s.covered j u (sym (rw old at (acc.stored j)) ∙ e)) [
              | inl final ↦ inl final
              | inr (q, among) ↦ inr (q, Among-append j ts (t ∷ []) among)
            ]
          ];
          issued =
              issued_With env Waits ts w s w' id acc.task acc.stored
                (w.ids, omega (arith, acc.one_more), refl)
                (λ k low. omega (arith, low, acc.one_more));
        },
        added w' acc.task acc.stored,
        acc.spares,
      )
  submitted_IsTracked (some x) p w' acc posted =
      let id = env.uuid_at w.ids in
      let absent =
        Absent-of_none (view w) id ts s.all_queued (next_id_new env Waits ts w s unique) in
      (
        ts,
        record {
          waits = posted.outcome ts s.waits;
          valid = acc.valid;
          all_queued =
              AllQueued-With (view w) (view w') id acc.task ts acc.stored absent s.all_queued;
          distinct = s.distinct;
          covered = λ j u e. elim (Bool-cases (id == j)) [
            | inl new ↦
                let same : some acc.task ≡ some u = sym (rw new at (acc.stored j)) ∙ e in
                let over : is_final acc.task.status ≡ true = rw (acc.standing.0) refl in
                inl (cc over)
            | inr old ↦ s.covered j u (sym (rw old at (acc.stored j)) ∙ e)
          ];
          issued =
              issued_With env Waits ts w s w' id acc.task acc.stored
                (w.ids, omega (arith, acc.one_more), refl)
                (λ k low. omega (arith, low, acc.one_more));
        },
        added w' acc.task acc.stored,
        acc.spares,
      )

  -- A submission, accepted or not, leaves the program tracked.
  pub submit_task-IsTracked :
      (queue : TaskQueue R) (registry : HandlerRegistry R) (ctx : Ctx)
      → Delivers queue (Appends Waits) (Keeps Waits)
      → Returns
          (submit_task env memory_store (asynchronous queue registry) ctx type payload w)
          (λ r w'.
            (us : List Task) × IsTracked env Waits us w'
            × Advances (view w) (view w')
            × Spares w w')
  submit_task-IsTracked queue registry ctx sends =
      Returns-map
        (submit_task_delivers env queue registry ctx type payload w (Appends Waits) (Keeps Waits)
          s.valid (next_id_new env Waits ts w s unique) sends)
        (λ r w' h. submitted_IsTracked r.1 r.0 w' h.0 h.1)
