-- ===== src/Workers/Overlap/Processing.antt =====
-- A worker brings the task that it took to its end, and the others go on as before.
use mathlib.Core.Path.{subst}
use mathlib.Core.List.{append_assoc}
use architecture_playground.Base.{
  arith, ℕ, String, ◌≡◌, ◌∙◌, refl, sym, ap, lookup, List, [], ◌∷◌, ◌++◌, some,
}
use architecture_playground.Task.{Task, can_transition_to}
use architecture_playground.World.{World, Env}
use architecture_playground.World.Laws.{Returns, Local}
use architecture_playground.Store.View.{view}
use architecture_playground.Store.Laws.{lookup-view-some}
use architecture_playground.Registry.{HandlerRegistry}
use architecture_playground.Registry.Laws.{AllTame}
use architecture_playground.Queue.{TaskQueue}
use architecture_playground.Execution.StateManager.Copied.{Mirrors}
use architecture_playground.Workers.{process_task}
use architecture_playground.Workers.Laws.{made_worker, process_task_lem}
use architecture_playground.Workers.Tracked.{AllQueued, Among, Distinct}
use architecture_playground.Workers.Finishing.{Processed-final, over-IsTracked}
use architecture_playground.Workers.Overlap.{
  Flight, copies, AllHeld, Elsewhere, Behind, IsOverlapped, Stays,
}
use architecture_playground.Workers.Overlap.Lists.{
  AllQueued-out, Among-out, Distinct-out, copies-append, AllHeld-out, Apart-out,
}

-- What the worker wrote, its own object and the one that the store holds, is in no other's hands.
AllHeld-Local :
    {R : Type 0} (w w' : World R) (p q : ℕ) (id : String) (fs : List Flight)
    → Local p q w w'
    → lookup id w.tasks ≡ some q
    → Elsewhere p fs
    → AllHeld w fs
    → AllHeld w' fs
AllHeld-Local w w' p q id [] l stored e h = tt
AllHeld-Local w w' p q id (f ∷ fs) l stored e h = (
  record {
    points = h.0.points;
    held = l.frame.same_heap f.at e.0 (λ same. h.0.out id (stored ∙ ap some (sym same))) ∙ h.0.held;
    low = omega (arith, h.0.low, l.frame.same_next);
    out = λ j k. h.0.out j (ap (lookup j) (sym l.frame.same_tasks) ∙ k);
  },
  AllHeld-Local w w' p q id fs l stored e.1 h.1,
)

module _ {R : Type 0} (env : Env) (queue : TaskQueue R) (registry : HandlerRegistry R)
    (Waits : R → List Task → Type 0) (tame : AllTame registry) (before after : List Flight)
    (f : Flight) (us : List Task) (w : World R)
    (s : IsOverlapped env Waits (before ++ f ∷ after) us w) where
  -- The tasks that are left when the one in the worker's hands is over.
  abbrev left : List Task → List Task
  left ts = copies before ++ (copies after ++ ts)

  whole :
      (ts : List Task)
      → us ≡ copies (before ++ f ∷ after) ++ ts
      → us ≡ copies before ++ f.copy ∷ (copies after ++ ts)
  whole ts e =
      e
      ∙ ap (λ l. l ++ ts) (copies-append before (f ∷ after))
      ∙ append_assoc (copies before) (f.copy ∷ copies after) ts

  rest : (ts : List Task) → left ts ≡ copies (before ++ after) ++ ts
  rest ts =
      sym (append_assoc (copies before) (copies after) ts)
      ∙ ap (λ l. l ++ ts) (sym (copies-append before after))

  pub process_task-IsOverlapped :
      Returns
        (process_task env (made_worker env f.worker queue registry) f.ctx f.context w)
        (λ _ w'. Stays env Waits w (before ++ after) w')
  unfolding can_transition_to
  process_task-IsOverlapped =
      let (ts, behind, waits) = s.tracked.waits in
      let held_f = AllHeld-out w before f after s.held in
      let apart_f = Apart-out before f after s.apart in
      let split = whole ts behind in
      let all =
        AllQueued-out f.copy (copies after ++ ts) (view w) (copies before)
          (subst (AllQueued (view w)) split s.tracked.all_queued) in
      let once =
        Distinct-out f.copy (copies after ++ ts) (copies before)
          (subst Distinct split s.tracked.distinct) in
      let (u, found, held_queued) = all.0.1 in
      let (q, stored, at) = lookup-view-some w f.copy.id u found in
      let mirrors : Mirrors f.at q f.copy u w = record {
        at = held_f.0.held;
        stored = stored;
        original = at;
        apart = λ e. held_f.0.out f.copy.id (stored ∙ ap some (sym e));
      } in
      let a =
        process_task_lem env f.worker queue registry f.ctx f.context f.at q f.copy u w
          held_f.0.points mirrors (rw (all.0.0) refl) tame in
      let l = a.holds.0 in
      let kept =
        over-IsTracked env (Behind (copies (before ++ f ∷ after)) Waits)
          (Behind (copies (before ++ after)) Waits) us (left ts) w a.world s.tracked f.at q f.copy u
          a.holds.1.0 stored at held_f.0.out l.frame.same_tasks a.holds.1.1
          (Processed-final f.copy.type registry u a.holds.1.0 a.holds.1.2) l.frame.same_heap
          (omega (arith, held_f.0.low, l.frame.same_next)) (omega (arith, l.frame.same_next))
          l.frame.same_ids (ts, rest ts, subst (λ r. Waits r ts) (sym l.same_server) waits) once.0
          once.1 all.1
          (λ i among.
            Among-out f.copy (copies after ++ ts) i (copies before)
              (subst (λ z. Among i z) split among))
          held_queued found in
      record {
        value = tt;
        world = a.world;
        run = a.run;
        holds = (
          left ts,
          record {
            tracked = kept.0;
            held =
                AllHeld-Local w a.world f.at q f.copy.id (before ++ after) l stored apart_f.0
                  held_f.1;
            apart = apart_f.1;
          },
          kept.1,
        );
      }
