-- ===== src/Orchestrator/Jobs/Steps.antt =====
-- A step of a submission, and a status query, keep the submissions and the store in order.
use mathlib.Core.Path.{subst}
use mathlib.Core.Option.{some-injective}
use architecture_playground.Base.{
  arith, ℕ, ◌-◌, ◌<◌, String, ◌≡◌, ◌∙◌, inl, inr, sym, ap, ◌==◌, eq_iff, lookup, List, [], ◌∷◌,
  ◌++◌, some, Option-cases, Bool-cases,
}
use architecture_playground.Task.{Task}
use architecture_playground.World.{World, Env}
use architecture_playground.World.Laws.{Returns, Returns-map, Frame}
use architecture_playground.Store.{memory_store}
use architecture_playground.Store.View.{view, IsWellFormed}
use architecture_playground.Store.Advance.{
  Evolves, Advances, Advances-refl, Advances-same, Advances-With,
}
use architecture_playground.Store.Quiet.{SameStore}
use architecture_playground.Registry.{HandlerRegistry}
use architecture_playground.Registry.Laws.{AllTame}
use architecture_playground.Execution.StateManager.Stored.{Holds, view-Frame, Frame-IsWellFormed}
use architecture_playground.Orchestrator.{get_task_status}
use architecture_playground.Orchestrator.Laws.{get_task_status_found, get_task_status_missing}
use architecture_playground.Orchestrator.Jobs.{Job, Stage, next_stage}
use architecture_playground.Orchestrator.Jobs.Moves.{left, Moved, next_stage-Moved}
use architecture_playground.Orchestrator.Jobs.Invariant.{
  Carried, AllCarried, Elsewhere, IsServing, AllCarried-at, Apart-at, Owned-at, Owned-same,
  Apart-stage, Owned-stage,
}

-- Only the task of one submission was written.
module _ {R : Type 0} (w w' : World R) (p : ℕ) (f : Frame p p w w') where
  AllCarried-Frame : (js : List Job) → Elsewhere p js → AllCarried w js → AllCarried w' js
  AllCarried-Frame [] e h = tt
  AllCarried-Frame (job ∷ js) e ((t, held, stands), h) = (
    (
      t,
      record {
        at = f.same_heap job.at e.0 e.0 ∙ held.at;
        stored = ap (lookup t.id) f.same_tasks ∙ held.stored;
      },
      stands,
    ),
    AllCarried-Frame js e.1 h,
  )

  AllCarried-moved :
      (before : List Job) (job job' : Job) (after : List Job)
      → AllCarried w (before ++ job ∷ after)
      → Elsewhere p before
      → Elsewhere p after
      → Carried w' job'
      → AllCarried w' (before ++ job' ∷ after)
  AllCarried-moved [] job job' after h b a c = (c, AllCarried-Frame after a h.1)
  AllCarried-moved (j ∷ before) job job' after h b a c = (
    (AllCarried-Frame (j ∷ []) (b.0, tt) (h.0, tt)).0,
    AllCarried-moved before job job' after h.1 b.1 a c,
  )

Holds-view : {R : Type 0} (p : ℕ) (t : Task) (w : World R) → Holds p t w → view w t.id ≡ some t
unfolding view
Holds-view p t w h = ground (arith, h.stored, h.at)

-- A query leaves the tasks of the submissions as they are.
AllCarried-SameStore :
    {R : Type 0} (w w' : World R)
    → IsWellFormed w
    → SameStore w w'
    → (js : List Job) → AllCarried w js
    → AllCarried w' js
AllCarried-SameStore w w' v f [] h = tt
AllCarried-SameStore w w' v f (job ∷ js) ((t, held, stands), h) =
    let low : job.at < w.next = ground (arith, v.unused job.at, held.at) in
    (
      (
        t,
        record {
          at = f.old_heap job.at low ∙ held.at;
          stored = ap (lookup t.id) f.same_tasks ∙ held.stored;
        },
        stands,
      ),
      AllCarried-SameStore w w' v f js h,
    )

module _ {R : Type 0} (env : Env) (js : List Job) (w : World R) (s : IsServing env js w) where
  SameStore-IsServing :
      (w' : World R) → SameStore w w' → IsServing env js w' × Advances (view w) (view w')
  SameStore-IsServing w' f = (
    record {
      valid = f.valid;
      carried = AllCarried-SameStore w w' s.valid f js s.carried;
      apart = s.apart;
      covered = λ id t e. elim (s.covered id t (sym (f.same_view id) ∙ e)) [
        | inl over ↦ inl over
        | inr owned ↦ inr (Owned-same id w w' f.same_tasks js owned)
      ];
      issued = λ id t e.
          let (n, low, is) = s.issued id t (sym (f.same_view id) ∙ e) in
          (n, omega (arith, low, f.same_ids), is);
    },
    Advances-same (view w) (view w') f.same_view,
  )

  pub get_task_status-IsServing :
      (id : String)
      → Returns
          (get_task_status memory_store id w)
          (λ r w'. IsServing env js w' × Advances (view w) (view w'))
  get_task_status-IsServing id = elim (Option-cases (view w id)) [
    | inl missing ↦ Returns-map (get_task_status_missing id w s.valid missing) (λ r w' h.
        subst (λ z. IsServing env js z × Advances (view w) (view z)) (sym h.3)
          (s, Advances-refl (view w)))
    | inr (t, found) ↦
        Returns-map (get_task_status_found id w s.valid t found)
          (λ r w' h. SameStore-IsServing w' h.1)
  ]

module _ {R : Type 0} (env : Env) (registry : HandlerRegistry R) (before : List Job) (job : Job)
    (after : List Job) (w : World R) (s : IsServing env (before ++ job ∷ after) w) where
  Moved-IsServing :
      (t : Task)
      → Holds job.at t w
      → (stage : Stage) (w' : World R) → Moved job.at job.stage t w stage w'
      → IsServing env (before ++ record job { stage = stage } ∷ after) w'
        × Advances (view w) (view w')
        × (left stage ≡ left job.stage - 1)
  Moved-IsServing t held stage w' m =
      let f = m.own.frame in
      let e = m.evolves in
      let (b, a) = Apart-at before job after s.apart in
      let seen = view-Frame job.at t m.task w w' s.valid held f m.holds e.same_id in
      let now = Holds-view job.at t w held in
      (
        record {
          valid = Frame-IsWellFormed job.at t m.task w w' s.valid held f m.holds e.same_id;
          carried =
              AllCarried-moved w w' job.at f before job (record job { stage = stage }) after
                s.carried b a (m.task, m.holds, m.stands);
          apart = Apart-stage job stage after before s.apart;
          covered = λ id u k. elim (Bool-cases (t.id == id)) [
            | inl same ↦ inr (
                Owned-at id w' before (record job { stage = stage }) after
                  (ap (lookup id) f.same_tasks
                    ∙ subst (λ i. lookup i w.tasks ≡ some job.at) ((eq_iff t.id id).0 same)
                        held.stored))
            | inr differ ↦ elim (s.covered id u (sym (rw differ at (seen id)) ∙ k)) [
              | inl over ↦ inl over
              | inr owned ↦ inr (Owned-stage job stage after id w w' f.same_tasks before owned)
            ]
          ];
          issued = λ id u k. elim (Bool-cases (t.id == id)) [
            | inl same ↦
                let (n, low, is) = s.issued t.id t now in
                (n, omega (arith, low, f.same_ids), sym ((eq_iff t.id id).0 same) ∙ is)
            | inr differ ↦
                let (n, low, is) = s.issued id u (sym (rw differ at (seen id)) ∙ k) in
                (n, omega (arith, low, f.same_ids), is)
          ];
        },
        Advances-With (view w) (view w') t.id m.task seen
            (λ u k. subst (λ z. Evolves z m.task) (some-injective t u (sym now ∙ k)) e),
        m.nearer,
      )

  pub next_stage-IsServing :
      AllTame registry
      → Returns (next_stage env memory_store registry job.ctx job.stage w) (λ stage w'.
        IsServing env (before ++ record job { stage = stage } ∷ after) w'
        × Advances (view w) (view w')
        × (left stage ≡ left job.stage - 1))
  next_stage-IsServing tame =
      let (t, held, stands) = AllCarried-at w before job after s.carried in
      Returns-map (next_stage-Moved env registry job.ctx job.at t w held tame job.stage stands)
        (λ stage w' m. Moved-IsServing t held stage w' m)
