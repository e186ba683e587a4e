-- ===== src/Orchestrator/Jobs/Invariant.antt =====
-- The submissions in progress and the store: who owns which task.
use architecture_playground.Base.{
  ℕ, ◌<◌, String, ◌≡◌, ◌≢◌, ◌∙◌, ◌⊎◌, inl, inr, sym, ap, true, lookup, List, [], ◌∷◌, ◌++◌, some,
}
use architecture_playground.Task.{Task, is_final}
use architecture_playground.World.{World, Env}
use architecture_playground.Store.View.{view, IsWellFormed}
use architecture_playground.Execution.StateManager.Stored.{Holds}
use architecture_playground.Orchestrator.Jobs.{Job, Stage}
use architecture_playground.Orchestrator.Jobs.Moves.{Stands}

-- The store holds the submission's task, which stands as its stage says.
abbrev pub Carried : {R : Type 0} → World R → Job → Type 0
Carried w job = (t : Task) × Holds job.at t w × Stands job.at job.stage t

abbrev pub AllCarried : {R : Type 0} → World R → List Job → Type 0
AllCarried w [] = Unit
AllCarried w (job ∷ js) = Carried w job × AllCarried w js

abbrev pub Elsewhere : ℕ → List Job → Type 0
Elsewhere p [] = Unit
Elsewhere p (job ∷ js) = (job.at ≢ p) × Elsewhere p js

-- Each submission has a task of its own.
abbrev pub Apart : List Job → Type 0
Apart [] = Unit
Apart (job ∷ js) = Elsewhere job.at js × Apart js

-- The task with this ID belongs to one of the submissions.
abbrev pub Owned : {R : Type 0} → String → World R → List Job → Type 0
Owned id w [] = ⊥
Owned id w (job ∷ js) = (lookup id w.tasks ≡ some job.at) ⊎ Owned id w js

-- Every stored task is over, or is one of the submissions', which have a task each.
pub record IsServing {R : Type 0} (env : Env) (js : List Job) (w : World R) : Type 0 where
  pub valid : IsWellFormed w
  pub carried : AllCarried w js
  pub apart : Apart js
  pub covered :
      (id : String) (t : Task) → view w id ≡ some t → (is_final t.status ≡ true) ⊎ Owned id w js
  pub issued :
      (id : String) (t : Task) → view w id ≡ some t → (k : ℕ) × (k < w.ids) × (id ≡ env.uuid_at k)

-- The job in the middle, and the others.
pub AllCarried-at :
    {R : Type 0} (w : World R) (before : List Job) (job : Job) (after : List Job)
    → AllCarried w (before ++ job ∷ after)
    → Carried w job
AllCarried-at w [] job after h = h.0
AllCarried-at w (j ∷ before) job after h = AllCarried-at w before job after h.1

pub Apart-at :
    (before : List Job) (job : Job) (after : List Job)
    → Apart (before ++ job ∷ after)
    → Elsewhere job.at before × Elsewhere job.at after
Apart-at [] job after h = (tt, h.0)
Apart-at (j ∷ before) job after h =
    let (b, a) = Apart-at before job after h.1 in ((Elsewhere-at j.at before h.0, b), a)
  where
    Elsewhere-at : (p : ℕ) (fs : List Job) → Elsewhere p (fs ++ job ∷ after) → p ≢ job.at
    Elsewhere-at p [] k = λ e. k.0 (sym e)
    Elsewhere-at p (f ∷ fs) k = Elsewhere-at p fs k.1

pub Owned-at :
    {R : Type 0} (id : String) (w : World R) (before : List Job) (job : Job) (after : List Job)
    → lookup id w.tasks ≡ some job.at
    → Owned id w (before ++ job ∷ after)
Owned-at id w [] job after e = inl e
Owned-at id w (j ∷ before) job after e = inr (Owned-at id w before job after e)

pub Owned-same :
    {R : Type 0} (id : String) (w w' : World R)
    → w'.tasks ≡ w.tasks
    → (js : List Job) → Owned id w js
    → Owned id w' js
Owned-same id w w' same [] k = absurd k
Owned-same id w w' same (j ∷ js) (inl e) = inl (ap (lookup id) same ∙ e)
Owned-same id w w' same (j ∷ js) (inr k) = inr (Owned-same id w w' same js k)

-- Another stage for the job in the middle.
module _ (job : Job) (s : Stage) (after : List Job) where
  Elsewhere-stage :
      (p : ℕ) (before : List Job)
      → Elsewhere p (before ++ job ∷ after)
      → Elsewhere p (before ++ record job { stage = s } ∷ after)
  Elsewhere-stage p [] h = h
  Elsewhere-stage p (j ∷ before) h = (h.0, Elsewhere-stage p before h.1)

  pub Apart-stage :
      (before : List Job)
      → Apart (before ++ job ∷ after)
      → Apart (before ++ record job { stage = s } ∷ after)
  Apart-stage [] h = h
  Apart-stage (j ∷ before) h = (Elsewhere-stage j.at before h.0, Apart-stage before h.1)

  pub Owned-stage :
      {R : Type 0} (id : String) (w w' : World R)
      → w'.tasks ≡ w.tasks
      → (before : List Job) → Owned id w (before ++ job ∷ after)
      → Owned id w' (before ++ record job { stage = s } ∷ after)
  Owned-stage id w w' same [] (inl e) = inl (ap (lookup id) same ∙ e)
  Owned-stage id w w' same [] (inr h) = inr (Owned-same id w w' same after h)
  Owned-stage id w w' same (j ∷ before) (inl e) = inl (ap (lookup id) same ∙ e)
  Owned-stage id w w' same (j ∷ before) (inr h) = inr (Owned-stage id w w' same before h)
