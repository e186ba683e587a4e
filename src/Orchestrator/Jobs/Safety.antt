-- ===== src/Orchestrator/Jobs/Safety.antt =====
-- Submissions that overlap in time keep the store in order.
use mathlib.Core.Path.{subst}
use mathlib.Core.Option.{some-injective}
use architecture_playground.Base.{
  arith, ℕ, ◌+◌, ◌-◌, ◌≡◌, inl, inr, true, String, List, [], ◌∷◌, ◌++◌, some,
}
use architecture_playground.Task.{Task, is_final}
use architecture_playground.World.{World, Env}
use architecture_playground.World.Laws.{Returns, Returns-run, Returns-map}
use architecture_playground.Store.{memory_store}
use architecture_playground.Store.View.{view}
use architecture_playground.Store.Advance.{Advances, Advances-refl, Advances-trans}
use architecture_playground.Registry.{HandlerRegistry}
use architecture_playground.Registry.Laws.{AllTame}
use architecture_playground.Orchestrator.Settled.{Unique, IsSettled, Outcome-final}
use architecture_playground.Orchestrator.Jobs.{
  Job, Stage, entered, started, ran, over, next_stage, Step, submits, asks, moves, Reach, here,
  later,
}
use architecture_playground.Orchestrator.Jobs.Moves.{Stands, left}
use architecture_playground.Orchestrator.Jobs.Invariant.{AllCarried, Owned, IsServing}
use architecture_playground.Orchestrator.Jobs.Steps.{
  next_stage-IsServing, get_task_status-IsServing,
}
use architecture_playground.Orchestrator.Jobs.Entering.{enter-IsServing}

-- The steps that the submissions in progress have left.
abbrev pub todo : List Job → ℕ
todo [] = 0
todo (job ∷ js) = left job.stage + todo js

-- What follows a state w: the submissions in progress are in order, and no task was lost.
abbrev pub Keeps : {R : Type 0} → Env → World R → List Job → World R → Type 0
Keeps env w js w' = IsServing env js w' × Advances (view w) (view w')

-- Where no step is left, every task is over.
over-Stands : (p : ℕ) (s : Stage) (t : Task) → left s ≡ 0 → Stands p s t → is_final t.status ≡ true
over-Stands p (entered x) t e h = absurd (omega (arith, e))
over-Stands p (started x) t e h = absurd (omega (arith, e))
over-Stands p (ran x failed) t e h = absurd (omega (arith, e))
over-Stands p (over failed) t e h = Outcome-final failed t h.0

module _ {R : Type 0} (w : World R) (id : String) (t : Task) (e : view w id ≡ some t) where
  Owned-over :
      (js : List Job) → todo js ≡ 0 → AllCarried w js → Owned id w js → is_final t.status ≡ true
  unfolding view
  Owned-over [] n h k = absurd k
  Owned-over (job ∷ js) n ((t', held, stands), h) (inl k) =
      let same : some t' ≡ some t = ground (arith, e, k, held.at) in
      subst (λ z. is_final z.status ≡ true) (some-injective t' t same)
        (over-Stands job.at job.stage t' (omega (arith, n)) stands)
  Owned-over (job ∷ js) n (c, h) (inr k) = Owned-over js (omega (arith, n)) h k

pub over-IsSettled :
    {R : Type 0} (env : Env) (js : List Job) (w : World R)
    → todo js ≡ 0
    → IsServing env js w
    → IsSettled env w
over-IsSettled env js w n s = record {
  valid = s.valid;
  final = λ id t e. elim (s.covered id t e) [
    | inl done ↦ done
    | inr owned ↦ Owned-over w id t e js n s.carried owned
  ];
  issued = s.issued;
}

module _ {R : Type 0} (env : Env) (registry : HandlerRegistry R) (unique : Unique env)
    (tame : AllTame registry) where
  Step-IsServing :
      {js js' : List Job} {w w' : World R}
      → Step env registry js w js' w'
      → IsServing env js w
      → Keeps env w js' w'
  Step-IsServing {js} {js'} {w} {w'} (submits ctx type payload job run) s =
      let (k, a, _) = Returns-run (enter-IsServing env js w s unique ctx type payload) job w' run in
      (k, a)
  Step-IsServing {js} {js'} {w} {w'} (asks id r run) s =
      Returns-run (get_task_status-IsServing env js w s id) r w' run
  Step-IsServing {js} {js'} {w} {w'} (moves before job after stage run) s =
      let (k, a, _) =
        Returns-run (next_stage-IsServing env registry before job after w s tame) stage w' run in
      (k, a)

  module _ (w0 : World R) (quiet : IsSettled env w0) where
    pub served : {js : List Job} {w : World R} → Reach env registry w0 js w → Keeps env w0 js w
    served here = (
      record {
        valid = quiet.valid;
        carried = tt;
        apart = tt;
        covered = λ id t e. inl (quiet.final id t e);
        issued = quiet.issued;
      },
      Advances-refl (view w0),
    )
    served {w = w'} (later {w = w} r st) =
        let (s, first) = served r in
        let (s', last) = Step-IsServing st s in
        (s', Advances-trans (view w0) (view w) (view w') first last)

    -- In every state that is reached from a settled one by submissions to the synchronous runner,
    -- cut into their steps, and status queries, in any order, where IDs do not repeat and the
    -- handlers write only their task's result: the store is well formed, each submission's task is
    -- stored as its stage says and is its own, every other stored task is done or failed, and no
    -- task was lost, changed after it was over, or went back in its status. The next step of any
    -- submission in progress returns, keeps this, and leaves one step less to do; and where none is
    -- left, the state is settled.
    pub Reach-IsServing :
        {js : List Job} {w : World R}
        → Reach env registry w0 js w
        → Keeps env w0 js w
          × ((before : List Job) (job : Job) (after : List Job)
              → js ≡ before ++ job ∷ after
              → Returns (next_stage env memory_store registry job.ctx job.stage w) (λ stage w'.
                Keeps env w0 (before ++ record job { stage = stage } ∷ after) w'
                × (left stage ≡ left job.stage - 1)))
          × (todo js ≡ 0 → IsSettled env w)
    Reach-IsServing {js} {w} r =
        let (s, first) = served r in
        (
          (s, first),
          λ before job after e.
              Returns-map
                (next_stage-IsServing env registry before job after w
                  (subst (λ l. IsServing env l w) e s) tame)
                (λ stage w' (s', last, nearer).
                  ((s', Advances-trans (view w0) (view w) (view w') first last), nearer)),
          λ n. over-IsSettled env js w n s,
        )
