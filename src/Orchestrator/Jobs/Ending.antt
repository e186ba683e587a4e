-- ===== src/Orchestrator/Jobs/Ending.antt =====
-- Submissions that overlap in time all end.
use mathlib.Core.Path.{subst}
use architecture_playground.Base.{
  arith, ℕ, ◌-◌, zero, suc, ◌≡◌, ◌≢◌, ◌∙◌, ◌⊎◌, inl, inr, refl, sym, ap, List, [], ◌∷◌, ◌++◌,
}
use architecture_playground.World.{World, Env}
use architecture_playground.Store.View.{view}
use architecture_playground.Store.Advance.{Advances, Advances-refl, Advances-trans}
use architecture_playground.Registry.{HandlerRegistry}
use architecture_playground.Registry.Laws.{AllTame}
use architecture_playground.Orchestrator.Settled.{Unique, IsSettled}
use architecture_playground.Orchestrator.Jobs.{Runs, stop, step, Job, Stage, Reach}
use architecture_playground.Orchestrator.Jobs.Moves.{left}
use architecture_playground.Orchestrator.Jobs.Invariant.{IsServing}
use architecture_playground.Orchestrator.Jobs.Steps.{next_stage-IsServing}
use architecture_playground.Orchestrator.Jobs.Safety.{todo, over-IsSettled, served}

todo-moved :
    (before : List Job) (job : Job) (after : List Job) (s : Stage)
    → left s ≡ left job.stage - 1
    → left job.stage ≢ 0
    → todo (before ++ job ∷ after) ≡ suc (todo (before ++ record job { stage = s } ∷ after))
todo-moved [] job after s e more = omega (arith, e, more)
todo-moved (j ∷ before) job after s e more =
    let same = todo-moved before job after s e more in omega (arith, same)

abbrev pub addresses : List Job → List ℕ
addresses [] = []
addresses (job ∷ js) = job.at ∷ addresses js

addresses-moved :
    (before : List Job) (job : Job) (after : List Job) (s : Stage)
    → addresses (before ++ record job { stage = s } ∷ after) ≡ addresses (before ++ job ∷ after)
addresses-moved [] job after s = refl
addresses-moved (j ∷ before) job after s = ap (λ l. j.at ∷ l) (addresses-moved before job after s)

-- Where a step is left, one of the submissions has it.
record Unfinished (js : List Job) : Type 0 where
  before : List Job
  job : Job
  after : List Job
  split : js ≡ before ++ job ∷ after
  more : left job.stage ≢ 0

zero-cases : (n : ℕ) → (n ≡ 0) ⊎ (n ≢ 0)
zero-cases zero = inl refl
zero-cases (suc n) = inr (λ e. omega (arith, e))

find-Unfinished : (js : List Job) → todo js ≢ 0 → Unfinished js
find-Unfinished [] h = absurd (h refl)
find-Unfinished (job ∷ js) h = elim (zero-cases (left job.stage)) [
  | inr more ↦ record { before = []; job = job; after = js; split = refl; more = more }
  | inl none_left ↦
      let u = find-Unfinished js (λ e. h (omega (arith, none_left, e))) in
      record {
        before = job ∷ u.before;
        job = u.job;
        after = u.after;
        split = ap (λ l. job ∷ l) u.split;
        more = u.more;
      }
]

module _ {R : Type 0} (env : Env) (registry : HandlerRegistry R) (tame : AllTame registry) where
  -- A settled state that n steps of the submissions in progress lead to.
  pub record Ends (n : ℕ) (js : List Job) (w : World R) : Type 0 where
    pub jobs : List Job
    pub world : World R
    pub runs : Runs env registry n js w jobs world
    pub settled : IsSettled env world
    pub advances : Advances (view w) (view world)
    pub same : addresses jobs ≡ addresses js

  go_on : (n : ℕ) (js : List Job) (w : World R) → IsServing env js w → todo js ≡ n → Ends n js w
  go_on zero js w s e = record {
    jobs = js;
    world = w;
    runs = stop;
    settled = over-IsSettled env js w e s;
    advances = Advances-refl (view w);
    same = refl;
  }
  go_on (suc n) js w s e =
      let u = find-Unfinished js (λ none_left. omega (arith, e, none_left)) in
      let next =
        next_stage-IsServing env registry u.before u.job u.after w
          (subst (λ l. IsServing env l w) u.split s) tame in
      let job' = record u.job { stage = next.value } in
      let less = todo-moved u.before u.job u.after next.value next.holds.2 u.more in
      let rest =
        go_on n (u.before ++ job' ∷ u.after) next.world next.holds.0
          (omega (arith, e, less, ap todo u.split)) in
      record {
        jobs = rest.jobs;
        world = rest.world;
        runs =
            subst (λ l. Runs env registry (suc n) l w rest.jobs rest.world) (sym u.split)
              (step u.before u.job u.after next.value next.run rest.runs);
        settled = rest.settled;
        advances =
            Advances-trans (view w) (view next.world) (view rest.world) next.holds.1 rest.advances;
        same =
            rest.same
            ∙ addresses-moved u.before u.job u.after next.value
            ∙ ap addresses (sym u.split);
      }

  -- Every submission ends: from every state that is reached from a settled one by submissions to the
  -- synchronous runner, cut into their steps, and status queries, in any order, where IDs do not
  -- repeat and the handlers write only their task's result, as many steps of the submissions in
  -- progress as they have left lead to a settled state with the same submissions, where no task was
  -- lost on the way.
  pub Reach-Ends :
      (unique : Unique env) (w0 : World R)
      → IsSettled env w0
      → {js : List Job} {w : World R} → Reach env registry w0 js w
      → Ends (todo js) js w
  Reach-Ends unique w0 quiet {js} {w} r =
      go_on (todo js) js w (served env registry unique tame w0 quiet r).0 refl
