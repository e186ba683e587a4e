-- ===== src/Orchestrator/Jobs/Moves.antt =====
-- What a step of one submission does to its own task, in the memory store.
use architecture_playground.Base.{arith, ℕ, ◌-◌, ◌≤◌, ◌≡◌, refl, false, none, some}
use architecture_playground.Task.{Task, submitted, running, is_final, can_transition_to}
use architecture_playground.Task.Lifecycle.{rank}
use architecture_playground.World.{World, Env}
use architecture_playground.World.Laws.{Returns, Local, Local-refl}
use architecture_playground.Context.{Ctx}
use architecture_playground.Store.{memory_store}
use architecture_playground.Store.Advance.{Evolves, Evolves-refl}
use architecture_playground.Registry.{HandlerRegistry}
use architecture_playground.Registry.Laws.{AllTame}
use architecture_playground.Runners.Laws.{IsStructured, run_sync_lem}
use architecture_playground.Execution.StateManager.Stored.{Holds, Holds-Local, running_stored}
use architecture_playground.Execution.ResultHandler.Laws.{final_result-ne-nil}
use architecture_playground.Execution.Workflow.Sync.{Outcome, fail_sync_lem, complete_sync_lem}
use architecture_playground.Orchestrator.Jobs.{Stage, entered, started, ran, over, next_stage}

-- How the task at p stands when its submission is at this stage.
abbrev pub Stands : ℕ → Stage → Task → Type 0
Stands p (entered x) t = (x.task ≡ some p) × (t.status ≡ submitted)
Stands p (started x) t = (x.task ≡ some p) × (t.status ≡ running)
Stands p (ran x e) t = (x.task ≡ some p) × (t.status ≡ running) × IsStructured e
Stands p (over e) t = Outcome e t × IsStructured e

-- The steps that are left.
abbrev pub left : Stage → ℕ
left (entered x) = 3
left (started x) = 2
left (ran x e) = 1
left (over e) = 0

-- A task that is not over yet may take any status that is not earlier.
unfinished-Evolves :
    (t t' : Task)
    → t'.id ≡ t.id
    → t'.type ≡ t.type
    → t'.payload ≡ t.payload
    → is_final t.status ≡ false
    → rank t'.status ≤ rank t.status
    → Evolves t t'
unfinished-Evolves t t' id type payload open_still further = record {
  same_id = id;
  same_type = type;
  same_payload = payload;
  fixed = λ over. absurd (cc (open_still, over));
  forward = further;
}

pub record Moved {R : Type 0} (p : ℕ) (s : Stage) (t : Task) (w : World R) (s' : Stage)
    (w' : World R) : Type 0 where
  pub own : Local p p w w'
  pub task : Task
  pub holds : Holds p task w'
  pub stands : Stands p s' task
  pub evolves : Evolves t task
  pub nearer : left s' ≡ left s - 1

module _ {R : Type 0} (env : Env) (registry : HandlerRegistry R) (ctx : Ctx) (p : ℕ) (t : Task)
    (w : World R) (h : Holds p t w) (tame : AllTame registry) where
  -- From every stage, the next step returns and leaves the other tasks alone; the task goes forward,
  -- and is done or failed when the last step is made.
  pub next_stage-Moved :
      (s : Stage)
      → Stands p s t
      → Returns (next_stage env memory_store registry ctx s w) (Moved p s t w)
  unfolding next_stage can_transition_to
  next_stage-Moved (entered x) (points, status) =
      let a = running_stored env x p t w points h (rw status refl) in
      record {
        value = started x;
        world = a.world;
        run = ground (arith, a.run, a.holds.0);
        holds = record {
          own = a.holds.1;
          task = record t { status = running; started_at = some (env.time_at w.reads) };
          holds = a.holds.2;
          stands = (points, refl);
          evolves = unfinished-Evolves t _ refl refl refl (rw status refl) (ground (arith, status));
          nearer = refl;
        };
      }
  next_stage-Moved (started x) (points, status) =
      let b = run_sync_lem registry ctx x p t w points h.at tame in
      let (r, held) = Holds-Local h b.holds.1 b.holds.2 in
      record {
        value = ran x b.value;
        world = b.world;
        run = ground (arith, b.run);
        holds = record {
          own = b.holds.1;
          task = record t { result = r };
          holds = held;
          stands = (points, status, b.holds.0);
          evolves = unfinished-Evolves t _ refl refl refl (rw status refl) (omega arith);
          nearer = refl;
        };
      }
  next_stage-Moved (ran x none) (points, status, structured) =
      let c = complete_sync_lem env x p t w points h (rw status refl) in
      record {
        value = over none;
        world = c.world;
        run = ground (arith, c.run, c.holds.0);
        holds = record {
          own = c.holds.1;
          task = _;
          holds = c.holds.2.1;
          stands = (refl, tt);
          evolves = unfinished-Evolves t _ refl refl refl (rw status refl) (omega arith);
          nearer = refl;
        };
      }
  next_stage-Moved (ran x (some e)) (points, status, structured) =
      let c = fail_sync_lem env x p t w points h e (rw status refl) in
      record {
        value = over (some e);
        world = c.world;
        run = ground (arith, c.run, c.holds.0);
        holds = record {
          own = c.holds.1;
          task = _;
          holds = c.holds.2.1;
          stands = ((refl, final_result-ne-nil t.result e), structured);
          evolves = unfinished-Evolves t _ refl refl refl (rw status refl) (omega arith);
          nearer = refl;
        };
      }
  next_stage-Moved (over e) stands = record {
    value = over e;
    world = w;
    run = refl;
    holds = record {
      own = Local-refl p p w;
      task = t;
      holds = h;
      stands = stands;
      evolves = Evolves-refl t;
      nearer = refl;
    };
  }
