-- ===== src/Orchestrator/Jobs/Entering.antt =====
-- A submission enters: its task is new, and the other submissions go on as before.
use mathlib.Core.Path.{subst}
use architecture_playground.Base.{
  arith, ℕ, ◌+◌, String, ◌≡◌, ◌≢◌, ◌∙◌, false, inl, inr, refl, sym, ap, ◌==◌, eq_iff, eqb_iff,
  lookup, lookup-insert, List, [], ◌∷◌, ◌++◌, none, some, Bool-cases, Option-cases, if◌then◌else◌,
  length,
}
use architecture_playground.Errors.{nil, field, text, size}
use architecture_playground.Task.{Task, new_task}
use architecture_playground.World.{World, Env, write_at}
use architecture_playground.World.Laws.{Returns, Returns-map, Quiet, ticked}
use architecture_playground.Logger.Laws.{log_task-Quiet}
use architecture_playground.Context.{ExecutionContext, Ctx}
use architecture_playground.Store.{memory_store}
use architecture_playground.Store.View.{view, IsWellFormed}
use architecture_playground.Store.Laws.{lookup-view-none, save_run}
use architecture_playground.Store.Advance.{Advances, Advances-With}
use architecture_playground.Store.Quiet.{view-Quiet, IsWellFormed-Quiet}
use architecture_playground.Orchestrator.Laws.{
  stored_new, stored_new-Holds, stored_new-IsWellFormed, view-stored_new,
}
use architecture_playground.Orchestrator.Settled.{Unique}
use architecture_playground.Orchestrator.Jobs.{Job, entered, enter}
use architecture_playground.Orchestrator.Jobs.Moves.{left}
use architecture_playground.Orchestrator.Jobs.Invariant.{
  Carried, AllCarried, Elsewhere, Apart, Owned, IsServing, Owned-at,
}

module _ {R : Type 0} (env : Env) (ctx : Ctx) (type : String) (payload : List ℕ) (w : World R) where
  abbrev made : Task
  made = new_task (env.uuid_at w.ids) (env.time_at w.reads) type payload

  -- The task was made and saved, and the submission is at its first stage.
  record Entered (job : Job) (w' : World R) : Type 0 where
    quiet : Quiet (stored_new w made) w'
    at : job.at ≡ w.next
    context : ExecutionContext
    stage : job.stage ≡ entered context
    points : context.task ≡ some w.next

  enter_lem :
      lookup made.id w.tasks ≡ none → Returns (enter env memory_store ctx type payload w) Entered
  unfolding enter
  enter_lem none_yet =
      let w1 = stored_new w made in
      let saved =
        save_run
          (record w {
            heap = write_at w.heap w.next made;
            next = w.next + 1;
            reads = w.reads + 1;
            ids = w.ids + 1;
          })
          w.next made (ground arith) none_yet in
      let a =
        log_task-Quiet env "task submitted"
          (field "task_type" (text type) (field "payload_size" (size (length payload)) nil)) w1
          (env.uuid_at w.ids) in
      let x : ExecutionContext = record {
        task = some w.next;
        error = none;
        start_time = env.time_at a.world.reads;
        end_time = none;
      } in
      record {
        value = record { ctx = ctx; at = w.next; stage = entered x };
        world = record a.world { reads = a.world.reads + 1 };
        run = ground (arith, saved, a.run);
        holds = record {
          quiet = ticked a.holds;
          at = refl;
          context = x;
          stage = refl;
          points = refl;
        };
      }

-- The tasks of other submissions stay where a new one is saved.
module _ {R : Type 0} (w w' : World R) (t0 : Task) (v : IsWellFormed w)
    (fresh : lookup t0.id w.tasks ≡ none) (q : Quiet (stored_new w t0) w') where
  AllCarried-new : (js : List Job) → AllCarried w js → AllCarried w' js
  AllCarried-new [] h = tt
  AllCarried-new (job ∷ js) ((t, held, stands), h) = (
    (
      t,
      record {
        at = ground (arith, q.same_heap, held.at, v.unused w.next, eqb_iff w.next job.at);
        stored = ground (
          arith,
          q.same_tasks,
          lookup-insert t0.id t.id w.next w.tasks,
          eq_iff t0.id t.id,
          held.stored,
          fresh,
        );
      },
      stands,
    ),
    AllCarried-new js h,
  )

  Elsewhere-new : (js : List Job) → AllCarried w js → Elsewhere w.next js
  Elsewhere-new [] h = tt
  Elsewhere-new (job ∷ js) ((t, held, stands), h) =
      (λ e. ground (arith, held.at, e, v.unused w.next), Elsewhere-new js h)

  Owned-new :
      (id : String) (job : Job) (js : List Job)
      → (t0.id == id) ≡ false
      → Owned id w js
      → Owned id w' (js ++ job ∷ [])
  Owned-new id job [] e k = absurd k
  Owned-new id job (j ∷ js) e (inl k) =
      inl (ground (arith, q.same_tasks, lookup-insert t0.id id w.next w.tasks, e, k))
  Owned-new id job (j ∷ js) e (inr k) = inr (Owned-new id job js e k)

AllCarried-append :
    {R : Type 0} (w : World R) (js : List Job) (job : Job)
    → AllCarried w js
    → Carried w job
    → AllCarried w (js ++ job ∷ [])
AllCarried-append w [] job h c = (c, tt)
AllCarried-append w (j ∷ js) job h c = (h.0, AllCarried-append w js job h.1 c)

Elsewhere-append :
    (p : ℕ) (js : List Job) (job : Job) → Elsewhere p js → job.at ≢ p → Elsewhere p (js ++ job ∷ [])
Elsewhere-append p [] job h k = (k, tt)
Elsewhere-append p (j ∷ js) job h k = (h.0, Elsewhere-append p js job h.1 k)

Apart-append : (js : List Job) (job : Job) → Apart js → Elsewhere job.at js → Apart (js ++ job ∷ [])
Apart-append [] job h k = (tt, tt)
Apart-append (j ∷ js) job h k =
    (Elsewhere-append j.at js job h.0 (λ e. k.0 (sym e)), Apart-append js job h.1 k.1)

module _ {R : Type 0} (env : Env) (js : List Job) (w : World R) (s : IsServing env js w)
    (unique : Unique env) (ctx : Ctx) (type : String) (payload : List ℕ) where
  fresh_id : view w (env.uuid_at w.ids) ≡ none
  fresh_id = elim (Option-cases (view w (env.uuid_at w.ids))) [
    | inl e ↦ e
    | inr (t, e) ↦
        let (k, low, same) = s.issued (env.uuid_at w.ids) t e in
        absurd (omega (arith, low, unique w.ids k same))
  ]

  Entered-IsServing :
      (job : Job) (w' : World R)
      → Entered env ctx type payload w job w'
      → IsServing env (js ++ job ∷ []) w' × Advances (view w) (view w')
  Entered-IsServing job w' m =
      let t0 = made env ctx type payload w in
      let none_yet = lookup-view-none w t0.id s.valid fresh_id in
      let w1 = stored_new w t0 in
      let held = stored_new-Holds w t0 s.valid none_yet in
      let seen : (j : String) → view w' j ≡ (if t0.id == j then some t0 else view w j) =
        λ j. view-Quiet m.quiet j ∙ view-stored_new w t0 s.valid none_yet j in
      (
        record {
          valid = IsWellFormed-Quiet (stored_new-IsWellFormed w t0 s.valid none_yet) m.quiet;
          carried =
              AllCarried-append w' js job
                (AllCarried-new w w' t0 s.valid none_yet m.quiet js s.carried)
                (
                  t0,
                  record {
                    at = ground (arith, m.quiet.same_heap, m.at, held.at);
                    stored = ground (arith, m.quiet.same_tasks, m.at, held.stored);
                  },
                  rw (m.stage) (m.points ∙ ap some (sym m.at), refl),
                );
          apart = Apart-append js job s.apart (
              subst (λ p. Elsewhere p js) (sym m.at)
                (Elsewhere-new w w' t0 s.valid none_yet m.quiet js s.carried));
          covered = λ id u k. elim (Bool-cases (t0.id == id)) [
            | inl same ↦ inr (
                Owned-at id w' js job []
                  (ground (arith, m.quiet.same_tasks, m.at, held.stored, (eq_iff t0.id id).0 same)))
            | inr differ ↦ elim (s.covered id u (sym (rw differ at (seen id)) ∙ k)) [
              | inl over ↦ inl over
              | inr owned ↦ inr (Owned-new w w' t0 s.valid none_yet m.quiet id job js differ owned)
            ]
          ];
          issued = λ id u k. elim (Bool-cases (t0.id == id)) [
            | inl same ↦ (w.ids, omega (arith, m.quiet.same_ids), sym ((eq_iff t0.id id).0 same))
            | inr differ ↦
                let (n, low, is) = s.issued id u (sym (rw differ at (seen id)) ∙ k) in
                (n, omega (arith, low, m.quiet.same_ids), is)
          ];
        },
        Advances-With (view w) (view w') t0.id t0 seen (λ t k. absurd (cc (k, fresh_id))),
      )

  pub enter-IsServing : Returns (enter env memory_store ctx type payload w) (λ job w'.
      IsServing env (js ++ job ∷ []) w' × Advances (view w) (view w') × (left job.stage ≡ 3))
  enter-IsServing =
      let none_yet = lookup-view-none w (env.uuid_at w.ids) s.valid fresh_id in
      Returns-map (enter_lem env ctx type payload w none_yet)
        (λ job w' m. let (k, a) = Entered-IsServing job w' m in (k, a, rw (m.stage) refl))
