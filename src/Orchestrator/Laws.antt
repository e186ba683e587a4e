-- ===== src/Orchestrator/Laws.antt =====
-- Submitting a task, with the memory store and the synchronous runner.
use architecture_playground.Base.{
  ℕ, ◌+◌, String, ◌<>◌, ◌≡◌, ◌≢◌, refl, List, Option, none, some, arith, insert, lookup,
  lookup-insert, lookup-insert_self, eqb_refl, eqb_iff, eq_iff, ◌==◌, if◌then◌else◌, Option-cases,
  inl, inr, length,
}
use architecture_playground.Errors.{
  Err, new_not_found_error, TaskError, task_error, nil, field, text, size,
}
use architecture_playground.Task.{Task, new_task, status_text, can_transition_to}
use architecture_playground.World.{World, Env, ok, err, write_at}
use architecture_playground.World.Laws.{Returns, ticked, Frame, Frame-Quiet, Frame-trans}
use architecture_playground.Logger.Laws.{log_task-Quiet}
use architecture_playground.Context.{ExecutionContext, Ctx}
use architecture_playground.Store.{memory_store}
use architecture_playground.Store.Quiet.{SameStore}
use architecture_playground.Store.View.{view, IsWellFormed}
use architecture_playground.Store.Laws.{lookup-view-none, save_run, get_found, get_missing}
use architecture_playground.Registry.{HandlerRegistry}
use architecture_playground.Registry.Laws.{AllTame}
use architecture_playground.Runners.{synchronous}
use architecture_playground.Runners.Laws.{IsStructured}
use architecture_playground.Execution.StateManager.Stored.{Holds, view-Frame, Frame-IsWellFormed}
use architecture_playground.Execution.Workflow.{execute}
use architecture_playground.Execution.Workflow.Sync.{Outcome, SettledAt, execute_sync_lem}
use architecture_playground.Orchestrator.{submit_task, get_task_status}

-- The world in which a new task object was made at the end of the heap and saved.
abbrev pub stored_new : {R : Type 0} → World R → Task → World R
stored_new w t = record w {
  heap = write_at w.heap w.next t;
  next = w.next + 1;
  tasks = insert t.id w.next w.tasks;
  reads = w.reads + 1;
  ids = w.ids + 1;
}

module _ {R : Type 0} (w : World R) (t : Task) (v : IsWellFormed w)
    (fresh : lookup t.id w.tasks ≡ none) where
  pub stored_new-Holds : Holds w.next t (stored_new w t)
  stored_new-Holds = record { at = ground arith; stored = lookup-insert_self t.id w.next w.tasks }

  pub stored_new-IsWellFormed : IsWellFormed (stored_new w t)
  stored_new-IsWellFormed = record {
    stored = λ j q e. ground (
      arith,
      lookup-insert t.id j w.next w.tasks,
      v.stored j q,
      v.unused q,
      eq_iff t.id j,
      eqb_iff w.next q,
    );
    unused = λ q k. ground (arith, v.unused q, eqb_iff w.next q);
  }

  pub view-stored_new :
      (j : String) → view (stored_new w t) j ≡ (if t.id == j then some t else view w j)
  unfolding view
  view-stored_new j = elim (Option-cases (lookup j w.tasks)) [
    | inl e ↦ ground (arith, lookup-insert t.id j w.next w.tasks, eqb_refl w.next)
    | inr (q, e) ↦ ground (
      arith,
      lookup-insert t.id j w.next w.tasks,
      v.stored j q e,
      v.unused q,
      eqb_iff w.next q,
      eq_iff t.id j,
    )
  ]

-- What a client finds after a submission: a task under the new ID with the type and payload that it
-- gave, done if there was no error and failed with a text otherwise; the other tasks are as before.
pub record Submitted {R : Type 0} (id type : String) (payload : List ℕ) (w : World R)
    (e : Option Err) (p : ℕ) (w' : World R) : Type 0 where
  pub task : Task
  pub held : w'.heap p ≡ some task
  pub same_id : task.id ≡ id
  pub same_type : task.type ≡ type
  pub same_payload : task.payload ≡ payload
  pub started : task.started_at ≢ none
  pub completed : task.completed_at ≢ none
  pub outcome : Outcome e task
  pub structured : IsStructured e
  pub stored : (j : String) → view w' j ≡ (if id == j then some task else view w j)
  pub valid : IsWellFormed w'
  pub one_more : w'.ids ≡ w.ids + 1

Submitted-of :
    {R : Type 0} (w : World R) (t : Task)
    → IsWellFormed w
    → lookup t.id w.tasks ≡ none
    → (e : Option Err) (w' : World R) → Frame w.next w.next (stored_new w t) w'
    → IsStructured e
    → SettledAt w.next t e w'
    → Submitted t.id t.type t.payload w e w.next w'
Submitted-of w t v fresh e w' f structured (t', held, s) =
    let w1 = stored_new w t in
    let v1 = stored_new-IsWellFormed w t v fresh in
    let h1 = stored_new-Holds w t v fresh in
    record {
      task = t';
      held = held.at;
      same_id = s.same_id;
      same_type = s.same_type;
      same_payload = s.same_payload;
      started = s.started;
      completed = s.completed;
      outcome = s.outcome;
      structured = structured;
      stored = λ j. ground (
        arith,
        view-Frame w.next t t' w1 w' v1 h1 f held s.same_id j,
        view-stored_new w t v fresh j,
      );
      valid = Frame-IsWellFormed w.next t t' w1 w' v1 h1 f held s.same_id;
      one_more = f.same_ids;
    }

module _ {R : Type 0} (env : Env) (registry : HandlerRegistry R) (ctx : Ctx) (type : String)
    (payload : List ℕ) (w : World R) where
  abbrev made : Task
  made = new_task (env.uuid_at w.ids) (env.time_at w.reads) type payload

  -- A submission with a UUID that the store does not hold yet, to the synchronous runner with
  -- handlers that write only their task's result, returns the new task, as `Submitted` says.
  pub submit_task_sync :
      IsWellFormed w
      → view w (env.uuid_at w.ids) ≡ none
      → AllTame registry
      → Returns
          (submit_task env memory_store (synchronous registry) ctx type payload w)
          (λ r w'. Submitted (env.uuid_at w.ids) type payload w r.1 r.0 w')
  unfolding submit_task execute can_transition_to
  submit_task_sync v fresh tame =
      let none_yet = lookup-view-none w (env.uuid_at w.ids) v fresh in
      let w1 = stored_new w made in
      let saved =
        save_run
          (record w {
            heap = write_at w.heap w.next made;
            next = w.next + 1;
            reads = w.reads + 1;
            ids = w.ids + 1;
          })
          w.next made (ground arith) none_yet in
      let held = stored_new-Holds w made v none_yet in
      let a =
        log_task-Quiet env "task submitted"
          (field "task_type" (text type) (field "payload_size" (size (length payload)) nil)) w1
          (env.uuid_at w.ids) in
      let x : ExecutionContext = record {
        task = some w.next;
        error = none;
        start_time = env.time_at a.world.reads;
        end_time = none;
      } in
      let w2 = record a.world { reads = a.world.reads + 1 } in
      let held2 : Holds w.next made w2 = record { at = ground arith; stored = ground arith } in
      let b = execute_sync_lem env registry ctx x w.next made w2 refl held2 refl tame in
      let f =
        Frame-trans w.next w.next w1 w2 b.world (Frame-Quiet w.next w.next w1 w2 (ticked a.holds))
          b.holds.1.frame in
      record {
        value = (w.next, b.value);
        world = b.world;
        run = ground arith;
        holds = Submitted-of w made v none_yet b.value b.world f b.holds.0 b.holds.2;
      }

module _ {R : Type 0} (id : String) (w : World R) (v : IsWellFormed w) where
  -- The status query of a stored task answers its status and changes neither the store nor the server.
  pub get_task_status_found :
      (t : Task)
      → view w id ≡ some t
      → Returns
          (get_task_status memory_store id w)
          (λ s w'. (s ≡ ok (status_text t.status)) × SameStore w w')
  unfolding get_task_status
  get_task_status_found t h =
      let a = get_found w id t v h in
      record {
        value = ok (status_text t.status);
        world = a.world;
        run = ground arith;
        holds = (refl, a.holds.5);
      }

  -- The status query of an unknown ID answers a structured error with code 404, and changes nothing.
  pub get_task_status_missing :
      view w id ≡ none
      → Returns
          (get_task_status memory_store id w)
          (λ s w'. (e : TaskError) × (s ≡ err (task_error e)) × (e.code ≡ 404) × (w' ≡ w))
  unfolding get_task_status
  get_task_status_missing h =
      let a = get_missing w id v h in
      record {
        value = err (task_error (new_not_found_error ("task " <> id <> " not found")));
        world = a.world;
        run = ground arith;
        holds = (_, refl, refl, a.holds.2);
      }
