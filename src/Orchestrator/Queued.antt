-- ===== src/Orchestrator/Queued.antt =====
-- Submitting a task, with the memory store and the asynchronous runner.
use mathlib.Core.Path.{subst}
use architecture_playground.Base.{
  ℕ, ◌+◌, String, ◌≡◌, ◌≢◌, refl, List, Option, none, some, arith, lookup, ◌==◌, if◌then◌else◌,
  length, eqb_iff, lookup-insert,
}
use architecture_playground.Errors.{Err, error_text, nil, field, text, size}
use architecture_playground.Task.{Task, queued, failed, new_task, can_transition_to}
use architecture_playground.World.{World, Env, write_at}
use architecture_playground.World.Laws.{
  Returns, Returns-map, ticked, Frame, Frame-Quiet, Frame-trans,
}
use architecture_playground.World.Spares.{Spares}
use architecture_playground.Logger.Laws.{log_task-Quiet}
use architecture_playground.Context.{ExecutionContext, Ctx}
use architecture_playground.Store.{memory_store}
use architecture_playground.Store.View.{view, IsWellFormed}
use architecture_playground.Store.Laws.{lookup-view-none, save_run}
use architecture_playground.Registry.{HandlerRegistry}
use architecture_playground.Queue.{TaskQueue}
use architecture_playground.Queue.Laws.{IsCalm, OnSend, Delivers, IsCalm-Delivers}
use architecture_playground.Runners.{asynchronous}
use architecture_playground.Runners.Laws.{IsStructured}
use architecture_playground.Execution.ResultHandler.Laws.{final_result}
use architecture_playground.Execution.StateManager.Stored.{Holds, view-Frame, Frame-IsWellFormed}
use architecture_playground.Execution.Workflow.{execute}
use architecture_playground.Execution.Workflow.Async.{Handed, waiting_task, execute_async_delivers}
use architecture_playground.Orchestrator.{submit_task}
use architecture_playground.Orchestrator.Laws.{
  stored_new, stored_new-Holds, stored_new-IsWellFormed, view-stored_new,
}

-- How the task stands: queued and not started, or failed with the error's text.
abbrev pub Standing : Option Err → Task → Type 0
Standing none t =
    (t.status ≡ queued)
    × (t.queued_at ≢ none)
    × (t.result ≡ "")
    × (t.started_at ≡ none)
    × (t.completed_at ≡ none)
Standing (some e) t =
    (t.status ≡ failed) × (t.result ≡ final_result (error_text e) e) × (t.completed_at ≢ none)

-- What a client finds after a submission to the queue.
pub record Accepted {R : Type 0} (id type : String) (payload : List ℕ) (w : World R)
    (e : Option Err) (p : ℕ) (w' : World R) : Type 0 where
  pub task : Task
  pub held : w'.heap p ≡ some task
  pub same_id : task.id ≡ id
  pub same_type : task.type ≡ type
  pub same_payload : task.payload ≡ payload
  pub standing : Standing e task
  pub structured : IsStructured e
  pub stored : (j : String) → view w' j ≡ (if id == j then some task else view w j)
  pub valid : IsWellFormed w'
  pub one_more : w'.ids ≡ w.ids + 1
  pub spares : Spares w w'

-- What was handed to the queue, a queued task under the new ID, and what became of the server.
pub record Posted {R : Type 0} (Sent : ExecutionContext → Task → R → R → Type 0)
    (Unsent : R → R → Type 0) (id type : String) (e : Option Err) (s s' : R) : Type 0 where
  pub context : ExecutionContext
  pub task : Task
  pub no_error : context.error ≡ none
  pub same_id : task.id ≡ id
  pub same_type : task.type ≡ type
  pub is_queued : task.status ≡ queued
  pub outcome : OnSend Sent Unsent context task e s s'

Standing-of :
    {R : Type 0} (env : Env) (uuid type : String) (now : ℕ) (payload : List ℕ) (e : Option Err)
    (t' : Task) (w : World R)
    → Handed env (new_task uuid now type payload) e t' w
    → (t'.id ≡ uuid) × (t'.type ≡ type) × (t'.payload ≡ payload) × Standing e t'
Standing-of env uuid type now payload none t' w h = ground arith
Standing-of env uuid type now payload (some e) t' w h = ground arith

module _ {R : Type 0} (env : Env) (queue : TaskQueue R) (registry : HandlerRegistry R) (ctx : Ctx)
    (type : String) (payload : List ℕ) (w : World R) where
  abbrev made : Task
  made = new_task (env.uuid_at w.ids) (env.time_at w.reads) type payload

  Accepted-of :
      IsWellFormed w
      → lookup made.id w.tasks ≡ none
      → (e : Option Err) (w' w2 : World R) → Frame w.next w.next (stored_new w made) w'
      → IsStructured e
      → (t' : Task) → Holds w.next t' w'
      → Handed env made e t' w2
      → Accepted made.id type payload w e w.next w'
  Accepted-of v fresh e w' w2 f structured t' held s =
      let w1 = stored_new w made in
      let v1 = stored_new-IsWellFormed w made v fresh in
      let h1 = stored_new-Holds w made v fresh in
      let (same_id, same_type, same_payload, standing) =
        Standing-of env made.id type (env.time_at w.reads) payload e t' w2 s in
      record {
        task = t';
        held = held.at;
        same_id = same_id;
        same_type = same_type;
        same_payload = same_payload;
        standing = standing;
        structured = structured;
        stored = λ j. ground (
          arith,
          view-Frame w.next made t' w1 w' v1 h1 f held same_id j,
          view-stored_new w made v fresh j,
        );
        valid = Frame-IsWellFormed w.next made t' w1 w' v1 h1 f held same_id;
        one_more = f.same_ids;
        spares = record {
          same_object = λ p low out. ground (arith, f.same_heap p, eqb_iff w.next p, low);
          unstored = λ p low out j e.
              ground (arith, e, f.same_tasks, lookup-insert made.id j w.next w.tasks, low, out j);
          grown = omega (arith, f.same_next);
        };
      }

  -- A submission with a UUID that the store does not hold yet, to the asynchronous runner; what is
  -- known of the queue tells what became of the server.
  pub submit_task_delivers :
      (Sent : ExecutionContext → Task → R → R → Type 0) (Unsent : R → R → Type 0)
      → IsWellFormed w
      → view w (env.uuid_at w.ids) ≡ none
      → Delivers queue Sent Unsent
      → Returns
          (submit_task env memory_store (asynchronous queue registry) ctx type payload w)
          (λ r w'.
            Accepted (env.uuid_at w.ids) type payload w r.1 r.0 w'
            × Posted Sent Unsent (env.uuid_at w.ids) type r.1 w.server w'.server)
  unfolding submit_task execute can_transition_to
  submit_task_delivers Sent Unsent v fresh known =
      let none_yet = lookup-view-none w (env.uuid_at w.ids) v fresh in
      let w1 = stored_new w made in
      let before = record w {
        heap = write_at w.heap w.next made;
        next = w.next + 1;
        reads = w.reads + 1;
        ids = w.ids + 1;
      } in
      let saved = save_run before w.next made (ground arith) none_yet in
      let held = stored_new-Holds w made v none_yet in
      let fields =
        field "task_type" (text type) (field "payload_size" (size (length payload)) nil) in
      let a = log_task-Quiet env "task submitted" fields w1 (env.uuid_at w.ids) in
      let x : ExecutionContext = record {
        task = some w.next;
        error = none;
        start_time = env.time_at a.world.reads;
        end_time = none;
      } in
      let w2 = record a.world { reads = a.world.reads + 1 } in
      let held2 : Holds w.next made w2 = record { at = ground arith; stored = ground arith } in
      let b =
        execute_async_delivers env queue registry ctx x w.next made w2 refl held2 refl Sent Unsent
          known in
      let f =
        Frame-trans w.next w.next w1 w2 b.world (Frame-Quiet w.next w.next w1 w2 (ticked a.holds))
          b.holds.1 in
      record {
        value = (w.next, b.value);
        world = b.world;
        run = ground arith;
        holds = (
          Accepted-of v none_yet b.value b.world w2 f b.holds.0 b.holds.2.0 b.holds.2.1 b.holds.2.2,
          record {
            context = x;
            task = waiting_task env queue registry ctx x w.next made w2 refl held2 refl;
            no_error = refl;
            same_id = refl;
            same_type = refl;
            is_queued = refl;
            outcome =
                subst
                  (λ s.
                    OnSend Sent Unsent x
                      (waiting_task env queue registry ctx x w.next made w2 refl held2 refl) b.value
                      s b.world.server)
                  a.holds.same_server b.holds.3;
          },
        );
      }

  -- A submission with a UUID that the store does not hold yet, to the asynchronous runner with a
  -- queue that returns and leaves the tasks alone, returns the new task, as `Accepted` says.
  pub submit_task_async :
      IsWellFormed w
      → view w (env.uuid_at w.ids) ≡ none
      → IsCalm queue
      → Returns
          (submit_task env memory_store (asynchronous queue registry) ctx type payload w)
          (λ r w'. Accepted (env.uuid_at w.ids) type payload w r.1 r.0 w')
  submit_task_async v fresh calm =
      Returns-map (submit_task_delivers _ _ v fresh (IsCalm-Delivers queue calm)) (λ r w' h. h.0)
