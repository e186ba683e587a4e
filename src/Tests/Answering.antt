-- ===== src/Tests/Answering.antt =====
-- Requests and their answers.
use architecture_playground.Base.{
  String, ◌≡◌, ◌≢◌, refl, true, false, ◌==◌, eq_iff, [], ◌∷◌, some, arith, lookup,
}
use architecture_playground.World.{ok, pure, Line}
use architecture_playground.World.Laws.{Returns, Quiet}
use architecture_playground.Store.{memory_store}
use architecture_playground.Store.Quiet.{SameStore}
use architecture_playground.Store.View.{view}
use architecture_playground.Runners.{synchronous}
use architecture_playground.Api.Path.{path_parts}
use architecture_playground.Api.Path.Laws.{path_parts-tasks}
use architecture_playground.Api.Writer.{new_response, write_header, task_status_response}
use architecture_playground.Api.Submit.{
  Http, Request, SubmitRequest, Orchestrator, default_orchestrator, handle_submit,
}
use architecture_playground.Api.Submit.Laws.{Admits, Answered, handle_submit_refused}
use architecture_playground.Api.Submit.Sync.{Served, handle_submit_sync}
use architecture_playground.Api.Status.{handle_task_status}
use architecture_playground.Api.Status.Laws.{
  Asks, handle_task_status_refused, handle_task_status_found, handle_task_status_missing,
}
use architecture_playground.Api.Middleware.{Caller, logging_middleware}
use architecture_playground.Api.Middleware.Laws.{Tells, logging_middleware_lem}
use architecture_playground.Tests.Setup.{
  Server, env, ctx, old, busy, busy-IsWellFormed, registry, registry-AllTame,
}

-- Two texts that compare as different are different.
pub differ : (a b : String) → (a == b) ≡ false → a ≢ b
differ a b h = ground (arith, eq_iff a b)

abbrev pub submitted : SubmitRequest
submitted = record { type = "sleep"; payload = 1 ∷ [] }

abbrev pub http : Http
http = record { decode_submit = λ limit b. ok submitted; encodes = λ b. true }

abbrev orchestrator : Orchestrator Server
orchestrator = default_orchestrator env memory_store (synchronous registry)

abbrev pub posted : Request
posted = record { method = "POST"; path = "/submit"; body = 7 ∷ [] }

pub posted-Admits : Admits http posted submitted
posted-Admits = record {
  post = refl;
  decoded = refl;
  checked = record {
    typed = differ "sleep" "" refl;
    type_short = omega arith;
    payload_short = omega arith;
  };
}

handle_submit_refused_example :
    Returns
      (handle_submit env http orchestrator ctx (record posted { method = "GET" }) new_response busy)
      (Answered busy 400)
handle_submit_refused_example =
    handle_submit_refused env http orchestrator ctx (record posted { method = "GET" }) new_response
      busy refl (λ s a. differ "GET" "POST" refl a.post)

handle_submit_sync_example :
    Returns
      (handle_submit env http orchestrator ctx posted new_response busy)
      (Served "id-1" "sleep" (1 ∷ []) new_response busy)
unfolding view lookup
handle_submit_sync_example =
    handle_submit_sync env http registry ctx submitted new_response busy refl (λ b. refl) posted
      posted-Admits busy-IsWellFormed refl registry-AllTame

abbrev pub asked : String → Request
asked path = record { method = "GET"; path = path; body = [] }

parts : path_parts "/tasks/id-0/" ≡ "tasks" ∷ "id-0" ∷ []
unfolding path_parts
parts = refl

asked-Asks : Asks (asked "/tasks/id-0") "id-0"
unfolding path_parts
asked-Asks = record { get = refl; named = refl; given = differ "id-0" "" refl }

unknown-Asks : Asks (asked "/tasks/id-9") "id-9"
unfolding path_parts
unknown-Asks = record { get = refl; named = refl; given = differ "id-9" "" refl }

handle_task_status_refused_example :
    Returns (handle_task_status env http orchestrator posted new_response busy) (Answered busy 400)
handle_task_status_refused_example =
    handle_task_status_refused env http orchestrator posted new_response busy refl
      (λ id a. differ "POST" "GET" refl a.get)

handle_task_status_found_example :
    Returns
      (handle_task_status env http orchestrator (asked "/tasks/id-0") new_response busy)
      (λ r w'.
        (r.sent ≡ some 200)
        × (r.written ≡ task_status_response "id-0" "submitted" ∷ [])
        × SameStore busy w')
unfolding view lookup
handle_task_status_found_example =
    handle_task_status_found env http (synchronous registry) (asked "/tasks/id-0") "id-0"
      new_response busy asked-Asks busy-IsWellFormed refl old refl refl

handle_task_status_missing_example :
    Returns
      (handle_task_status env http orchestrator (asked "/tasks/id-9") new_response busy)
      (Answered busy 404)
unfolding view lookup
handle_task_status_missing_example =
    handle_task_status_missing env http (synchronous registry) (asked "/tasks/id-9") "id-9"
      new_response busy unknown-Asks busy-IsWellFormed refl refl

abbrev pub browser : Caller
browser = record { remote_addr = "10.0.0.1:4711"; user_agent = "curl" }

logging_middleware_lem_example :
    Returns
      (logging_middleware env (λ req r. pure (write_header 404 r)) browser posted new_response busy)
      (λ r w'.
        (r ≡ write_header 404 new_response)
        × Quiet (record busy { reads = 1 }) w'
        × ((l : Line) × (w'.output ≡ l ∷ []) × Tells posted (write_header 404 new_response) l))
logging_middleware_lem_example =
    logging_middleware_lem env (λ req r. pure (write_header 404 r)) browser posted new_response busy
      (write_header 404 new_response) (record busy { reads = 1 }) refl (omega arith) (λ e. refl)

path_parts-tasks_example : path_parts "/tasks/id-0" ≡ "tasks" ∷ "id-0" ∷ []
path_parts-tasks_example =
    path_parts-tasks "id-0" (refl, (refl, (refl, (refl, tt)))) (differ "id-0" "" refl)
