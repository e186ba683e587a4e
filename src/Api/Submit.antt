-- ===== src/Api/Submit.antt =====
-- api/submit.go: the submission handler, over any orchestrator.
pub mod Laws
pub mod Sync
pub mod Cases
use package.text.Mathlib.Text.{find?}
use architecture_playground.Base.{
  ℕ, String, len, Bool, true, false, not, ◌==◌, List, length, Option, none, some, ltb,
  if◌then◌else◌,
}
use architecture_playground.Errors.{
  Err, TaskError, error_text, nil, field, text, size, new_validation_error, new_internal_error,
  is_task_error,
}
use architecture_playground.Task.{Task, status_text}
use architecture_playground.World.{
  M, Env, Result, pure, ◌>>=◌, ◌>>◌, on_error, on_result, on_some, deref,
}
use architecture_playground.Context.{Ctx}
use architecture_playground.Store.{TaskStore}
use architecture_playground.Runners.{Runner}
use architecture_playground.Orchestrator.{submit_task, get_task_status}
use architecture_playground.Api.Writer.{
  SubmitResponse, Body, submit_response, Response, set_content_type, encode, respond_with_error,
}

abbrev pub max_body_size : ℕ
max_body_size = 1048576

abbrev pub max_payload_size : ℕ
max_payload_size = 102400

abbrev pub max_type_len : ℕ
max_type_len = 50

-- `submitRequest`
pub record SubmitRequest : Type 0 where
  pub type : String
  pub payload : List ℕ

pub record Request : Type 0 where
  pub method : String
  pub path : String
  pub body : List ℕ

-- The interface `Orchestrator`, as the handlers use it.
pub record Orchestrator (R : Type 0) : Type 0 where
  pub submit : Ctx → String → List ℕ → M R (ℕ × Option Err)
  pub task_status : String → M R (Result String)

-- `NewDefaultOrchestrator`
abbrev pub default_orchestrator : {R : Type 0} → Env → TaskStore R → Runner R → Orchestrator R
default_orchestrator env store runner = record {
  submit = submit_task env store runner;
  task_status = get_task_status store;
}

-- encoding/json at the boundary: decoding a body of which at most so many bytes may be read, and
-- whether a response can be encoded.
pub record Http : Type 0 where
  pub decode_submit : (limit : ℕ) → List ℕ → Result SubmitRequest
  pub encodes : Body → Bool

-- `strings.Contains`
abbrev pub contains_text : String → String → Bool
contains_text s t = elim (find? s t) [ none ↦ false | some i ↦ true ]

abbrev response_of : Task → SubmitResponse
response_of t = record {
  task_id = t.id;
  status = status_text t.status;
  result = t.result;
  queued_at = t.queued_at;
  started_at = t.started_at;
  completed_at = t.completed_at;
}

-- The refusals of the handler.
abbrev pub not_allowed : TaskError
not_allowed = new_validation_error "method not allowed" nil

abbrev pub body_too_large : TaskError
body_too_large =
    new_validation_error "request body too large" (field "max_size_bytes" (size max_body_size) nil)

abbrev pub invalid_json : Err → TaskError
invalid_json e =
    new_validation_error "invalid JSON payload" (field "error" (text (error_text e)) nil)

abbrev pub type_required : TaskError
type_required = new_validation_error "task type is required" nil

abbrev pub type_too_long : ℕ → TaskError
type_too_long n =
    new_validation_error "task type too long"
      (field "max_length" (size max_type_len) (field "actual_length" (size n) nil))

abbrev pub payload_too_large : ℕ → TaskError
payload_too_large n =
    new_validation_error "task payload too large"
      (field "max_size_bytes" (size max_payload_size) (field "actual_size_bytes" (size n) nil))

module _ {R : Type 0} (env : Env) (http : Http) where
  -- An error of the orchestrator; one without structure becomes an internal error.
  unfoldable pub respond_with : Err → Response → M R Response
  unfolding respond_with_error
  respond_with e r =
      on_some (is_task_error e)
        (respond_with_error env http.encodes (new_internal_error (error_text e)) r)
        (λ te. respond_with_error env http.encodes te r)

  -- The response to a decoded body is sent, or an internal error if it cannot be encoded.
  unfoldable pub send : Body → Response → M R Response
  unfolding respond_with_error
  send b r =
      let r' = encode http.encodes b (set_content_type "application/json" r) in
      if r'.1
      then pure r'.0
      else (respond_with_error env http.encodes (new_internal_error "failed to encode response")
          r'.0)

  -- What follows the checks.
  unfoldable pub accept : Orchestrator R → Ctx → SubmitRequest → Response → M R Response
  unfolding deref respond_with send
  accept orch ctx req r = do
    (p, failed) ← orch.submit ctx req.type req.payload
    on_error failed (λ e. respond_with e r)
        do task ← deref (some p); send (submit_response (response_of task)) r

  unfoldable pub check_request : Orchestrator R → Ctx → SubmitRequest → Response → M R Response
  unfolding respond_with_error accept
  check_request orch ctx req r =
      if req.type == ""
      then respond_with_error env http.encodes type_required r
      else if ltb max_type_len (len req.type)
      then respond_with_error env http.encodes (type_too_long (len req.type)) r
      else if ltb max_payload_size (length req.payload)
      then respond_with_error env http.encodes (payload_too_large (length req.payload)) r
      else (accept orch ctx req r)

  unfoldable pub handle_submit : Orchestrator R → Ctx → Request → Response → M R Response
  unfolding respond_with_error check_request
  handle_submit orch ctx req r =
      if not (req.method == "POST")
      then respond_with_error env http.encodes not_allowed r
      else on_result (http.decode_submit max_body_size req.body)
          (λ e.
            if contains_text (error_text e) "http: request body too large"
            then respond_with_error env http.encodes body_too_large r
            else respond_with_error env http.encodes (invalid_json e) r)
          (λ s. check_request orch ctx s r)
