-- ===== src/Api/Status.antt =====
-- api/task_status.go: the status handler, over any orchestrator.
pub mod Laws
pub mod Cases
use architecture_playground.Base.{
  String, Bool, true, false, not, ◌==◌, List, [], ◌∷◌, Option, none, some, if◌then◌else◌,
}
use architecture_playground.Errors.{TaskError, nil, field, text, new_validation_error}
use architecture_playground.World.{M, Env, pure, ◌>>=◌, ◌>>◌, on_result}
use architecture_playground.Logger.{log_info}
use architecture_playground.Api.Path.{path_parts}
use architecture_playground.Api.Writer.{Response, task_status_response, respond_with_error}
use architecture_playground.Api.Submit.{
  Request, Orchestrator, Http, respond_with, send, not_allowed,
}

-- `pathParts[1]`, where there are two parts and the first is `tasks`.
abbrev pub task_id_of : List String → Option String
task_id_of (a ∷ b ∷ rest) = if a == "tasks" then some b else none
task_id_of _ = none

-- The refusals of the handler.
abbrev pub invalid_url : TaskError
invalid_url = new_validation_error "invalid URL format" nil

abbrev pub id_required : TaskError
id_required = new_validation_error "task ID is required" nil

module _ {R : Type 0} (env : Env) (http : Http) where
  -- What follows the checks.
  unfoldable pub answer_status : Orchestrator R → Request → String → Response → M R Response
  unfolding log_info respond_with send
  answer_status orch req task_id r = do
    log_info env "task status request" (
        field "http_method" (text req.method)
          (field "http_path" (text req.path) (field "task_id" (text task_id) nil)))
    status ← orch.task_status task_id
    on_result status (λ e. respond_with env http e r)
        (λ s. send env http (task_status_response task_id s) r)

  unfoldable pub handle_task_status : Orchestrator R → Request → Response → M R Response
  unfolding respond_with_error answer_status
  handle_task_status orch req r =
      if not (req.method == "GET")
      then respond_with_error env http.encodes not_allowed r
      else elim (task_id_of (path_parts req.path)) [
        | none ↦ respond_with_error env http.encodes invalid_url r
        | some task_id ↦
            if task_id == ""
            then respond_with_error env http.encodes id_required r
            else (answer_status orch req task_id r)
      ]
