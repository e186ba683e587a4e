-- ===== src/Api/Writer.antt =====
-- The response of a request, as net/http keeps it, and `respondWithError` of api/submit.go.
use architecture_playground.Base.{
  ℕ, String, Bool, true, List, ◌∷◌, [], Option, none, some, if◌then◌else◌,
}
use architecture_playground.Errors.{TaskError, type_name, Fields, nil, field, text, size, object}
use architecture_playground.World.{M, Env, pure, ◌>>◌}
use architecture_playground.Logger.{log_error}

-- `SubmitResponse`
pub record SubmitResponse : Type 0 where
  pub task_id : String
  pub status : String
  pub result : String
  pub queued_at : Option ℕ
  pub started_at : Option ℕ
  pub completed_at : Option ℕ

-- `HealthResponse`; the times stand for their texts.
pub record HealthResponse : Type 0 where
  pub status : String
  pub timestamp : ℕ
  pub uptime : ℕ
  pub registered_tasks : List String
  pub version : String

-- What is written to a client: one of the JSON structures, or plain text.
pub data Body : Type 0 where
  error_response : (error type : String) (details : Fields) → Body
  submit_response : SubmitResponse → Body
  task_status_response : (task_id status : String) → Body
  health_response : HealthResponse → Body
  plain_text : String → Body

-- A response so far: the status that was sent, if any; the last one that a handler asked for, which
-- is what the logging middleware keeps; the content type; and what was written, last first.
pub record Response : Type 0 where
  pub sent : Option ℕ
  pub status_code : ℕ
  pub content_type : String
  pub written : List Body

-- `newResponseWriterInterceptor` over a fresh response.
abbrev pub new_response : Response
new_response = record { sent = none; status_code = 200; content_type = ""; written = [] }

abbrev pub set_content_type : String → Response → Response
set_content_type s r = record r { content_type = s }

-- `WriteHeader`: only the first status is sent.
abbrev first_status : Option ℕ → ℕ → Option ℕ
first_status none code = some code
first_status (some s) code = some s

abbrev pub write_header : ℕ → Response → Response
write_header code r = record r { sent = first_status r.sent code; status_code = code }

-- `json.NewEncoder(w).Encode(v)`: on success the body is written, and the status 200 is sent if none
-- was; `encodes` says whether it succeeds.
abbrev pub encode : (Body → Bool) → Body → Response → Response × Bool
encode encodes b r =
    if encodes b
    then (record r { sent = first_status r.sent 200; written = b ∷ r.written }, true)
    else (r, Bool.false)

-- `http.Error`
abbrev pub http_error : String → ℕ → Response → Response
http_error message code r =
    let h = write_header code (set_content_type "text/plain; charset=utf-8" r) in
    record h { written = plain_text message ∷ h.written }

abbrev pub error_body : TaskError → Body
error_body e = error_response e.message (type_name e.type) e.details

abbrev pub error_fields : TaskError → Fields
error_fields e = field "error_type" (text (type_name e.type)) (
    field "error_message" (text e.message)
      (field "status_code" (size e.code) (field "error_details" (object e.details) nil)))

module _ {R : Type 0} (env : Env) (encodes : Body → Bool) where
  -- The body that could not be encoded is only logged.
  unfoldable pub respond_with_error : TaskError → Response → M R Response
  unfolding log_error
  respond_with_error e r = do
    let r' = write_header e.code (set_content_type "application/json" r)
    log_error env "HTTP error response" (error_fields e)
    let r'' = encode encodes (error_body e) r'
    if r''.1 then pure tt else (log_error env "HTTP error response" (error_fields e))
    pure r''.0
