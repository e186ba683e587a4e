-- ===== src/Api/Submit/Laws.antt =====
-- What the submission handler answers, over any orchestrator.
use architecture_playground.Base.{
  arith, ℕ, len, Bool, ◌≡◌, ◌≢◌, ◌≤◌, ◌∙◌, refl, length, Option, none, some, ltb, eq_iff, ◌==◌,
  Bool-cases, inl, inr,
}
use architecture_playground.Errors.{TaskError, error_text}
use architecture_playground.World.{World, Env, Result, ok, err}
use architecture_playground.World.Laws.{Returns, Quiet}
use architecture_playground.Logger.Laws.{log_error-Quiet}
use architecture_playground.Context.{Ctx}
use architecture_playground.Api.Writer.{
  Body, Response, respond_with_error, error_fields, error_body, encode, write_header,
  set_content_type,
}
use architecture_playground.Api.Submit.{
  Request, SubmitRequest, Orchestrator, Http, max_body_size, max_payload_size, max_type_len,
  handle_submit, check_request, accept, contains_text, not_allowed, body_too_large, invalid_json,
  type_required, type_too_long, payload_too_large,
}

-- Only the clock and the log differ, and this status was sent.
abbrev pub Answered : {R : Type 0} → World R → ℕ → Response → World R → Type 0
Answered w code r w' = Quiet w w' × (r.sent ≡ some code) × (r.status_code ≡ code)

pub Quiet-trans : {R : Type 0} {u v w : World R} → Quiet u v → Quiet v w → Quiet u w
Quiet-trans f g = record {
  same_heap = g.same_heap ∙ f.same_heap;
  same_tasks = g.same_tasks ∙ f.same_tasks;
  same_next = g.same_next ∙ f.same_next;
  same_ids = g.same_ids ∙ f.same_ids;
  same_server = g.same_server ∙ f.same_server;
}

module _ {R : Type 0} (env : Env) (encodes : Body → Bool) (e : TaskError) (r : Response)
    (unsent : r.sent ≡ none) (w : World R) where
  abbrev errored : Response
  errored =
      (encode encodes (error_body e)
        (write_header e.code (set_content_type "application/json" r))).0

  -- An error answers its code, whether or not its body can be encoded.
  pub respond_with_error_lem :
      Returns (respond_with_error env encodes e r w) (λ r' w'. Answered w e.code r' w')
  unfolding respond_with_error
  respond_with_error_lem =
      let a = log_error-Quiet env "HTTP error response" (error_fields e) w in
      let b = log_error-Quiet env "HTTP error response" (error_fields e) a.world in
      elim (Bool-cases (encodes (error_body e))) [
        | inl h ↦ record {
          value = errored;
          world = a.world;
          run = ground arith;
          holds = (a.holds, ground arith, ground arith);
        }
        | inr h ↦ record {
          value = errored;
          world = b.world;
          run = ground arith;
          holds = (Quiet-trans a.holds b.holds, ground arith, ground arith);
        }
      ]

-- A body that is let through to the orchestrator.
pub record IsChecked (s : SubmitRequest) : Type 0 where
  pub typed : s.type ≢ ""
  pub type_short : len s.type ≤ max_type_len
  pub payload_short : length s.payload ≤ max_payload_size

-- A request that is let through, with its body.
pub record Admits (http : Http) (req : Request) (s : SubmitRequest) : Type 0 where
  pub post : req.method ≡ "POST"
  pub decoded : http.decode_submit max_body_size req.body ≡ ok s
  pub checked : IsChecked s

abbrev pub Returns-by :
    {R A : Type 0} {r r' : Option (A × World R)} {P : A → World R → Type 0}
    → r ≡ r'
    → Returns r' P
    → Returns r P
Returns-by e h = record { value = h.value; world = h.world; run = e ∙ h.run; holds = h.holds }

module _ {R : Type 0} (env : Env) (http : Http) (orch : Orchestrator R) (ctx : Ctx) where
  check_request_refused :
      (s : SubmitRequest) (r : Response) (w : World R)
      → r.sent ≡ none
      → (IsChecked s → ⊥)
      → Returns (check_request env http orch ctx s r w) (Answered w 400)
  unfolding check_request
  check_request_refused s r w unsent h = elim (Bool-cases (s.type == "")) [
    | inl a ↦
        Returns-by (ground arith) (respond_with_error_lem env http.encodes type_required r unsent w)
    | inr a ↦ elim (Bool-cases (ltb max_type_len (len s.type))) [
      | inl b ↦
          Returns-by (ground arith)
            (respond_with_error_lem env http.encodes (type_too_long (len s.type)) r unsent w)
      | inr b ↦ elim (Bool-cases (ltb max_payload_size (length s.payload))) [
        | inl c ↦ Returns-by (ground arith) (
            respond_with_error_lem env http.encodes (payload_too_large (length s.payload)) r unsent
              w)
        | inr c ↦ absurd (
            h (record {
              typed = ground (arith, eq_iff s.type "");
              type_short = ground arith;
              payload_short = ground arith;
            }))
      ]
    ]
  ]

  check_request_accepted :
      (s : SubmitRequest) (r : Response) (w : World R)
      → IsChecked s
      → check_request env http orch ctx s r w ≡ accept env http orch ctx s r w
  unfolding check_request
  check_request_accepted s r w h = ground (arith, eq_iff s.type "")

  decode_refused :
      (o : Result SubmitRequest) (req : Request) (r : Response) (w : World R)
      → req.method ≡ "POST"
      → http.decode_submit max_body_size req.body ≡ o
      → r.sent ≡ none
      → ((s : SubmitRequest) → Admits http req s → ⊥)
      → Returns (handle_submit env http orch ctx req r w) (Answered w 400)
  unfolding handle_submit
  decode_refused (ok s) req r w post decoded unsent h =
      Returns-by (ground (arith, eq_iff req.method "POST")) (
        check_request_refused s r w unsent
          (λ c. h s (record { post = post; decoded = decoded; checked = c })))
  decode_refused (err e) req r w post decoded unsent h =
      elim (Bool-cases (contains_text (error_text e) "http: request body too large")) [
        | inl big ↦
            Returns-by (ground (arith, eq_iff req.method "POST"))
              (respond_with_error_lem env http.encodes body_too_large r unsent w)
        | inr big ↦
            Returns-by (ground (arith, eq_iff req.method "POST"))
              (respond_with_error_lem env http.encodes (invalid_json e) r unsent w)
      ]

  -- A request that is not a POST, that does not decode, or whose type is empty or longer than 50
  -- bytes or whose payload is longer than 102400 bytes answers 400, without the orchestrator: the
  -- tasks and the server stay.
  pub handle_submit_refused :
      (req : Request) (r : Response) (w : World R)
      → r.sent ≡ none
      → ((s : SubmitRequest) → Admits http req s → ⊥)
      → Returns (handle_submit env http orch ctx req r w) (Answered w 400)
  unfolding handle_submit
  handle_submit_refused req r w unsent h = elim (Bool-cases (req.method == "POST")) [
    | inl a ↦
        decode_refused (http.decode_submit max_body_size req.body) req r w
          ((eq_iff req.method "POST").0 a) refl unsent h
    | inr a ↦
        Returns-by (ground (arith, eq_iff req.method "POST"))
          (respond_with_error_lem env http.encodes not_allowed r unsent w)
  ]

  -- Every other request is handed to the orchestrator.
  pub handle_submit_accepted :
      (req : Request) (s : SubmitRequest) (r : Response) (w : World R)
      → Admits http req s
      → handle_submit env http orch ctx req r w ≡ accept env http orch ctx s r w
  unfolding handle_submit
  handle_submit_accepted req s r w a =
      ground
        (arith, eq_iff req.method "POST", a.post, a.decoded, check_request_accepted s r w a.checked)
