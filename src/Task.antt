-- ===== src/Task.antt =====
-- tasks/task.go: the lifecycle states, the transition table and the task record.
pub mod Transitions
pub mod Lifecycle
use architecture_playground.Base.{
  ℕ, String, ◌<>◌, ◌==◌, ◌||◌, Bool, true, false, List, [], ◌∷◌, Option, none, some, if◌then◌else◌,
}
use architecture_playground.Errors.{Err, plain, error_text}

-- `TaskStatus` is a string type; `other` is any text but the five constants.
pub data TaskStatus : Type 0 where
  submitted queued running done failed : TaskStatus
  other : String → TaskStatus

-- `String`
abbrev pub status_text : TaskStatus → String
status_text submitted = "submitted"
status_text queued = "queued"
status_text running = "running"
status_text done = "done"
status_text failed = "failed"
status_text (other s) = s

-- `==` of two statuses.
abbrev pub same_status : TaskStatus → TaskStatus → Bool
same_status submitted submitted = true
same_status queued queued = true
same_status running running = true
same_status done done = true
same_status failed failed = true
same_status (other s) (other t) = s == t
same_status _ _ = false

abbrev pub is_final : TaskStatus → Bool
is_final s = same_status s done || same_status s failed

abbrev pub is_active : TaskStatus → Bool
is_active s = same_status s running

-- The map `validTransitions`: `none` where it has no entry.
abbrev pub valid_transitions : TaskStatus → Option (List TaskStatus)
valid_transitions submitted = some (running ∷ queued ∷ failed ∷ [])
valid_transitions queued = some (running ∷ failed ∷ [])
valid_transitions running = some (done ∷ failed ∷ [])
valid_transitions done = some []
valid_transitions failed = some []
valid_transitions (other s) = none

-- `slices.Contains`
abbrev pub contains_status : List TaskStatus → TaskStatus → Bool
contains_status [] t = false
contains_status (s ∷ ss) t = same_status s t || contains_status ss t

check_allowed : Option (List TaskStatus) → TaskStatus → TaskStatus → Option Err
check_allowed none s target = some (plain ("unknown current status: " <> status_text s))
check_allowed (some allowed) s target =
    if contains_status allowed target
    then none
    else (some
        (plain ("invalid transition from " <> status_text s <> " to " <> status_text target)))

-- `none` is the nil error of a valid transition.
unfoldable pub can_transition_to : TaskStatus → TaskStatus → Option Err
unfolding check_allowed
can_transition_to s target = check_allowed (valid_transitions s) s target

-- `Payload` is raw JSON, as its bytes. The times are nanoseconds; `none` is a nil pointer.
pub record Task : Type 0 where
  pub id : String
  pub type : String
  pub payload : List ℕ
  pub status : TaskStatus
  pub result : String
  pub submitted_at : ℕ
  pub queued_at : Option ℕ
  pub started_at : Option ℕ
  pub completed_at : Option ℕ

-- `NewTask`, given the fresh UUID and the time that it reads.
abbrev pub new_task : String → ℕ → String → List ℕ → Task
new_task uuid now type payload = record {
  id = uuid;
  type = type;
  payload = payload;
  status = submitted;
  result = "";
  submitted_at = now;
  queued_at = none;
  started_at = none;
  completed_at = none;
}

-- `SetStatus`: the task afterwards, and the error. (`%w` keeps the text of the wrapped error.)
unfoldable pub set_status : Task → TaskStatus → Task × Option Err
unfolding can_transition_to
set_status t new_status = elim (can_transition_to t.status new_status) [
  | some e ↦ (t, some (plain ("task " <> t.id <> ": " <> error_text e)))
  | none ↦ (record t { status = new_status }, none)
]
