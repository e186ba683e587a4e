-- ===== src/Task/Lifecycle.antt =====
-- Histories of `SetStatus` calls.
use mathlib.Core.List.{Memᴰ}
use architecture_playground.Base.{
  ℕ, suc, ◌+◌, ◌≤◌, ◌≡◌, ◌≢◌, refl, ◌⊎◌, inl, inr, Bool, true, false, List, [], ◌∷◌, Option, none,
  some, arith, Option-cases,
}
use architecture_playground.Errors.{Err}
use architecture_playground.Task.{
  TaskStatus, submitted, queued, running, done, failed, other, is_final, can_transition_to, Task,
  set_status,
}

abbrev count_ok : Option Err → ℕ → ℕ
count_ok none n = suc n
count_ok (some _) n = n

-- `SetStatus` called for each status in turn: the task in the end, and how many calls succeeded.
unfoldable pub set_all : Task → List TaskStatus → Task × ℕ
set_all t [] = (t, 0)
set_all t (s ∷ ss) =
    let r = set_status t s in let end = set_all r.0 ss in (end.0, count_ok r.1 end.1)

-- `SetStatus` fails exactly where the transition is not allowed; it then leaves the task as it was,
-- and otherwise it writes the status and nothing else.
pub set_status_exact :
    (t : Task) (s : TaskStatus)
    → ((can_transition_to t.status s ≡ none) × (set_status t s ≡ (record t { status = s }, none)))
      ⊎ ((can_transition_to t.status s ≢ none)
          × ((set_status t s).0 ≡ t)
          × ((set_status t s).1 ≢ none))
unfolding set_status
set_status_exact t s = elim (Option-cases (can_transition_to t.status s)) [
  | inl e ↦ inl (e, ground arith)
  | inr (x, e) ↦ inr (ground arith, ground arith, ground arith)
]

-- How many changes may still follow.
abbrev pub rank : TaskStatus → ℕ
rank submitted = 3
rank queued = 2
rank running = 1
rank _ = 0

rank-le : (s : TaskStatus) → rank s ≤ 3
rank-le submitted = omega arith
rank-le _ = omega arith

pub rank_final : (s : TaskStatus) → is_final s ≡ true → rank s ≡ 0
rank_final submitted e = absurd (cc e)
rank_final queued e = absurd (cc e)
rank_final running e = absurd (cc e)
rank_final done e = refl
rank_final failed e = refl
rank_final (other s) e = refl

count_ok-eq : (e : Option Err) (n : ℕ) → count_ok e n ≡ n + count_ok e 0
count_ok-eq none n = omega arith
count_ok-eq (some x) n = omega arith

rank-set_status :
    (t : Task) (s : TaskStatus)
    → count_ok (set_status t s).1 (rank (set_status t s).0.status) ≤ rank t.status
unfolding set_status can_transition_to
rank-set_status t submitted = ground arith
rank-set_status t _ = ground arith

set_all-rank :
    (t : Task) (ss : List TaskStatus)
    → (set_all t ss).1 + rank (set_all t ss).0.status ≤ rank t.status
unfolding set_all
set_all-rank t [] = omega arith
set_all-rank t (s ∷ ss) = omega (
  arith,
  rank-set_status t s,
  set_all-rank (set_status t s).0 ss,
  count_ok-eq (set_status t s).1 (set_all (set_status t s).0 ss).1,
  count_ok-eq (set_status t s).1 (rank (set_status t s).0.status),
)

-- At most three status changes succeed in the life of a task.
pub set_all-le : (t : Task) (ss : List TaskStatus) → (set_all t ss).1 ≤ 3
set_all-le t ss = omega (arith, set_all-rank t ss, rank-le t.status)

set_status_final :
    (t : Task) (s : TaskStatus)
    → is_final t.status ≡ true
    → ((set_status t s).0 ≡ t) × ((set_status t s).1 ≢ none)
unfolding set_status can_transition_to
set_status_final t s h = ground arith

-- A task that is done or failed never changes again: every later call fails, whatever it asks for.
pub set_all_final :
    (t : Task) (ss : List TaskStatus) → is_final t.status ≡ true → set_all t ss ≡ (t, 0)
unfolding set_all
set_all_final t [] h = refl
set_all_final t (s ∷ ss) h = ground (arith, set_status_final t s h, set_all_final t ss h)

-- The task has been running, or has finished its run.
abbrev has_run : TaskStatus → Bool
has_run running = true
has_run done = true
has_run _ = false

set_status-has_run :
    (t : Task) (s : TaskStatus)
    → has_run t.status ≡ false
    → (running ≡ s) ⊎ (has_run (set_status t s).0.status ≡ false)
unfolding set_status can_transition_to
set_status-has_run t s h = ground arith

has_run-mem :
    (t : Task) (ss : List TaskStatus)
    → has_run t.status ≡ false
    → has_run (set_all t ss).0.status ≡ true
    → Memᴰ running ss
unfolding set_all
has_run-mem t [] h r = cc
has_run-mem t (s ∷ ss) h r = elim (set_status-has_run t s h) [
  | inl e ↦ Memᴰ.head e
  | inr still ↦ Memᴰ.tail (has_run-mem (set_status t s).0 ss still r)
]

-- A task that was submitted is done only if some call set it to running.
pub done_needs_running :
    (t : Task) (ss : List TaskStatus)
    → t.status ≡ submitted
    → (set_all t ss).0.status ≡ done
    → Memᴰ running ss
done_needs_running t ss h e = has_run-mem t ss (ground arith) (ground arith)
