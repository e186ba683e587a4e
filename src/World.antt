-- ===== src/World.antt =====
-- The state that the components share, and the monad of the code that reads and writes it. A task
-- object lives on the heap, at the address that its Go pointer stands for; the map of the
-- in-memory store holds such addresses. `R` is the state of the Redis server.
pub mod Laws
pub mod Spares
use architecture_playground.Base.{
  ℕ, ◌+◌, String, Bool, List, ◌∷◌, Option, none, some, eqb, if◌then◌else◌,
}
use architecture_playground.Errors.{Err, Fields}
use architecture_playground.Task.{Task}

-- `logEntry` of logger/logger.go, the time in nanoseconds.
pub record LogEntry : Type 0 where
  pub timestamp : ℕ
  pub level : String
  pub message : String
  pub fields : Fields

-- A line of the log: the entry as JSON, or the fallback `[level] message`.
pub data Line : Type 0 where
  json : LogEntry → Line
  simple : (level message : String) → Line

pub record World (R : Type 0) : Type 0 where
  pub heap : ℕ → Option Task
  pub next : ℕ
  pub tasks : List (String × ℕ)  -- `MemoryTaskStore.tasks`
  pub output : List Line  -- newest first
  pub reads : ℕ  -- calls of `time.Now` so far
  pub ids : ℕ  -- calls of `uuid.New` so far
  pub server : R

-- What the process gets from outside: the n-th reading of the clock, the n-th UUID, whether
-- `json.Marshal` of a log entry succeeds, and the level that the logger was made with.
pub record Env : Type 0 where
  pub time_at : ℕ → ℕ
  pub uuid_at : ℕ → String
  pub marshals : LogEntry → Bool
  pub level : ℕ

-- `none` is a panic, such as a call through a nil pointer.
abbrev pub M : Type 0 → Type 0 → Type 0
M R A = World R → Option (A × World R)

-- A pair of a value and an error, of which one is nil.
pub data Result (A : Type 0) : Type 0 where
  ok : A → Result A
  err : Err → Result A

module _ {R : Type 0} where
  abbrev pub pure : {A : Type 0} → A → M R A
  pure a w = some (a, w)

  abbrev pub panic : {A : Type 0} → M R A
  panic w = none

  infixl 5 ◌>>=◌ ◌>>◌
  abbrev pub ◌>>=◌ : {A B : Type 0} → M R A → (A → M R B) → M R B
  ◌>>=◌ m f w = elim (m w) [ none ↦ none | some (a, w') ↦ f a w' ]

  abbrev pub ◌>>◌ : {B : Type 0} → M R (Unit {0}) → M R B → M R B
  m >> k = m >>= λ _. k

  -- `if err != nil { … }`, with what comes after it.
  abbrev pub on_error : {A : Type 0} → Option Err → (Err → M R A) → M R A → M R A
  on_error none handle rest = rest
  on_error (some e) handle rest = handle e

  abbrev pub on_result : {A B : Type 0} → Result A → (Err → M R B) → (A → M R B) → M R B
  on_result (ok a) handle rest = rest a
  on_result (err e) handle rest = handle e

  abbrev pub on_some : {A B : Type 0} → Option A → M R B → (A → M R B) → M R B
  on_some none missing rest = missing
  on_some (some a) missing rest = rest a

-- A write at an address.
abbrev pub write_at : (ℕ → Option Task) → ℕ → Task → ℕ → Option Task
write_at heap p t q = if eqb p q then some t else heap q

module _ {R : Type 0} where
  -- `*p`; a nil pointer, `none`, panics.
  unfoldable pub deref : Option ℕ → M R Task
  deref none w = none
  deref (some p) w = elim (w.heap p) [ none ↦ none | some t ↦ some (t, w) ]

  -- `*p = t`
  unfoldable pub assign : Option ℕ → Task → M R (Unit {0})
  assign none t w = none
  assign (some p) t w = elim (w.heap p) [
    | none ↦ none
    | some _ ↦ some (tt, record w { heap = write_at w.heap p t })
  ]

  -- `&t`
  unfoldable pub alloc : Task → M R ℕ
  alloc t w = some (w.next, record w { heap = write_at w.heap w.next t; next = w.next + 1 })

  -- `time.Now()`
  unfoldable pub now : Env → M R ℕ
  now env w = some (env.time_at w.reads, record w { reads = w.reads + 1 })

  -- `uuid.New().String()`
  unfoldable pub new_uuid : Env → M R String
  new_uuid env w = some (env.uuid_at w.ids, record w { ids = w.ids + 1 })
