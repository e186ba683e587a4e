-- ===== src/Tests/Redis.antt =====
-- A Redis server with one list, and JSON that carries queued print tasks by their ID.
use architecture_playground.Base.{
  length, ℕ, suc, String, ◌≡◌, refl, sym, ap, Bool, true, false, ◌==◌, eq_iff, Bool-cases, inl, inr,
  List, [], ◌∷◌, ◌++◌, Option, none, some, arith, if◌then◌else◌,
}
use architecture_playground.Errors.{plain}
use architecture_playground.Task.{
  Task, TaskStatus, submitted, queued, running, done, failed, other, new_task, same_status,
}
use architecture_playground.World.{Result, ok, err}
use architecture_playground.Queue.{Client, Codec, Message, RedisTaskQueue}
use architecture_playground.Queue.Fifo.Redis.{AfterPop, IsRedis, IsResponsive, IsLossless}
use architecture_playground.Tests.Serving.{strokes}
use architecture_playground.Tests.Setup.{ctx}

-- The values of the list, the one pushed last first.
abbrev pub Values : Type 0
Values = List (List ℕ)

-- The list without its last element, and that element.
abbrev pub split_last : List ℕ → Values → Values × List ℕ
split_last b [] = ([], b)
split_last b (c ∷ cs) = let r = split_last c cs in (b ∷ r.0, r.1)

split_last-whole :
    (b : List ℕ) (bs : Values) → b ∷ bs ≡ (split_last b bs).0 ++ (split_last b bs).1 ∷ []
split_last-whole b [] = refl
split_last-whole b (c ∷ cs) = ap (λ l. b ∷ l) (split_last-whole c cs)

abbrev pop_last : Values → Values × Result Values
pop_last [] = ([], err (plain "redis: nil"))
pop_last (b ∷ bs) = let r = split_last b bs in (r.0, ok ([] ∷ r.1 ∷ []))

abbrev pub client : Client Values
client = record {
  ping = λ s. (s, none);
  lpush = λ c name bytes s. (bytes ∷ s, none);
  brpop = λ c name s. pop_last s;
  llen = λ c name s. (s, ok (length s));
  del = λ c name s. ([], none);
  shut = λ s. (s, none);
}

abbrev pub contents : Values → String → Values
contents s name = s

abbrev length_of : String → ℕ
length_of String.[] = 0
length_of (String.◌∷◌ c s) = suc (length_of s)

-- A task that the codec knows.
abbrev known : Task → Bool
known t =
    if same_status t.status queued
    then if t.type == "print" then t.id == strokes (length_of t.id) else false
    else false

abbrev pub printed : ℕ → Task
printed n = record (new_task (strokes n) 0 "print" []) { status = queued }

abbrev marshal_task : Option Task → Result (List ℕ)
marshal_task none = err (plain "no task")
marshal_task (some t) = if known t then ok (length_of t.id ∷ []) else err (plain "unknown task")

abbrev pub message_of : ℕ → Message
message_of n = record { task = some (printed n); error = none; start_time = 0; end_time = none }

abbrev read_back : List ℕ → Result Message
read_back (n ∷ []) = ok (message_of n)
read_back _ = err (plain "not a task")

abbrev pub codec : Codec
codec = record { marshal = λ m. marshal_task m.task; unmarshal = read_back }

abbrev pub redis : RedisTaskQueue Values
redis = record { client = client; queue_name = "tasks" }

pub client-IsRedis : IsRedis client contents
client-IsRedis = record {
  pushes = λ c name bytes s. refl;
  pops = λ c name s. go s;
  counts = λ c name s. (refl, refl);
}
  where
    go : (s : Values) → AfterPop s (pop_last s).1 (pop_last s).0
    go [] = refl
    go (b ∷ bs) = ([], (split_last b bs).1, refl, split_last-whole b bs)

pub client-IsResponsive : IsResponsive client contents ctx
client-IsResponsive name [] b bs e = absurd (cc e)
client-IsResponsive name (c ∷ cs) b bs e = ([] ∷ (split_last c cs).1 ∷ [], refl)

queued_only : (s : TaskStatus) → same_status s queued ≡ true → s ≡ queued
queued_only submitted e = absurd (cc e)
queued_only queued e = refl
queued_only running e = absurd (cc e)
queued_only done e = absurd (cc e)
queued_only failed e = absurd (cc e)
queued_only (other s) e = absurd (cc e)

known_lem :
    (t : Task)
    → known t ≡ true
    → (t.status ≡ queued) × (t.type ≡ "print") × (t.id ≡ strokes (length_of t.id))
known_lem t h =
    ground (
      arith,
      h,
      queued_only t.status,
      eq_iff t.type "print",
      eq_iff t.id (strokes (length_of t.id)),
    )

pub codec-IsLossless : IsLossless codec
codec-IsLossless m t bytes clean has e = elim (Bool-cases (known t)) [
  | inl agree ↦
      let is : bytes ≡ length_of t.id ∷ [] = ground (arith, has, e, agree) in
      let (status, type, id) = known_lem t agree in
      record {
        message = message_of (length_of t.id);
        copy = printed (length_of t.id);
        decodes = rw is refl;
        holds_copy = refl;
        resembles = record { same_id = sym id; same_type = sym type; same_status = sym status };
      }
  | inr unlike ↦ absurd (ground (arith, has, e, unlike))
]
