-- ===== src/Queue/Fifo/Redis.antt =====
-- What the Redis queue expects of its server and of encoding/json, and the tasks that a list at the
-- server stands for.
pub mod Calls
use mathlib.Core.Path.{subst}
use mathlib.Core.List.{reverse, reverse-append, reverse-reverse}
use architecture_playground.Base.{
  suc, length, length-append, arith, ℕ, ◌+◌, String, ◌<>◌, ◌≡◌, ◌∙◌, refl, sym, ap, List, [], ◌∷◌,
  ◌++◌, Option, none, some,
}
use architecture_playground.Errors.{Err, plain, error_text}
use architecture_playground.Task.{Task}
use architecture_playground.World.{World, Result, ok, err, write_at}
use architecture_playground.World.Laws.{Returns, returns}
use architecture_playground.Context.{ExecutionContext, Ctx}
use architecture_playground.Queue.{
  Client, Codec, Message, RedisTaskQueue, redis_enqueue, redis_dequeue, redis_queue,
}
use architecture_playground.Queue.Laws.{Kept, Kept-refl, Delivers, OnSend}
use architecture_playground.Queue.Fifo.{Resembles, Appends, Keeps, Taken, OnTake, IsFifo}

-- The first of the list is what was pushed last; a call that reports an error did nothing.
abbrev pub AfterPush : List (List ℕ) → List ℕ → Option Err → List (List ℕ) → Type 0
AfterPush old bytes none new = new ≡ bytes ∷ old
AfterPush old bytes (some e) new = new ≡ old

abbrev pub AfterPop : List (List ℕ) → Result (List (List ℕ)) → List (List ℕ) → Type 0
AfterPop old (ok reply) new =
    (name last : List ℕ) × (reply ≡ name ∷ last ∷ []) × (old ≡ new ++ last ∷ [])
AfterPop old (err e) new = new ≡ old

abbrev pub AfterCount : List (List ℕ) → Result ℕ → List (List ℕ) → Type 0
AfterCount old (ok n) new = (n ≡ length old) × (new ≡ old)
AfterCount old (err e) new = new ≡ old

-- A strict Redis and client: LPUSH adds at the head of a list, BRPOP takes from its tail, and
-- LLEN counts; each command is tried once, and no reply is lost.
pub record IsRedis {R : Type 0} (client : Client R) (contents : R → String → List (List ℕ))
    : Type 0 where
  pub pushes :
      (ctx : Ctx) (name : String) (bytes : List ℕ) (s : R)
      → AfterPush
          (contents s name)
          bytes
          (client.lpush ctx name bytes s).1
          (contents (client.lpush ctx name bytes s).0 name)
  pub pops :
      (ctx : Ctx) (name : String) (s : R)
      → AfterPop
          (contents s name)
          (client.brpop ctx name s).1
          (contents (client.brpop ctx name s).0 name)
  pub counts :
      (ctx : Ctx) (name : String) (s : R)
      → AfterCount
          (contents s name)
          (client.llen ctx name s).1
          (contents (client.llen ctx name s).0 name)

-- Where the list has an element, BRPOP replies under this context.
abbrev pub IsResponsive : {R : Type 0} → Client R → (R → String → List (List ℕ)) → Ctx → Type 0
IsResponsive {R} client contents ctx =
    (name : String) (s : R) (b : List ℕ) (bs : List (List ℕ))
    → contents s name ≡ b ∷ bs
    → (reply : List (List ℕ)) × ((client.brpop ctx name s).1 ≡ ok reply)

-- The bytes decode to a message with a task like this one.
pub record Encodes (codec : Codec) (bytes : List ℕ) (t : Task) : Type 0 where
  pub message : Message
  pub copy : Task
  pub decodes : codec.unmarshal bytes ≡ ok message
  pub holds_copy : message.task ≡ some copy
  pub resembles : Resembles t copy

-- encoding/json: what was marshalled without an error in it is read back with a like task.
abbrev pub IsLossless : Codec → Type 0
IsLossless codec =
    (m : Message) (t : Task) (bytes : List ℕ)
    → m.error ≡ none
    → m.task ≡ some t
    → codec.marshal m ≡ ok bytes
    → Encodes codec bytes t

abbrev pub AllEncode : Codec → List (List ℕ) → List Task → Type 0
AllEncode codec [] [] = Unit
AllEncode codec (b ∷ bs) (t ∷ ts) = Encodes codec b t × AllEncode codec bs ts
AllEncode codec _ _ = ⊥

pub AllEncode-append :
    (codec : Codec) (bs : List (List ℕ)) (ts : List Task) (b : List ℕ) (t : Task)
    → AllEncode codec bs ts
    → Encodes codec b t
    → AllEncode codec (bs ++ b ∷ []) (ts ++ t ∷ [])
AllEncode-append codec [] [] b t h e = (e, tt)
AllEncode-append codec [] (u ∷ ts) b t h e = absurd h
AllEncode-append codec (c ∷ bs) [] b t h e = absurd h
AllEncode-append codec (c ∷ bs) (u ∷ ts) b t h e = (h.0, AllEncode-append codec bs ts b t h.1 e)

-- The list at the server, from its tail, holds the tasks in order.
pub record WaitsAt {R : Type 0} (codec : Codec) (contents : R → String → List (List ℕ))
    (name : String) (s : R) (ts : List Task) : Type 0 where
  pub oldest_first : List (List ℕ)
  pub stored : contents s name ≡ reverse oldest_first
  pub encoded : AllEncode codec oldest_first ts

-- What is taken from the tail of the list at the server encodes the oldest task.
pub popped :
    (codec : Codec) (bs new : List (List ℕ)) (last : List ℕ) (ts : List Task)
    → reverse bs ≡ new ++ last ∷ []
    → AllEncode codec bs ts
    → (t : Task) × (rest : List Task) × (ts ≡ t ∷ rest)
      × Encodes codec last t
      × AllEncode codec (reverse new) rest
popped codec bs new last ts e h =
    let whole : bs ≡ last ∷ reverse new =
      sym (reverse-reverse bs) ∙ ap reverse e ∙ reverse-append new (last ∷ []) in
    split ts (subst (λ b. AllEncode codec b ts) whole h)
  where
    split :
        (us : List Task)
        → AllEncode codec (last ∷ reverse new) us
        → (t : Task) × (rest : List Task) × (us ≡ t ∷ rest)
          × Encodes codec last t
          × AllEncode codec (reverse new) rest
    split [] k = absurd k
    split (t ∷ rest) k = (t, rest, refl, k.0, k.1)

length-reverse : {A : Type 0} (xs : List A) → length (reverse xs) ≡ length xs
length-reverse [] = refl
length-reverse (x ∷ xs) =
    let turned = ap length (reverse-append (x ∷ []) xs) in
    omega (arith, turned, length-append (reverse xs) (x ∷ []), length-reverse xs)

length-AllEncode :
    (codec : Codec) (bs : List (List ℕ)) (ts : List Task)
    → AllEncode codec bs ts
    → length bs ≡ length ts
length-AllEncode codec [] [] h = refl
length-AllEncode codec [] (t ∷ ts) h = absurd h
length-AllEncode codec (b ∷ bs) [] h = absurd h
length-AllEncode codec (b ∷ bs) (t ∷ ts) h = ap suc (length-AllEncode codec bs ts h.1)

-- There are as many elements at the server as tasks.
pub length-WaitsAt :
    {R : Type 0} (codec : Codec) (contents : R → String → List (List ℕ)) (name : String) (s : R)
    (ts : List Task)
    → WaitsAt codec contents name s ts
    → length (contents s name) ≡ length ts
length-WaitsAt codec contents name s ts w =
    ap length w.stored
    ∙ length-reverse w.oldest_first
    ∙ length-AllEncode codec w.oldest_first ts w.encoded
