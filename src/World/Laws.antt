-- ===== src/World/Laws.antt =====
-- What a run ends in: it does not panic, and its result and final state satisfy a predicate.
use mathlib.Core.Path.{subst}
use mathlib.Core.Option.{some-injective}
use architecture_playground.Base.{
  arith, eqb_iff, ℕ, ◌+◌, ◌≡◌, ◌≢◌, ◌∙◌, ap, refl, sym, Option, none, some,
}
use architecture_playground.Task.{Task}
use architecture_playground.Errors.{Err}
use architecture_playground.World.{
  World, M, Result, ok, err, ◌>>=◌, on_result, on_error, on_some, write_at,
}

-- The predicate of what a run computes to, which tactics read.
abbrev pub Computes : {R A : Type 0} → Option (A × World R) → (A → World R → Type 0) → Type 0
Computes none P = ⊥
Computes (some (a, w)) P = P a w

pub record Returns {R A : Type 0} (r : Option (A × World R)) (P : A → World R → Type 0)
    : Type 0 where
  pub value : A
  pub world : World R
  pub run : r ≡ some (value, world)
  pub holds : P value world

module _ {R A : Type 0} where
  pub returns : (r : Option (A × World R)) (P : A → World R → Type 0) → Computes r P → Returns r P
  returns none P h = absurd h
  returns (some (a, w)) P h = record { value = a; world = w; run = refl; holds = h }

  pub Returns-map :
      {r : Option (A × World R)} {P Q : A → World R → Type 0}
      → Returns r P
      → ((a : A) (w' : World R) → P a w' → Q a w')
      → Returns r Q
  Returns-map h k = record {
    value = h.value;
    world = h.world;
    run = h.run;
    holds = k h.value h.world h.holds;
  }

-- Of the tasks and the store, only the objects at p and q may differ.
pub record Frame {R : Type 0} (p q : ℕ) (w w' : World R) : Type 0 where
  pub same_tasks : w'.tasks ≡ w.tasks
  pub same_next : w'.next ≡ w.next
  pub same_ids : w'.ids ≡ w.ids
  pub same_heap : (a : ℕ) → a ≢ p → a ≢ q → w'.heap a ≡ w.heap a

pub Frame-refl : {R : Type 0} (p q : ℕ) (w : World R) → Frame p q w w
Frame-refl p q w = record {
  same_tasks = refl;
  same_next = refl;
  same_ids = refl;
  same_heap = λ a _ _. refl;
}

pub Frame-trans :
    {R : Type 0} (p q : ℕ) (w w' w'' : World R)
    → Frame p q w w'
    → Frame p q w' w''
    → Frame p q w w''
Frame-trans p q w w' w'' f g = record {
  same_tasks = g.same_tasks ∙ f.same_tasks;
  same_next = g.same_next ∙ f.same_next;
  same_ids = g.same_ids ∙ f.same_ids;
  same_heap = λ a h k. g.same_heap a h k ∙ f.same_heap a h k;
}

-- Only the clock and the log may differ.
pub record Quiet {R : Type 0} (w w' : World R) : Type 0 where
  pub same_heap : w'.heap ≡ w.heap
  pub same_tasks : w'.tasks ≡ w.tasks
  pub same_next : w'.next ≡ w.next
  pub same_ids : w'.ids ≡ w.ids
  pub same_server : w'.server ≡ w.server

pub Frame-Quiet : {R : Type 0} (p q : ℕ) (w w' : World R) → Quiet w w' → Frame p q w w'
Frame-Quiet p q w w' f = record {
  same_tasks = f.same_tasks;
  same_next = f.same_next;
  same_ids = f.same_ids;
  same_heap = λ a _ _. ap (λ h. h a) f.same_heap;
}

-- One more reading of the clock.
pub ticked :
    {R : Type 0} {w w' : World R} → Quiet w w' → Quiet w (record w' { reads = w'.reads + 1 })
ticked f = record {
  same_heap = f.same_heap;
  same_tasks = f.same_tasks;
  same_next = f.same_next;
  same_ids = f.same_ids;
  same_server = f.same_server;
}

pub Quiet-refl : {R : Type 0} (w : World R) → Quiet w w
Quiet-refl w = record {
  same_heap = refl;
  same_tasks = refl;
  same_next = refl;
  same_ids = refl;
  same_server = refl;
}

-- The object at p was written.
pub Frame-write :
    {R : Type 0} (p : ℕ) (t : Task) (w w' : World R)
    → Quiet w w'
    → Frame p p w (record w' { heap = write_at w'.heap p t; reads = w'.reads + 1 })
Frame-write p t w w' f = record {
  same_tasks = f.same_tasks;
  same_next = f.same_next;
  same_ids = f.same_ids;
  same_heap = λ a h _. ground (arith, eqb_iff p a, ap (λ (m : ℕ → Option Task). m a) f.same_heap);
}

pub Frame-widen : {R : Type 0} (p q : ℕ) (w w' : World R) → Frame p p w w' → Frame p q w w'
Frame-widen p q w w' f = record {
  same_tasks = f.same_tasks;
  same_next = f.same_next;
  same_ids = f.same_ids;
  same_heap = λ a h _. f.same_heap a h h;
}

-- Of the tasks, the store and the server, only the objects at p and q may differ.
pub record Local {R : Type 0} (p q : ℕ) (w w' : World R) : Type 0 where
  pub frame : Frame p q w w'
  pub same_server : w'.server ≡ w.server

pub Local-refl : {R : Type 0} (p q : ℕ) (w : World R) → Local p q w w
Local-refl p q w = record { frame = Frame-refl p q w; same_server = refl }

pub Local-trans :
    {R : Type 0} (p q : ℕ) (w w' w'' : World R)
    → Local p q w w'
    → Local p q w' w''
    → Local p q w w''
Local-trans p q w w' w'' f g = record {
  frame = Frame-trans p q w w' w'' f.frame g.frame;
  same_server = g.same_server ∙ f.same_server;
}

pub Local-Quiet : {R : Type 0} (p q : ℕ) (w w' : World R) → Quiet w w' → Local p q w w'
Local-Quiet p q w w' f = record { frame = Frame-Quiet p q w w' f; same_server = f.same_server }

pub Local-write :
    {R : Type 0} (p : ℕ) (t : Task) (w w' : World R)
    → Quiet w w'
    → Local p p w (record w' { heap = write_at w'.heap p t; reads = w'.reads + 1 })
Local-write p t w w' f = record { frame = Frame-write p t w w' f; same_server = f.same_server }

pub Local-widen : {R : Type 0} (p q : ℕ) (w w' : World R) → Local p p w w' → Local p q w w'
Local-widen p q w w' f = record {
  frame = Frame-widen p q w w' f.frame;
  same_server = f.same_server;
}

-- A run that is known has what all its ends have.
pub Returns-run :
    {R A : Type 0} {r : Option (A × World R)} {P : A → World R → Type 0}
    → Returns r P
    → (a : A) (w : World R) → r ≡ some (a, w)
    → P a w
Returns-run {R} {A} {r} {P} h a w e =
    let same : (h.value, h.world) ≡ (a, w) = some-injective _ _ (sym h.run ∙ e) in
    subst (λ (z : A × World R). P z.0 z.1) same h.holds

pub Returns-ne-none :
    {R A : Type 0} {r : Option (A × World R)} {P : A → World R → Type 0} → Returns r P → r ≢ none
Returns-ne-none h e = cc (h.run, e)

-- A run, and what comes after each of its ends.
pub Returns-bind :
    {R A B : Type 0} (m : M R A) (f : A → M R B) (w : World R) {P : A → World R → Type 0}
    {Q : B → World R → Type 0}
    → Returns (m w) P
    → ((a : A) (w' : World R) → P a w' → Returns (f a w') Q)
    → Returns ((m >>= f) w) Q
Returns-bind m f w {Q = Q} h k =
    subst (λ (o : Option _). Returns (elim o [ none ↦ none | some (a, w') ↦ f a w' ]) Q) (sym h.run)
      (k h.value h.world h.holds)

-- Both outcomes of a call.
pub Returns-on_result :
    {R A B : Type 0} (r : Result A) (handle : Err → M R B) (rest : A → M R B) (w : World R)
    {Q : B → World R → Type 0}
    → ((e : Err) → r ≡ err e → Returns (handle e w) Q)
    → ((a : A) → r ≡ ok a → Returns (rest a w) Q)
    → Returns (on_result r handle rest w) Q
Returns-on_result (ok a) handle rest w h k = k a refl
Returns-on_result (err e) handle rest w h k = h e refl

pub Returns-on_error :
    {R B : Type 0} (o : Option Err) (handle : Err → M R B) (rest : M R B) (w : World R)
    {Q : B → World R → Type 0}
    → ((e : Err) → o ≡ some e → Returns (handle e w) Q)
    → (o ≡ none → Returns (rest w) Q)
    → Returns (on_error o handle rest w) Q
Returns-on_error none handle rest w h k = k refl
Returns-on_error (some e) handle rest w h k = h e refl

pub Returns-on_some :
    {R A B : Type 0} (o : Option A) (missing : M R B) (rest : A → M R B) (w : World R)
    {Q : B → World R → Type 0}
    → (o ≡ none → Returns (missing w) Q)
    → ((a : A) → o ≡ some a → Returns (rest a w) Q)
    → Returns (on_some o missing rest w) Q
Returns-on_some none missing rest w h k = h refl
Returns-on_some (some a) missing rest w h k = k a refl
