-- ===== src/Orchestrator/Settled.antt =====
-- The state of the synchronous program between two requests: every stored task is over.
use architecture_playground.Base.{
  arith, ℕ, ◌<◌, String, ◌≡◌, refl, sym, ◌∙◌, true, List, Option, none, some, ◌==◌, eq_iff,
  Bool-cases, Option-cases, inl, inr,
}
use architecture_playground.Errors.{Err}
use architecture_playground.Task.{Task, is_final}
use architecture_playground.World.{World, Env}
use architecture_playground.World.Laws.{Quiet}
use architecture_playground.Store.View.{view, IsWellFormed}
use architecture_playground.Store.Quiet.{SameStore, SameStore-Quiet}
use architecture_playground.Execution.Workflow.Sync.{Outcome}
use architecture_playground.Orchestrator.Laws.{Submitted}

-- `uuid.New` never gives an ID twice.
abbrev pub Unique : Env → Type 0
Unique env = (m n : ℕ) → env.uuid_at m ≡ env.uuid_at n → m ≡ n

-- The store is well formed, every task in it is done or failed, and its ID was issued.
pub record IsSettled {R : Type 0} (env : Env) (w : World R) : Type 0 where
  pub valid : IsWellFormed w
  pub final : (id : String) (t : Task) → view w id ≡ some t → is_final t.status ≡ true
  pub issued :
      (id : String) (t : Task) → view w id ≡ some t → (k : ℕ) × (k < w.ids) × (id ≡ env.uuid_at k)

module _ {R : Type 0} (env : Env) (w : World R) (s : IsSettled env w) where
  -- The next ID is new.
  pub next_id_fresh : Unique env → view w (env.uuid_at w.ids) ≡ none
  next_id_fresh unique = elim (Option-cases (view w (env.uuid_at w.ids))) [
    | inl e ↦ e
    | inr (t, e) ↦
        let (k, low, same) = s.issued (env.uuid_at w.ids) t e in
        absurd (omega (arith, low, unique w.ids k same))
  ]

  pub SameStore-IsSettled : (w' : World R) → SameStore w w' → IsSettled env w'
  SameStore-IsSettled w' f = record {
    valid = f.valid;
    final = λ id t e. s.final id t (sym (f.same_view id) ∙ e);
    issued = λ id t e.
        let (k, low, same) = s.issued id t (sym (f.same_view id) ∙ e) in
        (k, omega (arith, low, f.same_ids), same);
  }

  pub Quiet-IsSettled : (w' : World R) → Quiet w w' → IsSettled env w'
  Quiet-IsSettled w' f = SameStore-IsSettled w' (SameStore-Quiet s.valid f)

pub Outcome-final : (e : Option Err) (t : Task) → Outcome e t → is_final t.status ≡ true
Outcome-final none t h = rw h refl
Outcome-final (some e) t h = rw h.0 refl

-- A submission that ended leaves every task over.
pub Submitted-IsSettled :
    {R : Type 0} (env : Env) (type : String) (payload : List ℕ) (w : World R) (e : Option Err)
    (p : ℕ) (w' : World R)
    → IsSettled env w
    → Submitted (env.uuid_at w.ids) type payload w e p w'
    → IsSettled env w'
Submitted-IsSettled env type payload w e p w' s sub = record {
  valid = sub.valid;
  final = λ id t h. elim (Bool-cases (env.uuid_at w.ids == id)) [
    | inl new ↦
        let same : some sub.task ≡ some t = sym (rw new at (sub.stored id)) ∙ h in
        cc (Outcome-final e sub.task sub.outcome)
    | inr old ↦ s.final id t (sym (rw old at (sub.stored id)) ∙ h)
  ];
  issued = λ id t h. elim (Bool-cases (env.uuid_at w.ids == id)) [
    | inl new ↦ (w.ids, omega (arith, sub.one_more), sym ((eq_iff (env.uuid_at w.ids) id).0 new))
    | inr old ↦
        let (k, low, same) = s.issued id t (sym (rw old at (sub.stored id)) ∙ h) in
        (k, omega (arith, low, sub.one_more), same)
  ];
}

-- A later settled state: every stored task is there as it was.
pub record Lasts {R : Type 0} (env : Env) (w w' : World R) : Type 0 where
  pub settled : IsSettled env w'
  pub lasting : (id : String) (t : Task) → view w id ≡ some t → view w' id ≡ some t

pub Lasts-refl : {R : Type 0} (env : Env) (w : World R) → IsSettled env w → Lasts env w w
Lasts-refl env w s = record { settled = s; lasting = λ id t e. e }

pub Lasts-trans :
    {R : Type 0} (env : Env) (w w' w'' : World R)
    → Lasts env w w'
    → Lasts env w' w''
    → Lasts env w w''
Lasts-trans env w w' w'' f g = record {
  settled = g.settled;
  lasting = λ id t e. g.lasting id t (f.lasting id t e);
}

module _ {R : Type 0} (env : Env) (w : World R) (s : IsSettled env w) where
  pub SameStore-Lasts : (w' : World R) → SameStore w w' → Lasts env w w'
  SameStore-Lasts w' f = record {
    settled = SameStore-IsSettled env w s w' f;
    lasting = λ id t e. f.same_view id ∙ e;
  }

  pub Quiet-Lasts : (w' : World R) → Quiet w w' → Lasts env w w'
  Quiet-Lasts w' f = SameStore-Lasts w' (SameStore-Quiet s.valid f)

  pub Submitted-Lasts :
      (type : String) (payload : List ℕ) (e : Option Err) (p : ℕ) (w' : World R)
      → Unique env
      → Submitted (env.uuid_at w.ids) type payload w e p w'
      → Lasts env w w'
  Submitted-Lasts type payload e p w' unique sub = record {
    settled = Submitted-IsSettled env type payload w e p w' s sub;
    lasting = λ id t h. elim (Bool-cases (env.uuid_at w.ids == id)) [
      | inl new ↦
          absurd (cc (h, next_id_fresh env w s unique, (eq_iff (env.uuid_at w.ids) id).0 new))
      | inr old ↦ rw old at (sub.stored id) ∙ h
    ];
  }
