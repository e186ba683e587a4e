-- ===== src/Store/Advance.antt =====
-- How the tasks of the store move between two states of the program: none is lost, none that is over
-- changes, and no status goes back.
use architecture_playground.Base.{
  arith, ◌≤◌, Option, if◌then◌else◌, String, ◌≡◌, ◌∙◌, refl, sym, true, some, ◌==◌, eq_iff,
  Bool-cases, inl, inr,
}
use architecture_playground.Task.{Task, is_final}
use architecture_playground.Task.Lifecycle.{rank}

-- What a store holds, by ID.
abbrev pub Held : Type 0
Held = String → Option Task

-- A view in which one ID holds another task.
abbrev pub With : Held → String → Task → Held → Type 0
With v id u v' = (j : String) → v' j ≡ (if id == j then some u else v j)

-- A task later: what the client sent is the same, its status went forward or stayed, and nothing
-- changes once it is over.
pub record Evolves (t t' : Task) : Type 0 where
  pub same_id : t'.id ≡ t.id
  pub same_type : t'.type ≡ t.type
  pub same_payload : t'.payload ≡ t.payload
  pub fixed : is_final t.status ≡ true → t' ≡ t
  pub forward : rank t'.status ≤ rank t.status

-- Every task that was stored is stored, as it became.
abbrev pub Advances : Held → Held → Type 0
Advances v v' =
    (id : String) (t : Task) → v id ≡ some t → (t' : Task) × (v' id ≡ some t') × Evolves t t'

pub Evolves-refl : (t : Task) → Evolves t t
Evolves-refl t = record {
  same_id = refl;
  same_type = refl;
  same_payload = refl;
  fixed = λ _. refl;
  forward = omega arith;
}

Evolves-trans : (t t' t'' : Task) → Evolves t t' → Evolves t' t'' → Evolves t t''
Evolves-trans t t' t'' f g = record {
  same_id = g.same_id ∙ f.same_id;
  same_type = g.same_type ∙ f.same_type;
  same_payload = g.same_payload ∙ f.same_payload;
  fixed = λ over. let e = f.fixed over in g.fixed (rw e over) ∙ e;
  forward = omega (arith, f.forward, g.forward);
}

pub Advances-refl : (v : Held) → Advances v v
Advances-refl v id t e = (t, e, Evolves-refl t)

pub Advances-trans : (v v' v'' : Held) → Advances v v' → Advances v' v'' → Advances v v''
Advances-trans v v' v'' f g id t e =
    let (t', e', h) = f id t e in
    let (t'', e'', k) = g id t' e' in (t'', e'', Evolves-trans t t' t'' h k)

pub Advances-same : (v v' : Held) → ((id : String) → v' id ≡ v id) → Advances v v'
Advances-same v v' same id t e = (t, same id ∙ e, Evolves-refl t)

-- Where one ID holds another task, what it held before must have become that task.
pub Advances-With :
    (v v' : Held) (id : String) (u : Task)
    → With v id u v'
    → ((t : Task) → v id ≡ some t → Evolves t u)
    → Advances v v'
Advances-With v v' id u with_u became j t e = elim (Bool-cases (id == j)) [
  | inl same ↦ (u, rw same at (with_u j), became t (rw ((eq_iff id j).0 same) e))
  | inr other ↦ (t, sym (sym e ∙ sym (rw other at (with_u j))), Evolves-refl t)
]
