-- ===== src/Store/Contract/Steps.antt =====
-- Each call of the memory store, and each write through a copy, does as the abstract map does.
use mathlib.Core.Path.{subst}
use architecture_playground.Base.{
  arith, ℕ, ◌+◌, ◌≡◌, ◌∙◌, sym, ap, ◌==◌, eq_iff, String, refl, List, ◌∷◌, none, some, insert,
  Option-cases, Bool-cases, inl, inr, if◌then◌else◌, fun_ext,
}
use architecture_playground.Task.{Task, TaskStatus}
use architecture_playground.World.{World, write_at, assign}
use architecture_playground.World.Laws.{
  Returns, Returns-run, Returns-bind, Returns-on_some, Returns-on_error, Returns-on_result, returns,
}
use architecture_playground.Store.{memory_store, save, get, update}
use architecture_playground.Store.View.{view, IsWellFormed, updated}
use architecture_playground.Store.Advance.{Held}
use architecture_playground.Store.Laws.{
  save_new, update_found, save_existing, get_missing, update_missing, save_run, get_run, update_run,
  lookup-view-none, lookup-view-some, view-alloc, SameStore-alloc,
}
use architecture_playground.Store.Contract.{
  Operation, saves, gets, updates, writes, accepted, found, element, perform, answer, after,
}
use architecture_playground.Store.Contract.Copies.{
  AllCopies, AllCopies-element, AllCopies-write_at, AllCopies-alloc, AllCopies-stored, view-spare,
  spare-IsWellFormed,
}

updated-none :
    (m : Held) (id : String) (s : TaskStatus) (r : String)
    → m id ≡ none
    → (j : String) → m j ≡ updated m id s r j
updated-none m id s r missing j = elim (Bool-cases (id == j)) [
  | inl same ↦
      let none_j : m j ≡ none = subst (λ i. m i ≡ none) ((eq_iff id j).0 same) missing in
      rw (same, none_j) refl
  | inr other ↦ rw other refl
]

module _ {R : Type 0} where
  -- The store holds the map m, and the copies ps are the client's own.
  pub record Matches (m : Held) (ps : List ℕ) (w : World R) : Type 0 where
    pub valid : IsWellFormed w
    pub seen : (id : String) → view w id ≡ m id
    pub copies : AllCopies w ps

  abbrev pub Performs : Held → Operation → List ℕ → World R → Type 0
  Performs m op ps w =
      Returns (perform memory_store ps op w)
        (λ r w'. (r.0 ≡ answer m op) × Matches (after m op) r.1 w')

  module _ (m : Held) (ps : List ℕ) (w : World R) (h : Matches m ps w) where
    alloc_Matches :
        (t : Task) → Matches m ps (record w { heap = write_at w.heap w.next t; next = w.next + 1 })
    alloc_Matches t = record {
      valid = (SameStore-alloc w t h.valid).valid;
      seen = λ id. view-alloc w t h.valid id ∙ h.seen id;
      copies = AllCopies-alloc w h.valid t ps h.copies;
    }

    saves_fresh : (t : Task) → m t.id ≡ none → Performs m (saves t) ps w
    unfolding perform
    saves_fresh t fresh =
        let w1 = record w { heap = write_at w.heap w.next t; next = w.next + 1 } in
        let w2 = record w1 { tasks = insert t.id w.next w.tasks } in
        let b = alloc_Matches t in
        let run =
          save_run w1 w.next t (ground arith)
            (lookup-view-none w t.id h.valid (h.seen t.id ∙ fresh)) in
        let (_, seen, valid) =
          Returns-run (save_new w1 w.next t b.valid (ground arith) (b.seen t.id ∙ fresh)) none w2
            run in
        record {
          value = (accepted, ps);
          world = w2;
          run = ground (arith, run);
          holds = (
            rw fresh refl,
            rw fresh (record {
              valid = valid;
              seen = λ id. seen id ∙ ap (λ o. if t.id == id then some t else o) (b.seen id);
              copies = AllCopies-stored w h.valid t t.id ps h.copies;
            }),
          );
        }

    saves_taken : (t t' : Task) → m t.id ≡ some t' → Performs m (saves t) ps w
    unfolding perform
    saves_taken t t' taken =
        let w1 = record w { heap = write_at w.heap w.next t; next = w.next + 1 } in
        let b = alloc_Matches t in
        Returns-bind (save w.next) _ w1
          (save_existing w1 w.next t t' (ground arith) (b.seen t.id ∙ taken))
          (λ lost w2 (k, same).
            Returns-on_error lost _ _ w2
              (λ e _. returns _ _ (rw taken refl, rw taken (subst (Matches m ps) (sym same) b)))
              (λ e. absurd (k e)))

    gets_there : (id : String) (t : Task) → m id ≡ some t → Performs m (gets id) ps w
    unfolding perform
    gets_there id t there =
        let (p, e, at) = lookup-view-some w id t (h.seen id ∙ there) in
        let run = get_run w id p t e at in
        let b = alloc_Matches t in
        record {
          value = (found t, w.next ∷ ps);
          world = record w { heap = write_at w.heap w.next t; next = w.next + 1 };
          run = ground (arith, run);
          holds = (
            rw there refl,
            record {
              valid = b.valid;
              seen = b.seen;
              copies = (
                (t, ground arith),
                λ j same. ground (arith, h.valid.stored j w.next same, h.valid.unused w.next),
                b.copies,
              );
            },
          );
        }

    gets_missing : (id : String) → m id ≡ none → Performs m (gets id) ps w
    unfolding perform
    gets_missing id missing =
        Returns-bind (get id) _ w (get_missing w id h.valid (h.seen id ∙ missing))
          (λ r w' (e, refuses, same).
            Returns-on_result r _ _ w'
              (λ e _. returns _ _ (rw missing refl, subst (Matches m ps) (sym same) h))
              (λ p k. absurd (ground (arith, k, refuses))))

    updates_there :
        (id : String) (s : TaskStatus) (r : String) (t : Task)
        → m id ≡ some t
        → Performs m (updates id s r) ps w
    unfolding perform
    updates_there id s r t there =
        let (p, e, at) = lookup-view-some w id t (h.seen id ∙ there) in
        let t' = record t { status = s; result = r } in
        let run = update_run w id s r p t e at in
        let w' = record w { heap = write_at w.heap p t' } in
        let (_, seen, valid) =
          Returns-run (update_found w id s r t h.valid (h.seen id ∙ there)) none w' run in
        record {
          value = (accepted, ps);
          world = w';
          run = ground (arith, run);
          holds = (
            rw there refl,
            record {
              valid = valid;
              seen = λ j. seen j ∙ ap (λ v. updated v id s r j) (fun_ext h.seen);
              copies = AllCopies-write_at w p t' ps h.copies;
            },
          );
        }

    updates_missing :
        (id : String) (s : TaskStatus) (r : String) → m id ≡ none → Performs m (updates id s r) ps w
    unfolding perform
    updates_missing id s r missing =
        Returns-bind (update id s r) _ w (update_missing w id s r h.valid (h.seen id ∙ missing))
          (λ lost w' (k, same).
            Returns-on_error lost _ _ w'
              (λ e _. returns _ _ (
                rw missing refl,
                record {
                  valid = subst IsWellFormed (sym same) h.valid;
                  seen = λ j. ap (λ z. view z j) same ∙ h.seen j ∙ updated-none m id s r missing j;
                  copies = subst (λ z. AllCopies z ps) (sym same) h.copies;
                },
              ))
              (λ e. absurd (k e)))

    pub performs_lem : (op : Operation) → Performs m op ps w
    unfolding perform assign
    performs_lem (saves t) = elim (Option-cases (m t.id)) [
      | inl fresh ↦ saves_fresh t fresh
      | inr (t', taken) ↦ saves_taken t t' taken
    ]
    performs_lem (gets id) = elim (Option-cases (m id)) [
      | inl missing ↦ gets_missing id missing
      | inr (t, there) ↦ gets_there id t there
    ]
    performs_lem (updates id s r) = elim (Option-cases (m id)) [
      | inl missing ↦ updates_missing id s r missing
      | inr (t, there) ↦ updates_there id s r t there
    ]
    performs_lem (writes i t) =
        Returns-on_some (element i ps) _ _ w (λ _. returns _ _ (refl, h))
          (λ p e.
            let ((u, at), out) = AllCopies-element w i p ps e h.copies in
            record {
              value = (accepted, ps);
              world = record w { heap = write_at w.heap p t };
              run = ground (arith, at);
              holds = (
                refl,
                record {
                  valid = spare-IsWellFormed w h.valid p t u at out;
                  seen = λ id. view-spare w h.valid p t u at out id ∙ h.seen id;
                  copies = AllCopies-write_at w p t ps h.copies;
                },
              );
            })
