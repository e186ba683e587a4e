-- ===== src/Store/Laws.antt =====
-- The memory store refines the abstract one.
use architecture_playground.Base.{
  ℕ, String, ◌≡◌, ◌≢◌, refl, none, some, lookup, insert, lookup-insert, ◌+◌, ◌==◌, if◌then◌else◌,
  Option-cases, inl, inr, arith, eqb_iff, eq_iff,
}
use architecture_playground.Errors.{Err}
use architecture_playground.Task.{Task, TaskStatus}
use architecture_playground.World.{World, ok, err, write_at}
use architecture_playground.World.Laws.{Returns, returns}
use architecture_playground.Store.{save, get, update}
use architecture_playground.Store.Quiet.{SameStore}
use architecture_playground.Store.View.{view, IsWellFormed, saved, updated}

module _ {R : Type 0} where
  -- An ID that the abstract store lacks has no pointer.
  pub lookup-view-none :
      (w : World R) (id : String) → IsWellFormed w → view w id ≡ none → lookup id w.tasks ≡ none
  unfolding view
  lookup-view-none w id v h = elim (Option-cases (lookup id w.tasks)) [
    | inl e ↦ e
    | inr (p, e) ↦ absurd (ground (arith, v.stored id p e))
  ]

  -- A task in the abstract store is at the end of a pointer.
  pub lookup-view-some :
      (w : World R) (id : String) (t : Task)
      → view w id ≡ some t
      → (p : ℕ) × (lookup id w.tasks ≡ some p) × (w.heap p ≡ some t)
  unfolding view
  lookup-view-some w id t h = elim (Option-cases (lookup id w.tasks)) [
    | inl e ↦ absurd (ground arith)
    | inr (p, e) ↦ (p, e, ground arith)
  ]

  pub save_run :
      (w : World R) (p : ℕ) (t : Task)
      → w.heap p ≡ some t
      → lookup t.id w.tasks ≡ none
      → save p w ≡ some (none, record w { tasks = insert t.id p w.tasks })
  unfolding save
  save_run w p t h fresh = ground arith

  pub update_run :
      (w : World R) (id : String) (s : TaskStatus) (r : String) (p : ℕ) (t : Task)
      → lookup id w.tasks ≡ some p
      → w.heap p ≡ some t
      → update id s r w
        ≡ some (none, record w { heap = write_at w.heap p (record t { status = s; result = r }) })
  unfolding update
  update_run w id s r p t e h = ground arith

  pub get_run :
      (w : World R) (id : String) (p : ℕ) (t : Task)
      → lookup id w.tasks ≡ some p
      → w.heap p ≡ some t
      → get id w ≡ some (ok w.next, record w { heap = write_at w.heap w.next t; next = w.next + 1 })
  unfolding get
  get_run w id p t e h = ground arith

  -- `Save` under an ID that the store lacks reports no error and adds the task to the abstract
  -- store, and the pointers stay well formed.
  pub save_new :
      (w : World R) (p : ℕ) (t : Task)
      → IsWellFormed w
      → w.heap p ≡ some t
      → view w t.id ≡ none
      → Returns
          (save p w)
          (λ e w'. (e ≡ none) × ((j : String) → view w' j ≡ saved (view w) t j) × IsWellFormed w')
  unfolding view
  save_new w p t v h fresh = rw (save_run w p t h (lookup-view-none w t.id v fresh)) (
      returns _ _ (
        refl,
        λ j. ground (arith, lookup-insert t.id j p w.tasks),
        record {
          stored =
              λ j q e. ground (arith, lookup-insert t.id j p w.tasks, v.stored j q, eq_iff t.id j);
          unused = v.unused;
        },
      ))

  -- `Save` under an ID that is taken reports an error and changes nothing.
  pub save_existing :
      (w : World R) (p : ℕ) (t t' : Task)
      → w.heap p ≡ some t
      → view w t.id ≡ some t'
      → Returns (save p w) (λ e w'. (e ≢ none) × (w' ≡ w))
  unfolding save
  save_existing w p t t' h old =
      let (q, e, _) = lookup-view-some w t.id t' old in returns _ _ (ground arith)

  -- A new object is not seen through the store.
  pub view-alloc :
      (w : World R) (t : Task)
      → IsWellFormed w
      → (j : String)
      → view (record w { heap = write_at w.heap w.next t; next = w.next + 1 }) j ≡ view w j
  unfolding view
  view-alloc w t v j = elim (Option-cases (lookup j w.tasks)) [
    | inl e ↦ rw e
    | inr (p, e) ↦ rw e (ground (arith, v.stored j p e, v.unused p))
  ]

  pub SameStore-alloc :
      (w : World R) (t : Task)
      → IsWellFormed w
      → SameStore w (record w { heap = write_at w.heap w.next t; next = w.next + 1 })
  SameStore-alloc w t v = record {
    same_view = view-alloc w t v;
    valid = record {
      stored = λ j q e. ground (arith, v.stored j q e, v.unused q);
      unused = λ q h. ground (arith, v.unused q);
    };
    same_ids = refl;
    same_server = refl;
    spares = record {
      same_object = λ p low out. ground (arith, eqb_iff w.next p, low);
      unstored = λ p low out. out;
      grown = omega arith;
    };
    same_tasks = refl;
    old_heap = λ p low. ground (arith, eqb_iff w.next p, low);
  }

  -- `Get` hands out a copy: a new address, which the store does not hold, with the stored task;
  -- nothing else changes.
  pub get_found :
      (w : World R) (id : String) (t : Task)
      → IsWellFormed w
      → view w id ≡ some t
      → Returns (get id w) (λ r w'.
        (q : ℕ) × (r ≡ ok q)
        × (w.heap q ≡ none)
        × (w'.heap q ≡ some t)
        × ((j : String) → lookup j w'.tasks ≢ some q)
        × SameStore w w')
  unfolding view
  get_found w id t v h =
      let (p, e, at) = lookup-view-some w id t h in
      rw (get_run w id p t e at) (
        returns _ _ (
          w.next,
          refl,
          v.unused w.next (omega arith),
          ground arith,
          λ j same. ground (arith, v.stored j w.next same, v.unused w.next),
          SameStore-alloc w t v,
        ))

  -- `Get` of an unknown ID reports an error and changes nothing.
  pub get_missing :
      (w : World R) (id : String)
      → IsWellFormed w
      → view w id ≡ none
      → Returns (get id w) (λ r w'. (e : Err) × (r ≡ err e) × (w' ≡ w))
  unfolding get
  get_missing w id v h = rw (lookup-view-none w id v h, get) (returns _ _ (_, refl, refl))

  -- A write through a stored pointer that keeps the ID is seen under that ID alone.
  pub view-write_at :
      (w : World R) (id : String) (p : ℕ) (t t' : Task)
      → IsWellFormed w
      → lookup id w.tasks ≡ some p
      → w.heap p ≡ some t
      → (j : String)
      → view (record w { heap = write_at w.heap p t' }) j ≡ (if id == j then some t' else view w j)
  unfolding view
  view-write_at w id p t t' v e at j = elim (Option-cases (lookup j w.tasks)) [
    | inl none_j ↦ ground (arith, eq_iff id j)
    | inr (q, e') ↦ ground (arith, v.stored j q e', v.stored id p e, eq_iff id j, eqb_iff p q)
  ]

  pub write_at-IsWellFormed :
      (w : World R) (id : String) (p : ℕ) (t t' : Task)
      → IsWellFormed w
      → lookup id w.tasks ≡ some p
      → w.heap p ≡ some t
      → t'.id ≡ t.id
      → IsWellFormed (record w { heap = write_at w.heap p t' })
  write_at-IsWellFormed w id p t t' v e at same = record {
    stored = λ j q e'. ground (arith, v.stored j q e', eqb_iff p q);
    unused = λ q h. ground (arith, v.unused q h, v.unused p);
  }

  -- `Update` of a stored task reports no error, sets its status and result in the abstract store
  -- and leaves all else, and the pointers stay well formed.
  pub update_found :
      (w : World R) (id : String) (s : TaskStatus) (r : String) (t : Task)
      → IsWellFormed w
      → view w id ≡ some t
      → Returns (update id s r w) (λ e w'.
        (e ≡ none) × ((j : String) → view w' j ≡ updated (view w) id s r j) × IsWellFormed w')
  update_found w id s r t v h =
      let (p, e, at) = lookup-view-some w id t h in
      rw (update_run w id s r p t e at) (
        returns _ _ (
          refl,
          λ j. ground (
            arith,
            view-write_at w id p t (record t { status = s; result = r }) v e at j,
            eq_iff id j,
          ),
          write_at-IsWellFormed w id p t (record t { status = s; result = r }) v e at refl,
        ))

  -- `Update` of an unknown ID reports an error and changes nothing.
  pub update_missing :
      (w : World R) (id : String) (s : TaskStatus) (r : String)
      → IsWellFormed w
      → view w id ≡ none
      → Returns (update id s r w) (λ e w'. (e ≢ none) × (w' ≡ w))
  unfolding update
  update_missing w id s r v h =
      rw (lookup-view-none w id v h, update) (returns _ _ (ground arith, refl))
