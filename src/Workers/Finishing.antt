-- ===== src/Workers/Finishing.antt =====
-- What a worker's copy has to do with the stored task, and the state after the task is over.
use mathlib.Core.Path.{subst}
use architecture_playground.Base.{
  arith, ℕ, ◌<◌, ◌≤◌, String, ◌<>◌, ◌≡◌, ◌≢◌, ◌∙◌, ◌⊎◌, refl, sym, ap, true, List, ◌∷◌, Option,
  none, some, ◌==◌, eq_iff, eqb_iff, lookup, Bool-cases, Option-cases, inl, inr,
}
use architecture_playground.Task.{Task, TaskStatus, queued, done, failed, is_final}
use architecture_playground.Task.Lifecycle.{rank_final}
use architecture_playground.World.{World, Env}
use architecture_playground.World.Spares.{Unstored}
use architecture_playground.World.Laws.{Local}
use architecture_playground.Context.{ExecutionContext}
use architecture_playground.Store.View.{view, IsWellFormed}
use architecture_playground.Store.Laws.{lookup-view-some}
use architecture_playground.Registry.{TaskHandler, HandlerRegistry, get_handler}
use architecture_playground.Queue.Fifo.{Taken}
use architecture_playground.Execution.StateManager.Copied.{Mirrors}
use architecture_playground.Workers.Laws.{Processed}
use architecture_playground.Workers.Tracked.{
  IsTracked, Absent, AllQueued, Among, Distinct, AllQueued-With, issued_With,
}
use architecture_playground.Store.Advance.{With}
use architecture_playground.Store.Advance.{Advances, Advances-With}
use mathlib.Core.Option.{some-injective}

-- The task is over, and what the client sent is the same.
pub record Finished (u u' : Task) : Type 0 where
  pub same_id : u'.id ≡ u.id
  pub same_type : u'.type ≡ u.type
  pub same_payload : u'.payload ≡ u.payload
  pub over : is_final u'.status ≡ true

pub Processed-final :
    {R : Type 0} (type : String) (registry : HandlerRegistry R) (u u' : Task)
    → Processed type registry u u'
    → Finished u u'
Processed-final {R} type registry u u' h = go (get_handler type registry) refl
  where
    ended :
        {result : String} (s : TaskStatus)
        → u' ≡ record u { status = s; result = result }
        → is_final s ≡ true
        → Finished u u'
    ended s e over = record {
      same_id = cc e;
      same_type = cc e;
      same_payload = cc e;
      over = rw e over;
    }

    go : (o : Option (TaskHandler R)) → get_handler type registry ≡ o → Finished u u'
    go none e =
        let same : u' ≡ record u {
          status = failed;
          result = "no handler registered for task type: " <> type;
        } =
          rw (e, Processed) at h in
        ended failed same refl
    go (some g) e =
        let either : (u' ≡ record u { status = done; result = u'.result })
            ⊎ (u' ≡ record u { status = failed; result = u'.result }) =
          rw (e, Processed) at h in
        elim either [ inl d ↦ ended done d refl | inr f ↦ ended failed f refl ]

final-queued : (u : Task) → u.status ≡ queued → is_final u.status ≡ true → ⊥
final-queued u e over = ground (arith, e, over)

-- Two objects differ: a copy that the store does not hold, and what it holds under one ID.
module _ {R : Type 0} (p q : ℕ) (id : String) (u u' : Task) (w w' : World R) (v : IsWellFormed w)
    (stored : lookup id w.tasks ≡ some q) (at : w.heap q ≡ some u) (out : Unstored w p)
    (same_tasks : w'.tasks ≡ w.tasks) (new : w'.heap q ≡ some u') (same_id : u'.id ≡ u.id)
    (others : (a : ℕ) → a ≢ p → a ≢ q → w'.heap a ≡ w.heap a) where
  pub view-With : With (view w) id u' (view w')
  unfolding view
  view-With j = elim (Option-cases (lookup j w.tasks)) [
    | inl e ↦ ground (arith, eq_iff id j)
    | inr (a, e) ↦ ground (
      arith,
      v.stored j a e,
      v.stored id q stored,
      eq_iff id j,
      eqb_iff a q,
      others a (λ same. out j (e ∙ ap some same)),
    )
  ]

  pub view_IsWellFormed : p < w'.next → w.next ≤ w'.next → IsWellFormed w'
  view_IsWellFormed inside grown = record {
    stored = λ j a e.
        let old : lookup j w.tasks ≡ some a = ap (lookup j) (sym same_tasks) ∙ e in
        ground (
          arith,
          v.stored j a old,
          v.stored id q stored,
          eqb_iff a q,
          others a (λ same. out j (old ∙ ap some same)),
        );
    unused = λ a k. ground (arith, v.unused a, v.unused q, others a);
  }

-- The task c, of those that wait or are worked on, is over, and the others are left.
module _ {R : Type 0} (env : Env) (Waits Waits' : R → List Task → Type 0) (us left : List Task)
    (w w' : World R) (s : IsTracked env Waits us w) (p q : ℕ) (c u u' : Task)
    (stored : lookup c.id w.tasks ≡ some q) (at : w.heap q ≡ some u) (out : Unstored w p)
    (same_tasks : w'.tasks ≡ w.tasks) (new : w'.heap q ≡ some u') (fin : Finished u u')
    (others : (a : ℕ) → a ≢ p → a ≢ q → w'.heap a ≡ w.heap a) (inside : p < w'.next)
    (grown : w.next ≤ w'.next) (ids : w'.ids ≡ w.ids) where
  pub over-IsTracked :
      Waits' w'.server left
      → Absent c.id left
      → Distinct left
      → AllQueued (view w) left
      → ((i : String) → Among i us → (c.id ≡ i) ⊎ Among i left)
      → u.status ≡ queued
      → view w c.id ≡ some u
      → IsTracked env Waits' left w' × Advances (view w) (view w')
  over-IsTracked waits absent once all split held_queued found =
      let with_u =
        view-With p q c.id u u' w w' s.valid stored at out same_tasks new fin.same_id others in
      (
        record {
          waits = waits;
          valid =
              view_IsWellFormed p q c.id u u' w w' s.valid stored at out same_tasks new fin.same_id
                others inside grown;
          all_queued = AllQueued-With (view w) (view w') c.id u' left with_u absent all;
          distinct = once;
          covered = λ i t e. elim (Bool-cases (c.id == i)) [
            | inl here ↦
                let same : some u' ≡ some t = sym (rw here at (with_u i)) ∙ e in inl (cc fin.over)
            | inr elsewhere ↦ elim (s.covered i t (sym (rw elsewhere at (with_u i)) ∙ e)) [
              | inl final ↦ inl final
              | inr (q', among) ↦ elim (split i among) [
                | inl is ↦ absurd (ground (arith, eq_iff c.id i, is))
                | inr later ↦ inr (q', later)
              ]
            ]
          ];
          issued =
              issued_With env Waits us w s w' c.id u' with_u
                (let (m, low, is) = s.issued c.id u found in (m, omega (arith, low, ids), is))
                (λ m low. omega (arith, low, ids));
        },
        Advances-With (view w) (view w') c.id u' with_u (λ t e.
            let same : u ≡ t = some-injective u t (sym found ∙ e) in
            record {
              same_id = cc (fin.same_id, same);
              same_type = cc (fin.same_type, same);
              same_payload = cc (fin.same_payload, same);
              fixed = λ over. absurd (final-queued u held_queued (rw (sym same) at over));
              forward = omega (arith, rank_final u'.status fin.over);
            }),
      )

module _ {R : Type 0} (env : Env) (Waits : R → List Task → Type 0) (ts : List Task) (w : World R)
    (s : IsTracked env Waits ts w) where
  -- The task that was taken is in the store as queued, under the ID of the copy.
  pub copy-Mirrors :
      (x : ExecutionContext) (w1 : World R) (k : Taken Waits ts w x w1)
      → (u : Task) × (q : ℕ) × (lookup k.first.id w.tasks ≡ some q)
        × (w.heap q ≡ some u)
        × Mirrors w.next q k.copy u w1
        × (k.copy.status ≡ queued)
        × (u.status ≡ queued)
        × (view w k.first.id ≡ some u)
  copy-Mirrors x w1 k =
      let all : AllQueued (view w) (k.first ∷ k.rest) =
        subst (AllQueued (view w)) k.in_order s.all_queued in
      let (u, found, held_queued) = all.0.1 in
      let (q, stored, at) = lookup-view-some w k.first.id u found in
      (
        u,
        q,
        stored,
        at,
        record {
          at = ground (arith, k.new_heap);
          stored = ground (arith, k.same_tasks, k.resembles.same_id);
          original = ground (arith, k.new_heap, s.valid.unused w.next);
          apart = λ e. ground (arith, s.valid.unused w.next, e);
        },
        k.resembles.same_status ∙ all.0.0,
        held_queued,
        found,
      )

  pub processed-IsTracked :
      (x : ExecutionContext) (w1 w' : World R) (k : Taken Waits ts w x w1) (u u' : Task) (q : ℕ)
      → lookup k.first.id w.tasks ≡ some q
      → w.heap q ≡ some u
      → Local w.next q w1 w'
      → w'.heap q ≡ some u'
      → Finished u u'
      → u.status ≡ queued
      → view w k.first.id ≡ some u
      → IsTracked env Waits k.rest w' × Advances (view w) (view w')
  processed-IsTracked x w1 w' k u u' q stored at f new fin held_queued found =
      let all : AllQueued (view w) (k.first ∷ k.rest) =
        subst (AllQueued (view w)) k.in_order s.all_queued in
      let once : Distinct (k.first ∷ k.rest) = subst Distinct k.in_order s.distinct in
      let out : Unstored w w.next =
        λ j e. ground (arith, s.valid.stored j w.next e, s.valid.unused w.next) in
      let tasks = f.frame.same_tasks ∙ k.same_tasks in
      let others : (a : ℕ) → a ≢ w.next → a ≢ q → w'.heap a ≡ w.heap a =
        λ a m n. ground (arith, f.frame.same_heap a m n, k.new_heap, eqb_iff w.next a) in
      let grown = f.frame.same_next ∙ k.new_next in
      let ids = f.frame.same_ids ∙ k.same_ids in
      over-IsTracked env Waits Waits ts k.rest w w' s w.next q k.first u u' stored at out tasks new
        fin others (omega (arith, grown)) (omega (arith, grown)) ids
        (subst (λ r. Waits r k.rest) (sym f.same_server) k.waits) once.0 once.1 all.1
        (λ i among. subst (λ us. Among i us) k.in_order among) held_queued found
