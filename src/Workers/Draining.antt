-- ===== src/Workers/Draining.antt =====
-- A worker that is not stopped finishes every task that waits.
use architecture_playground.Base.{
  arith, ℕ, zero, suc, ◌≤◌, String, ◌≡◌, refl, sym, ap, Bool, true, false, length, List, [], ◌∷◌,
  some, inl, inr,
}
use architecture_playground.Task.{Task, is_final}
use architecture_playground.World.{World, Env}
use architecture_playground.World.Laws.{Returns}
use architecture_playground.Errors.{nil, field, size}
use architecture_playground.Logger.Laws.{log_info-Quiet}
use architecture_playground.Store.Quiet.{SameStore-Quiet}
use architecture_playground.Context.{Ctx}
use architecture_playground.Store.View.{view}
use architecture_playground.Registry.{HandlerRegistry}
use architecture_playground.Registry.Laws.{AllTame}
use architecture_playground.Queue.{TaskQueue}
use architecture_playground.Queue.Fifo.{IsFifo, IsPrompt}
use architecture_playground.Workers.{Ready, ready_none, loop, start}
use architecture_playground.Workers.Laws.{made_worker}
use architecture_playground.Workers.Tracked.{IsTracked, SameStore-IsTracked}
use architecture_playground.Workers.Rounds.{Round, process_next_task-IsTracked}
use architecture_playground.Store.Advance.{Advances, Advances-refl, Advances-same, Advances-trans}

-- Rounds in which neither the context nor the stop channel is ready.
abbrev pub idle : ℕ → List Ready
idle zero = []
idle (suc n) = ready_none ∷ idle n

module _ {R : Type 0} (env : Env) (id : ℕ) (queue : TaskQueue R) (registry : HandlerRegistry R)
    (ctx : Ctx) (Waits : R → List Task → Type 0) (fifo : IsFifo queue Waits)
    (prompt : IsPrompt queue Waits ctx) (tame : AllTame registry) where
  -- A round takes one of the tasks that wait, if there is one.
  fewer_left :
      (n : ℕ) (ts us : List Task) (w : World R) (s : IsTracked env Waits ts w)
      → length ts ≤ suc n
      → Round env id queue registry ctx Waits ts w s tame us
      → length us ≤ n
  fewer_left n ts us w s few (inr (t, e)) =
      let whole : suc (length us) ≡ length ts = ap length (sym e) in omega (arith, whole, few)
  fewer_left n [] us w s few (inl (same, e, w1, failed)) = rw same (omega arith)
  fewer_left n (t ∷ ts) us w s few (inl (same, e, w1, failed)) =
      let (x, w2, handed) = prompt.hands w t ts s.waits in absurd (cc (failed, handed))

  abbrev Emptied : World R → Bool → World R → Type 0
  Emptied w stopped w' = (stopped ≡ false) × IsTracked env Waits [] w' × Advances (view w) (view w')

  emptied :
      (n : ℕ) (ts : List Task) (w : World R)
      → length ts ≤ n
      → IsTracked env Waits ts w
      → Returns (loop env (made_worker env id queue registry) ctx (idle n) w) (Emptied w)
  unfolding loop
  emptied zero [] w few s = record {
    value = false;
    world = w;
    run = refl;
    holds = (refl, s, Advances-refl (view w));
  }
  emptied zero (t ∷ ts) w few s = absurd (omega (arith, few))
  emptied (suc n) ts w few s =
      let a = process_next_task-IsTracked env id queue registry ctx Waits ts w s tame fifo in
      let (us, k, round, more) = a.holds in
      let b = emptied n us a.world (fewer_left n ts us w s few round) k in
      record {
        value = b.value;
        world = b.world;
        run = ground (arith, a.run, b.run);
        holds = (
          b.holds.0,
          b.holds.1,
          Advances-trans (view w) (view a.world) (view b.world) more b.holds.2,
        );
      }

  -- With a queue that hands out a task under this context wherever one waits, a worker that nobody stops finishes every
  -- task: after as many rounds as tasks wait, or more, it has not panicked, every stored task is done
  -- or failed, none is lost, and the tasks that were over before are as they were.
  pub start-idle :
      (n : ℕ) (ts : List Task) (w : World R)
      → length ts ≤ n
      → IsTracked env Waits ts w
      → Returns (start env (made_worker env id queue registry) ctx (idle n) w) (λ stopped w'.
        (stopped ≡ false)
        × Advances (view w) (view w')
        × ((j : String) (t : Task) → view w' j ≡ some t → is_final t.status ≡ true))
  unfolding start
  start-idle n ts w few s =
      let a = log_info-Quiet env "worker starting" (field "worker_id" (size id) nil) w in
      let same = SameStore-Quiet s.valid a.holds in
      let b = emptied n ts a.world few (SameStore-IsTracked env Waits ts w s a.world same) in
      record {
        value = b.value;
        world = b.world;
        run = ground (arith, a.run, b.run);
        holds = (
          b.holds.0,
          Advances-trans (view w) (view a.world) (view b.world)
              (Advances-same (view w) (view a.world) same.same_view) b.holds.2,
          λ j t e. elim (b.holds.1.covered j t e) [
            | inl over ↦ over
            | inr (q, among) ↦ absurd among
          ],
        );
      }
