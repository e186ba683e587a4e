-- ===== src/Tests/Pooling.antt =====
-- A pool of two workers that is stopped by two callers and started again, and one that is started
-- twice.
use architecture_playground.Base.Int.{pos}
use architecture_playground.Base.{◌≡◌, refl, List, [], ◌∷◌, none, some}
use architecture_playground.Config.{or_default}
use architecture_playground.Workers.Pool.{
  WorkerPool, new_worker_pool, end_stop, graceful_notice, Action, starts, sets_timeout, stops,
  works, takes_task, dequeue_fails, wakes, finishes, returns, act, interleave,
}
use architecture_playground.Workers.Pool.Stopping.{leaving, stop_for_good, stop_can_end}

-- The first worker processes a task, and the second is blocked in `Dequeue`, when the pool is
-- stopped.
abbrev before : List Action
before =
    starts
    ∷ works 0
    ∷ dequeue_fails 0
    ∷ works 0
    ∷ takes_task 0
    ∷ finishes 0
    ∷ works 0
    ∷ works 1
    ∷ takes_task 1
    ∷ stops 0
    ∷ stops 1
    ∷ stops 0
    ∷ stops 0
    ∷ stops 1
    ∷ stops 0
    ∷ sets_timeout (pos 5)
    ∷ stops 0
    ∷ []

abbrev after : List Action
after = wakes 0 ∷ returns 0 ∷ starts ∷ []

abbrev stopped : WorkerPool
unfolding interleave
stopped = or_default (interleave before (new_worker_pool 2)) (new_worker_pool 2)

abbrev restarted : WorkerPool
unfolding interleave
restarted = or_default (interleave after stopped) stopped

stop_for_good_example : act (works 1) restarted ≡ none
unfolding interleave
stop_for_good_example = stop_for_good 2 0 (some 0) before stopped refl refl after restarted refl 1

stop_can_end_example :
    interleave (leaving 0 stopped.running) stopped
    ≡ some (end_stop graceful_notice 0 (record stopped { running = [] }))
unfolding interleave
stop_can_end_example =
    stop_can_end 2 0 (some 0) before stopped refl refl ((λ _. refl), ((λ _. refl), tt))

-- The second start overwrites the cancel function, and the worker of the first stays blocked.
abbrev twice : List Action
twice = starts ∷ works 0 ∷ starts ∷ stops 0 ∷ stops 0 ∷ stops 0 ∷ stops 0 ∷ []

abbrev stuck : WorkerPool
unfolding interleave
stuck = or_default (interleave twice (new_worker_pool 1)) (new_worker_pool 1)

stays_blocked : (act (wakes 1) stuck ≡ none) × (act (returns 1) stuck ≡ none)
unfolding interleave act
stays_blocked = (refl, refl)
