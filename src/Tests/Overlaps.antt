-- ===== src/Tests/Overlaps.antt =====
-- Two overlapping submissions to the synchronous runner.
use architecture_playground.Base.{
  ℕ, String, ◌≡◌, refl, List, [], ◌∷◌, ◌++◌, Option, none, some, ◌-◌,
}
use architecture_playground.World.{World}
use architecture_playground.World.Laws.{Returns}
use architecture_playground.Context.{ExecutionContext}
use architecture_playground.Store.{memory_store}
use architecture_playground.Orchestrator.Settled.{IsSettled}
use architecture_playground.Orchestrator.Jobs.{
  Job, Stage, entered, started, enter, next_stage, submits, moves, Reach, here, later,
}
use architecture_playground.Orchestrator.Jobs.Moves.{left}
use architecture_playground.Orchestrator.Jobs.Safety.{todo, Keeps, Reach-IsServing}
use architecture_playground.Orchestrator.Jobs.Ending.{Ends, Reach-Ends}
use architecture_playground.Main.Laws.{new_world-IsSettled}
use architecture_playground.Tests.Setup.{ctx}
use architecture_playground.Tests.Serving.{tick, strokes, strokes_injective}
use architecture_playground.Tests.Redis.{Values}
use architecture_playground.Tests.Tracking.{registry, tame, first}

abbrev end_of : {A : Type 0} → Option (A × World Values) → World Values
end_of none = first
end_of (some (a, w)) = w

abbrev fresh_context : ℕ → ℕ → ExecutionContext
fresh_context p t = record { task = some p; error = none; start_time = t; end_time = none }

abbrev job : ℕ → Stage → Job
job p s = record { ctx = ctx; at = p; stage = s }

-- Both enter, and the second is the first to be marked as running.
abbrev one : World Values
unfolding enter
one = end_of (enter tick memory_store ctx "print" (1 ∷ []) first)

abbrev two : World Values
unfolding enter
two = end_of (enter tick memory_store ctx "none" [] one)

abbrev three : World Values
unfolding next_stage
three = end_of (next_stage tick memory_store registry ctx (entered (fresh_context 1 5)) two)

entered_first :
    enter tick memory_store ctx "print" (1 ∷ []) first
    ≡ some (job 0 (entered (fresh_context 0 2)), one)
unfolding enter architecture_playground.Store.save architecture_playground.Base.lookup
entered_first = refl

entered_second :
    enter tick memory_store ctx "none" [] one ≡ some (job 1 (entered (fresh_context 1 5)), two)
unfolding enter architecture_playground.Store.save architecture_playground.Base.lookup
    architecture_playground.Base.insert strokes
entered_second = refl

started_second :
    next_stage tick memory_store registry ctx (entered (fresh_context 1 5)) two
    ≡ some (started (fresh_context 1 5), three)
unfolding next_stage two architecture_playground.Store.save architecture_playground.Base.lookup
    architecture_playground.Base.insert strokes architecture_playground.Store.update
started_second = refl

abbrev jobs : List Job
jobs = job 0 (entered (fresh_context 0 2)) ∷ job 1 (started (fresh_context 1 5)) ∷ []

reached : Reach tick registry first jobs three
reached =
    later
      (later
        (later here
          (submits ctx "print" (1 ∷ []) (job 0 (entered (fresh_context 0 2))) entered_first))
        (submits ctx "none" [] (job 1 (entered (fresh_context 1 5))) entered_second))
      (moves (job 0 (entered (fresh_context 0 2)) ∷ []) (job 1 (entered (fresh_context 1 5))) []
        (started (fresh_context 1 5)) started_second)

Reach-IsServing_example :
    Keeps tick first jobs three
    × ((before : List Job) (j : Job) (after : List Job)
        → jobs ≡ before ++ j ∷ after
        → Returns (next_stage tick memory_store registry j.ctx j.stage three) (λ stage w'.
          Keeps tick first (before ++ record j { stage = stage } ∷ after) w'
          × (left stage ≡ left j.stage - 1)))
    × (todo jobs ≡ 0 → IsSettled tick three)
Reach-IsServing_example =
    Reach-IsServing tick registry strokes_injective tame first (new_world-IsSettled tick []) reached

Reach-Ends_example : Ends tick registry tame (todo jobs) jobs three
Reach-Ends_example =
    Reach-Ends tick registry tame strokes_injective first (new_world-IsSettled tick []) reached
