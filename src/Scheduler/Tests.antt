-- ===== src/Scheduler/Tests.antt =====
-- Runs of p2/scheduler.c, and the theorems about it at them.
use jitcompilation.Prelude.{◌<◌, ◌≡◌, refl, none, some, List, [], ◌∷◌, length, arith, true}
use jitcompilation.Scheduler.Threads.{
  Status, created, sleeping, terminated, Scheduler, thread, fault, thread_candidate, dispatch,
  scheduler_create, before, working, executes, dispatches, prepares, Reaches, stays, moves,
}
use jitcompilation.Scheduler.Choice.{Picks, thread_candidate-Picks}
use jitcompilation.Scheduler.Turns.{OneRuns, Reaches-OneRuns}

abbrev four : List Status
four = sleeping ∷ terminated ∷ created ∷ terminated ∷ []

wraps_around : thread_candidate (record { threads = four; curr_thread = some 2 }) ≡ thread 0
unfolding thread_candidate
wraps_around = refl

-- With no thread at all, the search reads through NULL.
reads_through_null : thread_candidate (record { threads = []; curr_thread = none }) ≡ fault
unfolding thread_candidate
reads_through_null = refl

thread_candidate-Picks_example :
    Picks
      (λ j. j < length four)
      four
      (thread_candidate (record { threads = four; curr_thread = some 2 }))
thread_candidate-Picks_example = thread_candidate-Picks four 2 (omega arith)

abbrev nobody : Scheduler
nobody = record { threads = []; curr_thread = none }

abbrev two : Scheduler
two = record { threads = created ∷ created ∷ []; curr_thread = none }

first_runs : Reaches before nobody working (dispatch two 0)
unfolding scheduler_create thread_candidate
first_runs =
    moves (moves (moves (moves stays (prepares true)) (prepares true)) executes) (dispatches refl)

Reaches-OneRuns_example : OneRuns working (dispatch two 0)
Reaches-OneRuns_example = Reaches-OneRuns first_runs
