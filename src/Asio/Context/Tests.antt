-- ===== src/Asio/Context/Tests.antt =====
-- Runs of `IOContext`.
use common_lib.Common.{ℕ, ◌≡◌, refl, true, false, some, none, List, ◌∷◌, ◌++◌, All, replicate}
use common_lib.Utils.Misc.{next_pwr_of_2, spread32, or_shift}
use common_lib.Threading.TaskExecutor
use common_lib.Threading.TaskExecutor.{finished}
use common_lib.Asio.Context.{
  Context, create, may_step, is_looping, with_executor, run_starts, stop_starts, caller_step, Move,
  calls_run, calls_stop, caller_goes, works, step, run,
}
use common_lib.Asio.Context.Laws.{run-stopped}

abbrev times : ℕ → List Move
times n = replicate n caller_goes

-- Four tasks are loaded, and `stop` waits for the four threads, none of which has taken a task.
abbrev stopping : List Move
stopping =
    calls_run ∷ times 9
    ++ calls_stop ∷ times 3
    ++ works false 0 ∷ times 2
    ++ works false 1 ∷ times 2
    ++ works false 2 ∷ times 2
    ++ works false 3 ∷ times 3

abbrev again : List Move
again = times 2 ++ calls_run ∷ times 9

abbrev state : List Move → Context → Context
state ms c = elim (run ms c) [ none ↦ c | some c' ↦ c' ]

abbrev at_restart : Context
at_restart = state stopping create

-- The second `run` sets `_running`.
running_again : (state again at_restart).running ≡ true
unfolding create may_step is_looping with_executor run_starts stop_starts caller_step step run
    TaskExecutor.create next_pwr_of_2 spread32 or_shift TaskExecutor.is_blocking
    TaskExecutor.pop_turn TaskExecutor.work TaskExecutor.take_turn TaskExecutor.worker_step
    TaskExecutor.queue_index TaskExecutor.load TaskExecutor.woken TaskExecutor.wake
    TaskExecutor.notify TaskExecutor.stop_step TaskExecutor.step
running_again = refl

run-stopped_example : All (λ p. p ≡ finished) (state again at_restart).executor.workers
unfolding create may_step is_looping with_executor run_starts stop_starts caller_step step run
    TaskExecutor.create next_pwr_of_2 spread32 or_shift TaskExecutor.is_blocking
    TaskExecutor.pop_turn TaskExecutor.work TaskExecutor.take_turn TaskExecutor.worker_step
    TaskExecutor.queue_index TaskExecutor.load TaskExecutor.woken TaskExecutor.wake
    TaskExecutor.notify TaskExecutor.stop_step TaskExecutor.step
run-stopped_example = run-stopped stopping again at_restart (state again at_restart) refl refl refl
