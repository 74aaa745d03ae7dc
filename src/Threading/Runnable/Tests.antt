-- ===== src/Threading/Runnable/Tests.antt =====
-- Runs of a `Runnable`.
use common_lib.Common.{◌≡◌, refl, true, some, [], ◌∷◌}
use common_lib.Threading.Runnable.{
  working, away, replacing, Runnable, create, work, begin_run, replace, works, runs, replaces, step,
  run,
}

-- The thread is in `__work`.
abbrev at_work : Runnable
at_work = record { running = true; stage = working; caller = away; rounds = 1 }

at_work_lem : run (runs ∷ replaces ∷ works ∷ []) create ≡ some at_work
unfolding create work begin_run replace step run
at_work_lem = refl

abbrev stuck : Runnable
stuck = record { running = true; stage = working; caller = replacing; rounds = 2 }
