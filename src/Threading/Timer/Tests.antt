-- ===== src/Threading/Timer/Tests.antt =====
-- Runs of common/src/threading/Timer.cpp.
use common_lib.Common.{◌≤◌, ◌≡◌, ◌⊎◌, refl, true, false, some, [], ◌∷◌}
use common_lib.Threading.Timer.{
  waiting, calling, ended, idle, replacing, Timer, create, work, expire, start, replace, works,
  expires, starts, replaces, step, run, finishing,
}
use common_lib.Threading.Timer.Laws.{length, Goes, run-ends}
use common_lib.Threading.Timer.Restart.{IsLooping, run-restarted}

-- Asleep, and asleep after a `stop` whose notification it missed.
abbrev asleep : Timer
asleep = record { running = true; stage = waiting; owner = idle; count = 2 }

abbrev missed : Timer
missed = record asleep { running = false }

-- A timer that calls its function twice, the second time in vain.
two_calls :
    run
      (starts
        ∷ replaces
        ∷ works true
        ∷ works true
        ∷ expires
        ∷ works true
        ∷ works true
        ∷ works true
        ∷ works true
        ∷ expires
        ∷ works true
        ∷ works false
        ∷ works true
        ∷ [])
      create
    ≡ some (record { running = true; stage = ended; owner = idle; count = 2 })
unfolding create step run start replace work expire
two_calls = refl

-- Two steps later.
abbrev leaving : Timer
leaving = record missed { stage = finishing }

run-ends_example :
    (length (expires ∷ works true ∷ []) ≤ 4)
    × (leaving.count ≡ missed.count)
    × ((leaving.stage ≡ ended) ⊎ Goes leaving)
unfolding run step expire work
run-ends_example = run-ends (expires ∷ works true ∷ []) missed leaving (tt, (tt, tt)) refl refl

-- Restarted: asleep, then awake, and in a call.
abbrev restarted : Timer
restarted = record { running = true; stage = calling; owner = replacing; count = 3 }

run-restarted_example :
    (restarted.running ≡ true) × (restarted.owner ≡ replacing) × IsLooping restarted.stage
unfolding run step expire work start
run-restarted_example =
    run-restarted (works true ∷ works true ∷ expires ∷ works true ∷ []) asleep restarted refl tt
      (refl, (refl, (tt, (refl, tt)))) refl
