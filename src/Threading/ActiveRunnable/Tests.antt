-- ===== src/Threading/ActiveRunnable/Tests.antt =====
-- Tests of `ActiveRunnable`.
use common_lib.Common.{ℕ, ◌≡◌, ◌++◌, refl, true, false, some, List, [], ◌∷◌}
use common_lib.Threading.ActiveRunnable.{
  at_lock, waiting, undefined, serving, Runner, Move, works, notifies, spurious, started, take_task,
  lock_step, work, woken, notify, step, run,
}
use common_lib.Threading.ActiveRunnable.Laws.{requests, in_work, run-started}

-- Three requests: one served, one in work, and one that waits.
abbrev schedule : List (Move ℕ)
schedule = notifies 4 ∷ works ∷ works ∷ notifies 5 ∷ works ∷ works ∷ works ∷ notifies 6 ∷ []

abbrev after_schedule : Runner ℕ
after_schedule = record { running = true; tasks = 6 ∷ []; phase = serving 5; served = 4 ∷ [] }

run-started_example : (4 ∷ []) ++ (in_work (serving 5) ++ (6 ∷ [])) ≡ requests schedule
unfolding run step started work lock_step take_task notify woken
run-started_example = run-started schedule after_schedule refl

-- A wait that ends without cause finds no request.
wakes_without_request :
    run {A = ℕ} (works ∷ works ∷ spurious ∷ works ∷ []) started
    ≡ some (record { running = true; tasks = []; phase = undefined; served = [] })
unfolding run step started work lock_step take_task woken
wakes_without_request = refl

abbrev before_lock : Runner ℕ
before_lock = record { running = true; tasks = []; phase = at_lock; served = 3 ∷ [] }

abbrev missed : Runner ℕ
missed = record { running = false; tasks = []; phase = waiting; served = 3 ∷ [] }
