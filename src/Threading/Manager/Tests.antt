-- ===== src/Threading/Manager/Tests.antt =====
-- Runs of the manager of timers.
use common_lib.Common.{
  ℕ, zero, suc, ◌+◌, ◌*◌, ◌≤◌, ◌≡◌, refl, arith, true, false, List, [], ◌∷◌, length, All,
}
use common_lib.Threading.Manager.{
  fresh, looping, promised, waits, Timer, free, stopping, Manager, create, done, crashed, put,
  is_busy, regist, make, async, drop, leave, break_loop, breaks, start, stop, unregist, erase, Move,
  makes, asyncs, starts, stops, drops, leaves, unregisters, step, run, Outcome, Stage,
}
use common_lib.Threading.Manager.Hang.{unregist-hangs, unregist-crashes}
use common_lib.Threading.Manager.Turn.{IsInternal}
use common_lib.Threading.Manager.Waits.{IsOwn}
use common_lib.Threading.Manager.Shutdown.{force_stop-ends}

-- One timer of `Timer::async`, whose loop is over.
abbrev alone : Manager
alone = record create {
  count = 1;
  table =
      put (create.table) 0
        (record { running = true; held = false; gone = false; stage = promised });
  timers = 0 ∷ [];
}

unregist-hangs_example :
    ((m1 : Manager) × (step (unregisters 0) alone ≡ done m1) × ((m1.table 0).gone ≡ true))
    × ((vs : List Move) (m2 : Manager)
        → run (unregisters 0 ∷ vs) alone ≡ done m2
        → (m2.table 0).stage ≡ waits (0 ∷ []))
unfolding create
unregist-hangs_example = unregist-hangs 0 alone refl refl refl refl refl (omega arith)

-- The stage of a timer afterwards; a run that does not end so has none.
abbrev stage_of : ℕ → Outcome → Stage
stage_of i (done m) = (m.table i).stage
stage_of i _ = fresh

-- From the start: `Timer::async` with a function that returns false.
hangs : stage_of 0 (run (asyncs ∷ breaks 0 ∷ unregisters 0 ∷ []) create) ≡ waits (0 ∷ [])
unfolding create regist async drop break_loop unregist erase step run
hangs = refl

-- From the start: the user stops the second of two timers, and gives it up.
crashes :
    run
      (makes
        ∷ starts 0
        ∷ makes
        ∷ starts 1
        ∷ stops 1
        ∷ drops 1
        ∷ breaks 0
        ∷ unregisters 0
        ∷ leaves 1
        ∷ unregisters 1
        ∷ [])
      create
    ≡ crashed
unfolding create regist make drop leave break_loop start stop unregist erase step run
crashes = refl

-- Two timers: the loop of the first is over, and the user has stopped the second and given it up.
abbrev pair : ℕ → Timer
pair zero = record { running = true; held = true; gone = false; stage = promised }
pair (suc i) = record { running = false; held = false; gone = false; stage = looping }

abbrev both : Manager
both = record { count = 2; table = pair; timers = 0 ∷ 1 ∷ []; shutting_down = false; holder = free }

unregist-crashes_example : run (unregisters 0 ∷ leaves 1 ∷ unregisters 1 ∷ []) both ≡ crashed
unregist-crashes_example =
    unregist-crashes 0 1 both (omega arith) refl refl refl refl refl refl refl

-- Two timers at the end of the program, the second of them in its loop.
abbrev at_end : Manager
at_end = record both {
  table = put pair 1 (record { running = true; held = true; gone = false; stage = looping });
  shutting_down = true;
  holder = stopping (0 ∷ 1 ∷ []);
}

abbrev kept : List ℕ
kept = 0 ∷ 1 ∷ []

force_stop-ends_example :
    ((vs : List Move) × (m' : Manager) × All IsInternal vs
      × (length vs ≤ 4 * length kept + 1)
      × (run vs at_end ≡ done m')
      × (m'.holder ≡ free)
      × (m'.timers ≡ []))
    × ((vs : List Move) (m' : Manager)
        → All IsOwn vs
        → run vs at_end ≡ done m'
        → m'.holder ≡ free
        → All (λ i. is_busy (m'.table i).stage ≡ false) kept)
force_stop-ends_example = force_stop-ends kept at_end refl ((refl, tt), ((refl, tt), tt))
