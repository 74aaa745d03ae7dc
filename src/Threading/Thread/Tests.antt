-- ===== src/Threading/Thread/Tests.antt =====
-- Runs of common/src/threading/Thread.cpp.
use common_lib.Common.{
  ℕ, ◌≤◌, ◌≡◌, refl, Bool, true, false, Option, none, some, List, [], ◌∷◌, ◌++◌,
}
use common_lib.Threading.Thread.{
  fresh, idle, awaiting, Thread, create, put, starts, detaches, join, call, renew, assign, await,
  proceed, survives, set_priority, set_name, test_handle, test_joinable, work, Move, calls,
  proceeds, works, call_at, move, step, run, assigning, detach, spawning, joining, joinable,
}
use common_lib.Threading.Thread.Reached.{Reached, begun, next, IsSingle, Reached-IsSingle}
use common_lib.Threading.Thread.Returns.{then_returns, run-returns}
use common_lib.Threading.Thread.Early.{early_start, run-early_start}

abbrev app : List ℕ
app = 97 ∷ 112 ∷ []

-- A new object whose owner waits in `start`.
abbrev t0 : Thread
t0 = create app

abbrev t1 : Thread
t1 = record t0 { owner = joining }

abbrev t2 : Thread
t2 = record t1 { owner = spawning; fulfilled = false }

abbrev t3 : Thread
t3 = record t2 { owner = assigning; spawned = 1; stages = put t0.stages 0 fresh }

abbrev t4 : Thread
t4 = record t3 { owner = awaiting; handle = joinable 0 }

t4-Reached : Reached app t4
unfolding create step move call_at call proceed renew join assign
t4-Reached =
    next proceeds t3 t4
      (next proceeds t2 t3 (next proceeds t1 t2 (next (calls starts) t0 t1 begun tt refl) tt refl)
        tt refl)
      tt refl

Reached-IsSingle_example : (t4.crashed ≡ false) × IsSingle t4
Reached-IsSingle_example = Reached-IsSingle t4 t4-Reached

run-returns_example :
    (k : ℕ) × (k ≤ 4)
    × ((t' : Thread) × (run (then_returns k 0 true) t4 ≡ some t')
        × (t'.owner ≡ idle)
        × (t'.crashed ≡ false))
run-returns_example = run-returns t4 true t4-Reached refl

run-early_start_example :
    (t' : Thread) × (run (early_start 0 true) t0 ≡ some t') × (t'.crashed ≡ true)
unfolding create
run-early_start_example = run-early_start t0 true begun refl (λ j lt. refl)

-- Whether a schedule ends the program.
abbrev ends : Option Thread → Bool
ends none = false
ends (some t) = t.crashed

abbrev runs_to_mark : List Move
runs_to_mark =
    calls starts
    ∷ proceeds
    ∷ proceeds
    ∷ proceeds
    ∷ works 0 true
    ∷ works 0 true
    ∷ works 0 true
    ∷ works 0 true
    ∷ proceeds
    ∷ []

-- A detached thread that has cleared `_started` fulfils the promise of the next `start`, whose own
-- thread then throws.
detached_crashes :
    ends (
      run
        (runs_to_mark
          ++ calls detaches
            ∷ works 0 true
            ∷ calls starts
            ∷ proceeds
            ∷ proceeds
            ∷ proceeds
            ∷ works 0 true
            ∷ works 1 true
            ∷ works 1 true
            ∷ works 1 true
            ∷ works 1 true
            ∷ works 1 true
            ∷ works 1 true
            ∷ [])
        t0)
    ≡ true
unfolding create step move call_at call proceed renew join assign await work survives set_priority
    set_name test_handle test_joinable run detach
detached_crashes = refl
