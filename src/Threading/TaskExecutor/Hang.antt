-- ===== src/Threading/TaskExecutor/Hang.antt =====
-- The wake-up that `stop` of an executor can lose: `finalize` notifies without the queue's lock, so a
-- worker that has tested the condition and is not asleep yet misses it.
use common_lib.Common.{
  ℕ, zero, suc, ◌-◌, ◌^◌, ◌≡◌, ◌≢◌, ◌≤◌, ◌<◌, ◌⊎◌, refl, ap, sym, ◌∙◌, inl, inr, arith, Bool, true,
  false, Option, none, some, List, [], ◌∷◌, ◌++◌, set, get_or, get_elem?, replicate, All,
  get_or-set_ne, two-pow-pos, ltb, length,
}
use common_lib.Utils.Misc.{next_pwr_of_2}
use common_lib.Utils.Misc.Laws.{next_pwr_of_2-least}
use common_lib.Threading.TaskExecutor.{
  Phase, at_loop, blocking, asleep, finished, idle, joining, Executor, Turn, create, work,
  take_turn, worker_step, woken, wake, pop_turn, notify, stop_step, Move, works, loads, notifies,
  stops, spurious, step, run,
}
use common_lib.Container.WorkQueue.{pop}
use common_lib.Threading.TaskExecutor.Schedules.{After, run-After}
use common_lib.Threading.TaskExecutor.Stop.{phase, get_or-get_elem?}

-- Neither a new task nor a wake-up without cause.
abbrev pub IsQuiet : Move → Type 0
IsQuiet (works busy i) = Unit
IsQuiet (loads t) = 0 < 0
IsQuiet notifies = Unit
IsQuiet stops = Unit
IsQuiet (spurious i) = 0 < 0

-- `stop` waits for worker 0, which waits for a notification that nobody owes it.
abbrev Hangs : Executor → Type 0
Hangs s =
    (s.stopper ≡ joining 0) × ((phase s 0 ≡ blocking) ⊎ (phase s 0 ≡ asleep)) × (s.notices ≡ [])

set-first :
    (ws : List Phase) (p q : Phase) → get_elem? ws 0 ≡ some p → get_or (set ws 0 q) 0 finished ≡ q
set-first [] p q e = cc
set-first (w ∷ ws) p q e = refl

module _ (s : Executor) where
  take_turn-Hangs : (i : ℕ) (o : Option Turn) → Hangs s → i ≢ 0 → After Hangs (take_turn s i o)
  unfolding take_turn
  take_turn-Hangs i none h n = tt
  take_turn-Hangs i (some r) h n = rw (get_or-set_ne s.workers i 0 r.phase finished n) h

  first-Hangs :
      (busy : Bool) (p : Phase)
      → Hangs s
      → get_elem? s.workers 0 ≡ some p
      → After Hangs (take_turn s 0 (work busy s 0 p))
  unfolding take_turn work
  first-Hangs busy asleep h e = tt
  first-Hangs busy blocking h e = (h.0, inr (set-first s.workers blocking asleep e), h.2)
  first-Hangs busy p h e =
      let f : phase s 0 ≡ p = get_or-get_elem? s.workers 0 p finished e in
      absurd (elim h.1 [ inl b ↦ cc | inr a ↦ cc ])

  worker_step-Hangs :
      (busy : Bool) (i : ℕ) (o : Option Phase)
      → Hangs s
      → get_elem? s.workers i ≡ o
      → After Hangs (worker_step busy s i o)
  unfolding worker_step
  worker_step-Hangs busy i none h e = tt
  worker_step-Hangs busy zero (some p) h e = first-Hangs busy p h e
  worker_step-Hangs busy (suc i) (some p) h e =
      take_turn-Hangs (suc i) (work busy s (suc i) p) h (λ n. absurd (omega (arith, n)))

  stop_step-Hangs : Hangs s → After Hangs (stop_step s s.stopper)
  unfolding stop_step
  stop_step-Hangs h = rw h.0 (elim h.1 [ inl b ↦ rw b tt | inr a ↦ rw a tt ])

  step-Hangs : (m : Move) → IsQuiet m → Hangs s → After Hangs (step m s)
  unfolding step notify
  step-Hangs (works busy i) q h = worker_step-Hangs busy i _ h refl
  step-Hangs (loads t) q h = absurd (omega (arith, q))
  step-Hangs notifies q h = rw h.2 tt
  step-Hangs stops q h = stop_step-Hangs h
  step-Hangs (spurious i) q h = absurd (omega (arith, q))

-- One worker finds its queue empty and is about to sleep; `stop` is called.
abbrev pub lost_wake_up : List Move
lost_wake_up = works false 0 ∷ works false 0 ∷ stops ∷ stops ∷ []

abbrev fresh : ℕ → Executor
fresh n = record {
  running = true;
  index = 0;
  queues = replicate n [];
  workers = replicate n at_loop;
  stopper = idle;
  notices = [];
  executed = [];
}

abbrev hung : ℕ → Executor
hung n = record {
  running = false;
  index = 0;
  queues = replicate n [];
  workers = set (replicate n at_loop) 0 blocking;
  stopper = joining 0;
  notices = [];
  executed = [];
}

run-lost :
    (n : ℕ) (ms : List Move) → run (lost_wake_up ++ ms) (fresh (suc n)) ≡ run ms (hung (suc n))
unfolding run step worker_step work take_turn pop_turn stop_step wake woken pop
run-lost n ms = rw (room, run) refl
  where
    room : ltb 0 (suc (length (replicate n at_loop))) ≡ true
    room = ground arith

-- In a pool of 1 to 2 ^ 31 threads, if worker 0 goes to sleep just as `stop` is called, then `stop` never
-- returns, however the threads move on, unless a client loads another task or a thread wakes up
-- without cause.
pub stop-joining :
    (thread_count : ℕ) (ms : List Move) (s : Executor)
    → 1 ≤ thread_count
    → thread_count ≤ 2 ^ 31
    → All IsQuiet ms
    → run (lost_wake_up ++ ms) (create thread_count) ≡ some s
    → s.stopper ≡ joining 0
stop-joining n ms s lo hi q e =
    let (k, p, _, _, _) = next_pwr_of_2-least n lo hi in
    let c = next_pwr_of_2 n - 1 in
    let same : next_pwr_of_2 n ≡ suc c = omega (arith, p, two-pow-pos k) in
    let f : create n ≡ fresh (suc c) = unfold create in ap fresh same in
    (run-After IsQuiet Hangs (λ m s. step-Hangs s m) ms (hung (suc c)) s q (refl, inl refl, refl)
      (sym (run-lost c ms) ∙ ap (run (lost_wake_up ++ ms)) (sym f) ∙ e)).0
