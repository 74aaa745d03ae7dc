-- ===== src/Threading/TaskExecutor/Laws.antt =====
-- What every schedule of an executor keeps.
use native.Mathlib.Nat.{mod-mod_of_dvd, mod-add-mod}
use Prim.Native.Nat.{◌∣◌}
use common_lib.Common.{
  ℕ, zero, suc, ◌+◌, ◌-◌, ◌^◌, ◌%◌, ◌≡◌, ◌≤◌, refl, ap, sym, ◌∙◌, inl, inr, arith, Option, none,
  some, List, [], ◌∷◌, length, length-replicate, replicate, subst, Bool-cases, length-set,
  two-pow-add,
}
use common_lib.Utils.Misc.{next_pwr_of_2}
use common_lib.Utils.Misc.Laws.{next_pwr_of_2-least}
use common_lib.Threading.TaskExecutor.{
  at_loop, Executor, create, Move, works, loads, notifies, stops, spurious, step, run, load,
  queue_index, is_locked,
}
use common_lib.Threading.TaskExecutor.Schedules.{run-cons}
use common_lib.Threading.TaskExecutor.Tasks.{
  count, sum, held, tasks, loaded, Keeps, worker_step-Keeps, wake-Keeps, notify-Keeps,
  stop_step-Keeps, load-Keeps, queue_index_lem,
}

-- How often a single move loads a task.
abbrev brings : ℕ → Move → ℕ
brings t m = loaded t (m ∷ [])

step-Keeps :
    (t k : ℕ) (m : Move) (s : Executor)
    → length s.queues ≡ 2 ^ k
    → Keeps t (brings t m) s (step m s)
unfolding step
step-Keeps t k (works busy i) s e = worker_step-Keeps t s busy i _ refl
step-Keeps t k (loads u) s e =
    subst (λ n. Keeps t n s (load s u)) (omega arith) (load-Keeps t s k u e)
step-Keeps t k notifies s e = notify-Keeps t s s.notices
step-Keeps t k stops s e = stop_step-Keeps t s s.stopper
step-Keeps t k (spurious i) s e = wake-Keeps t s i

loaded-cons : (t : ℕ) (m : Move) (ms : List Move) → loaded t (m ∷ ms) ≡ brings t m + loaded t ms
loaded-cons t (works busy i) ms = omega arith
loaded-cons t (loads u) ms = omega arith
loaded-cons t notifies ms = omega arith
loaded-cons t stops ms = omega arith
loaded-cons t (spurious i) ms = omega arith

run-tasks :
    (t k : ℕ) (ms : List Move) (s s' : Executor)
    → length s.queues ≡ 2 ^ k
    → run ms s ≡ some s'
    → tasks t s' ≡ tasks t s + loaded t ms
unfolding run
run-tasks t k [] s s' h e = ground arith
run-tasks t k (m ∷ ms) s s' h e =
    let (s1, f, g) = run-cons m ms s s' e in
    let kept : Keeps t (brings t m) s (some s1) =
      subst (Keeps t (brings t m) s) f (step-Keeps t k m s h) in
    omega (arith, kept.1, loaded-cons t m ms, run-tasks t k ms s1 s' (kept.0 ∙ h) g)

sum-replicate : (n : ℕ) (t : ℕ) → sum (count t) (replicate n []) ≡ 0
sum-replicate zero t = refl
sum-replicate (suc n) t = omega (arith, sum-replicate n t)

held-replicate : (n : ℕ) (t : ℕ) → sum (held t) (replicate n at_loop) ≡ 0
held-replicate zero t = refl
held-replicate (suc n) t = omega (arith, held-replicate n t)

-- In a pool of 1 to 2 ^ 31 threads, whatever the workers, the clients and a call of `stop` do, and
-- in any order of their steps, each task stands in the queues, with the workers and among the
-- executed ones together exactly as often as it was loaded: none is lost or run twice, stolen or
-- not.
pub run-create-tasks :
    (thread_count : ℕ) (t : ℕ) (ms : List Move) (s : Executor)
    → 1 ≤ thread_count
    → thread_count ≤ 2 ^ 31
    → run ms (create thread_count) ≡ some s
    → tasks t s ≡ loaded t ms
unfolding create
run-create-tasks n t ms s lo hi e =
    let (k, p, _, _, _) = next_pwr_of_2-least n lo hi in
    omega (
      arith,
      run-tasks t k ms (create n) s (length-replicate (next_pwr_of_2 n) [] ∙ p) e,
      sum-replicate (next_pwr_of_2 n) t,
      held-replicate (next_pwr_of_2 n) t,
    )

-- The round robin of `load`: from one load to the next the queue index goes up by one, modulo the
-- number of queues, a power of two up to 2 ^ 32, also where the 32-bit counter wraps.
pub queue_index-load :
    (k t : ℕ) (s s' : Executor)
    → length s.queues ≡ 2 ^ k
    → k ≤ 32
    → load s t ≡ some s'
    → queue_index s' ≡ (queue_index s + 1) % 2 ^ k
queue_index-load k t s s' e h l =
    queue_index_lem s' k (loaded_lem.0 ∙ e)
    ∙ ap (λ j. j % 2 ^ k) loaded_lem.1
    ∙ mod-mod_of_dvd (2 ^ k) (s.index + 1) divides
    ∙ sym (mod-add-mod s.index (2 ^ k) 1)
    ∙ ap (λ j. (j + 1) % 2 ^ k) (sym (queue_index_lem s k e))
  where
    Loads : Option Executor → Type 0
    Loads none = Unit
    Loads (some r) = (length r.queues ≡ length s.queues) × (r.index ≡ (s.index + 1) % 2 ^ 32)

    load-Loads : Loads (load s t)
    load-Loads = elim (Bool-cases (is_locked s (queue_index s))) [
      | inl b ↦ unfold load in rw b tt
      | inr b ↦ unfold load in rw b (length-set s.queues (queue_index s) _, refl)
    ]

    loaded_lem : Loads (some s')
    loaded_lem = subst Loads l load-Loads

    split : 32 ≡ k + (32 - k)
    split = omega arith

    divides : 2 ^ k ∣ 2 ^ 32
    divides = ∣ (2 ^ (32 - k), ap (λ j. 2 ^ j) split ∙ two-pow-add k (32 - k)) ∣₁
