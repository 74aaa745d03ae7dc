-- ===== src/Container/WorkQueue.antt =====
-- `WorkQueue` of common/include/common/container/WorkQueue.hpp: what each call does while it holds
-- `_lock`. The deque is a list, front first. How calls wait and wake each other is in
-- Threading/TaskExecutor.
use common_lib.Common.{ℕ, Bool, true, false, Option, none, some, List, [], ◌∷◌, ◌++◌, length}

-- `pop` under the lock: it goes to sleep, returns a null function, or returns a task.
pub data Popped {ℓ} (A : Type ℓ) : Type ℓ where
  waits : Popped A
  null : Popped A
  popped : A → List A → Popped A

module _ {ℓ} {A : Type ℓ} where
  unfoldable pub push : List A → A → List A
  push tasks task = tasks ++ task ∷ []

  unfoldable pub pop : Bool → List A → Popped A
  pop true [] = waits
  pop false [] = null
  pop running (task ∷ tasks) = popped task tasks

  unfoldable pub empty : List A → Bool
  empty [] = true
  empty (task ∷ tasks) = false

  unfoldable pub size : List A → ℕ
  size tasks = length tasks

  -- `_tasks.back()` and `pop_back()`.
  unfoldable pub take_back : List A → Option (A × List A)
  take_back [] = none
  take_back (task ∷ []) = some (task, [])
  take_back (task ∷ t ∷ tasks) = elim (take_back (t ∷ tasks)) [
    | none ↦ none
    | some (b, rest) ↦ some (b, task ∷ rest)
  ]

  -- `try_steal`, told whether `try_to_lock` fails.
  unfoldable pub try_steal : Bool → List A → Option (A × List A)
  try_steal true tasks = none
  try_steal false tasks = take_back tasks
