-- ===== src/Threading/Thread/Reached.antt =====
-- The states that careful use of a `ThreadDetail` reaches.
use native.Mathlib.Decide.{dec_lt}
use common_lib.Common.{ℕ, suc, ◌<◌, ◌≤◌, ◌≡◌, ◌≢◌, ◌⊎◌, inl, inr, subst, arith, false, some, List}
use common_lib.Threading.Thread.{
  ended, Owner, idle, joining, spawning, assigning, awaiting, Thread, create, Move, step,
}
use common_lib.Threading.Thread.Invariant.{
  After, Resting, Running, EndedBelow, IsThread, IsCareful, AtOwner,
}
use common_lib.Threading.Thread.Steps.{step-IsThread, create-IsThread}

-- A state that careful use of a new object reaches.
pub data Reached (name : List ℕ) : Thread → Type 0 where
  begun : Reached name (create name)
  next :
      (m : Move) (t t' : Thread)
      → Reached name t
      → IsCareful m t.owner
      → step m t ≡ some t'
      → Reached name t'

pub Reached-IsThread : {name : List ℕ} (t : Thread) → Reached name t → IsThread t
Reached-IsThread {name} t begun = create-IsThread name
Reached-IsThread t (next m t0 t1 r care e) =
    subst (After IsThread) e (step-IsThread m t0 care (Reached-IsThread t0 r))

-- At most one thread that has not ended.
abbrev pub IsSingle : Thread → Type 0
IsSingle t =
    (i j : ℕ) → i < t.spawned → j < t.spawned → t.stages i ≢ ended → t.stages j ≢ ended → i ≡ j

EndedBelow-IsSingle : (t : Thread) → EndedBelow t.spawned t.stages → IsSingle t
EndedBelow-IsSingle t below i j hi hj live live' = absurd (live (below i hi))

last-IsSingle : (t : Thread) (k : ℕ) → t.spawned ≡ suc k → EndedBelow k t.stages → IsSingle t
last-IsSingle t k n below i j hi hj live live' =
    omega (arith, is_last i hi live, is_last j hj live')
  where
    is_last : (i : ℕ) → i < t.spawned → t.stages i ≢ ended → k ≤ i
    is_last i hi live = elim (dec_lt i k) [
      | yes lt ↦ absurd (live (below i lt))
      | no ge ↦ omega arith
    ]

-- As long as no thread is detached, and no new thread moves between its start and the assignment to
-- `_thread`, the program goes on whatever the owner calls, and of the threads that an object has
-- started at most one has not ended.
pub Reached-IsSingle :
    {name : List ℕ} (t : Thread) → Reached name t → (t.crashed ≡ false) × IsSingle t
Reached-IsSingle t r = let (z, h) = Reached-IsThread t r in (z, single t.owner h)
  where
    rests : Resting t ⊎ Running t → IsSingle t
    rests (inl k) = EndedBelow-IsSingle t k.2
    rests (inr k) = last-IsSingle t k.0 k.2 k.3

    single : (o : Owner) → AtOwner o t → IsSingle t
    single idle h = rests h
    single joining h = rests h
    single spawning h = rests (inl h.0)
    single assigning h = last-IsSingle t h.0 h.1 h.2
    single awaiting h = rests (inr h)
