-- ===== src/Threading/Thread/Invariant.antt =====
-- What holds while a `ThreadDetail` is used with care.
use native.Mathlib.Decide.{ℕ_discrete}
use common_lib.Common.{
  ℕ, suc, ◌<◌, ◌≡◌, ◌≢◌, ◌⊎◌, inl, inr, refl, ap, sym, ◌∙◌, subst, arith, Bool, true, false, Option,
  none, some, List, ltb, Bool-cases,
}
use common_lib.Threading.Thread.{
  Stage, fresh, marked, prioritised, named, serving, unmarked, ended, Handle, absent, unjoinable,
  joinable, Owner, idle, joining, spawning, assigning, awaiting, Thread, Answer, replies, put,
  has_ended, test_joinable, test_handle, set_priority, set_name, detaches, survives, work, Move,
  calls, works, move,
}

abbrev pub After : (Thread → Type 0) → Option Thread → Type 0
After P none = Unit
After P (some t) = P t

-- The stages at which `_started` is set.
abbrev pub is_active : Stage → Bool
is_active fresh = false
is_active unmarked = false
is_active ended = false
is_active _ = true

abbrev pub IsLoose : Handle → Type 0
IsLoose h = (h ≡ absent) ⊎ (h ≡ unjoinable)

-- All threads started before number `n` have ended.
abbrev pub EndedBelow : ℕ → (ℕ → Stage) → Type 0
EndedBelow n stages = (j : ℕ) → j < n → stages j ≡ ended

-- No thread is left.
abbrev pub Resting : Thread → Type 0
Resting t = IsLoose t.handle × (t.started ≡ false) × EndedBelow t.spawned t.stages

-- The last thread is the one that `_thread` stands for.
abbrev pub Running : Thread → Type 0
Running t =
    (i : ℕ) × (t.handle ≡ joinable i)
    × (t.spawned ≡ suc i)
    × EndedBelow i t.stages
    × (t.started ≡ is_active (t.stages i))
    × (t.fulfilled ≡ has_ended (t.stages i))

-- The last thread is new, and `_thread` does not stand for it.
abbrev pub Assigning : Thread → Type 0
Assigning t =
    (i : ℕ) × (t.spawned ≡ suc i)
    × EndedBelow i t.stages
    × (t.stages i ≡ fresh)
    × IsLoose t.handle
    × (t.started ≡ false)
    × (t.fulfilled ≡ false)

abbrev pub AtOwner : Owner → Thread → Type 0
AtOwner idle t = Resting t ⊎ Running t
AtOwner joining t = Resting t ⊎ Running t
AtOwner spawning t = Resting t × (t.fulfilled ≡ false)
AtOwner assigning t = Assigning t
AtOwner awaiting t = Running t

abbrev pub IsThread : Thread → Type 0
IsThread t = (t.crashed ≡ false) × AtOwner t.owner t

-- With care: no thread is detached, and a new thread does not move before `_thread` is assigned.
abbrev pub IsCareful : Move → Owner → Type 0
IsCareful (calls detaches) o = ⊥
IsCareful (works i accepted) o = o ≢ assigning
IsCareful _ o = Unit

pub EndedBelow-put :
    (stages : ℕ → Stage) (i : ℕ) (s : Stage) → EndedBelow i stages → EndedBelow i (put stages i s)
EndedBelow-put stages i s h j lt = ground (arith, h j lt)

pub put_self : (stages : ℕ → Stage) (i : ℕ) (s : Stage) → put stages i s i ≡ s
put_self stages i s = ground arith

-- A stage that the last thread moves to.
Running-put :
    (t : Thread) (i : ℕ) (s : Stage) (started fulfilled : Bool)
    → t.handle ≡ joinable i
    → t.spawned ≡ suc i
    → EndedBelow i t.stages
    → started ≡ is_active s
    → fulfilled ≡ has_ended s
    → Running (record t { started = started; fulfilled = fulfilled; stages = put t.stages i s })
Running-put t i s started fulfilled h n below a f = (
  i,
  h,
  n,
  EndedBelow-put t.stages i s below,
  a ∙ ap is_active (sym (put_self t.stages i s)),
  f ∙ ap has_ended (sym (put_self t.stages i s)),
)

pub test_handle-joinable :
    (t : Thread) (i : ℕ) → t.handle ≡ joinable i → test_handle t ≡ replies true
unfolding test_handle test_joinable
test_handle-joinable t i h = elim (Bool-cases t.started) [
  | inl b ↦ rw (b, h) refl
  | inr b ↦ rw b refl
]

pub test_handle-stopped : (t : Thread) → t.started ≡ false → test_handle t ≡ replies true
unfolding test_handle
test_handle-stopped t h = rw h refl

-- What a passed test lets happen.
abbrev pub Passes : (Thread → Thread) → Thread → Answer × Thread → Type 0
Passes f t r = (b : Bool) × (r ≡ (replies b, f t))

pub set_priority-Passes :
    (accepted : Bool) (p : ℕ × ℕ) (t : Thread)
    → test_handle t ≡ replies true
    → Passes (λ t'. record t' { priority = p }) t (set_priority accepted p t)
unfolding set_priority
set_priority-Passes accepted p t h = rw (h, set_priority) (_, refl)

pub set_name-Passes :
    (name : List ℕ) (t : Thread)
    → test_handle t ≡ replies true
    → Passes (λ t'. record t' { name = name }) t (set_name name t)
unfolding set_name
set_name-Passes name t h = rw (h, set_name) (_, refl)

-- A step of the last thread.
abbrev pub Kept : Thread → Thread → Type 0
Kept t t' = Running t' × (t'.owner ≡ t.owner) × (t'.crashed ≡ t.crashed)

work-Running :
    (s : Stage) (i : ℕ) (accepted : Bool) (t : Thread)
    → t.handle ≡ joinable i
    → t.spawned ≡ suc i
    → EndedBelow i t.stages
    → t.started ≡ is_active s
    → t.fulfilled ≡ has_ended s
    → After (Kept t) (work s i accepted t)
unfolding work survives
work-Running fresh i accepted t h n below a f =
    (Running-put t i marked true t.fulfilled h n below refl f, refl, refl)
work-Running marked i accepted t h n below a f =
    rw (set_priority-Passes accepted t.priority t (test_handle-joinable t i h)).1
      (Running-put t i prioritised t.started t.fulfilled h n below a f, refl, refl)
work-Running prioritised i accepted t h n below a f =
    rw (set_name-Passes t.name t (test_handle-joinable t i h)).1
      (Running-put t i named t.started t.fulfilled h n below a f, refl, refl)
work-Running named i accepted t h n below a f =
    (Running-put t i serving t.started t.fulfilled h n below a f, refl, refl)
work-Running serving i accepted t h n below a f =
    (Running-put t i unmarked false t.fulfilled h n below refl f, refl, refl)
work-Running unmarked i accepted t h n below a f =
    rw f (Running-put t i ended t.started true h n below a refl, refl, refl)
work-Running ended i accepted t h n below a f = tt

-- A thread that has ended takes no step.
work-ended :
    (i : ℕ) (accepted : Bool) (t : Thread)
    → t.stages i ≡ ended
    → work (t.stages i) i accepted t ≡ none
unfolding work
work-ended i accepted t e = rw e refl

-- The whole of `move (works i accepted)`, with a thread running.
pub works-Running :
    (i : ℕ) (accepted : Bool) (t : Thread) → Running t → After (Kept t) (move (works i accepted) t)
unfolding move
works-Running i accepted t (k, h, n, below, a, f) = elim (Bool-cases (ltb i t.spawned)) [
  | inr b ↦ rw b tt
  | inl b ↦ rw b (elim (ℕ_discrete i k) [
    | yes e ↦
        subst (λ i'. After (Kept t) (work (t.stages i') i' accepted t)) (sym e)
          (work-Running (t.stages k) k accepted t h n below a f)
    | no other ↦ rw (work-ended i accepted t (below i (ground (arith, b, n, other)))) tt
  ])
]

pub works-Resting :
    (i : ℕ) (accepted : Bool) (t : Thread)
    → EndedBelow t.spawned t.stages
    → move (works i accepted) t ≡ none
unfolding move
works-Resting i accepted t below = elim (Bool-cases (ltb i t.spawned)) [
  | inr b ↦ rw b refl
  | inl b ↦ rw b (work-ended i accepted t (below i (ground (arith, b))))
]
