-- ===== src/Threading/Thread/Steps.antt =====
-- Every careful step keeps the invariant of a `ThreadDetail`.
use native.Mathlib.Decide.{ℕ_discrete}
use common_lib.Common.{
  ℕ, suc, ◌≡◌, ◌≢◌, ◌⊎◌, inl, inr, refl, ap, sym, ◌∙◌, subst, arith, Bool, true, false, Option,
  none, some, List, if◌then◌else◌, Bool-cases,
}
use common_lib.Threading.Thread.{
  Stage, fresh, ended, Owner, idle, joining, spawning, assigning, awaiting, Thread, replies, create,
  has_ended, test_handle, join, answered, Call, starts, joins, detaches, prioritises, renames, call,
  renew, announced, assign, await, proceed, Move, calls, proceeds, works, call_at, move, step,
}
use common_lib.Threading.Thread.Invariant.{
  After, AtOwner, EndedBelow, EndedBelow-put, IsCareful, IsThread, Kept, Resting, Running,
  is_active, put_self, set_name-Passes, set_priority-Passes, test_handle-joinable,
  test_handle-stopped, works-Resting, works-Running,
}

-- Whether a thread runs or not, the test of `set_priority` and `set_name` passes.
test_handle-passes : (t : Thread) → Resting t ⊎ Running t → test_handle t ≡ replies true
test_handle-passes t (inl r) = test_handle-stopped t r.1
test_handle-passes t (inr r) = test_handle-joinable t r.0 r.1

EndedBelow-next :
    (n : ℕ) (stages : ℕ → Stage)
    → EndedBelow n stages
    → stages n ≡ ended
    → EndedBelow (suc n) stages
EndedBelow-next n stages below e j lt = elim (ℕ_discrete j n) [
  | yes q ↦ ap stages q ∙ e
  | no q ↦ below j (omega arith)
]

has_ended-ended : (s : Stage) → has_ended s ≡ true → s ≡ ended
has_ended-ended s e = ground arith

join-Resting :
    (t : Thread)
    → Resting t ⊎ Running t
    → After (λ t'. Resting t' × (t'.owner ≡ t.owner) × (t'.crashed ≡ t.crashed)) (join t.handle t)
unfolding join
join-Resting t (inl (inl h, a, below)) = rw h ((inl refl, a, below), refl, refl)
join-Resting t (inl (inr h, a, below)) = rw h ((inr refl, a, below), refl, refl)
join-Resting t (inr (i, h, n, below, a, f)) = rw h (elim (Bool-cases (has_ended (t.stages i))) [
  | inr b ↦ rw b tt
  | inl b ↦
      let e : t.stages i ≡ ended = has_ended-ended (t.stages i) b in
      rw b (
        (
          inr refl,
          a ∙ ap is_active e,
          subst (λ m. EndedBelow m t.stages) (sym n) (EndedBelow-next i t.stages below e),
        ),
        refl,
        refl,
      )
])

if-holds : (P : Thread → Type 0) (b : Bool) (x y : Thread) → P x → P y → P (if b then x else y)
if-holds P true x y p q = p
if-holds P false x y p q = q

call-IsThread :
    (c : Call) (t : Thread)
    → t.owner ≡ idle
    → t.crashed ≡ false
    → IsCareful (calls c) idle
    → Resting t ⊎ Running t
    → After IsThread (call c t)
unfolding call answered
call-IsThread starts t o z care h =
    if-holds IsThread t.started t (record t { owner = joining }) (z, rw o h) (z, joins_next h)
  where
    joins_next :
        Resting t ⊎ Running t
        → Resting (record t { owner = joining }) ⊎ Running (record t { owner = joining })
    joins_next (inl k) = inl k
    joins_next (inr k) = inr k
call-IsThread joins t o z care h = joined (join t.handle t) (join-Resting t h)
  where
    joined :
        (r : Option Thread)
        → After (λ t'. Resting t' × (t'.owner ≡ t.owner) × (t'.crashed ≡ t.crashed)) r
        → After IsThread r
    joined none k = tt
    joined (some t') (k, o', z') = (z' ∙ z, rw (o' ∙ o) (inl k))
call-IsThread detaches t o z care h = absurd care
call-IsThread (prioritises accepted p) t o z care h =
    rw (set_priority-Passes accepted p t (test_handle-passes t h)).1 (z, rw o (again h))
  where
    again :
        Resting t ⊎ Running t
        → Resting (record t { priority = p }) ⊎ Running (record t { priority = p })
    again (inl k) = inl k
    again (inr k) = inr k
call-IsThread (renames name) t o z care h =
    rw (set_name-Passes name t (test_handle-passes t h)).1 (z, rw o (again h))
  where
    again :
        Resting t ⊎ Running t
        → Resting (record t { name = name }) ⊎ Running (record t { name = name })
    again (inl k) = inl k
    again (inr k) = inr k

proceed-IsThread :
    (o : Owner) (t : Thread) → t.crashed ≡ false → AtOwner o t → After IsThread (proceed o t)
unfolding proceed renew assign await
proceed-IsThread idle t z h = tt
proceed-IsThread joining t z h = renewed (join t.handle t) (join-Resting t h)
  where
    renewed :
        (r : Option Thread)
        → After (λ t'. Resting t' × (t'.owner ≡ t.owner) × (t'.crashed ≡ t.crashed)) r
        → After IsThread (renew r)
    renewed none k = tt
    renewed (some t') (k, o', z') = (z' ∙ z, ((k.0, k.1, k.2), refl))
proceed-IsThread spawning t z ((loose, a, below), f) = (
  z,
  (
    t.spawned,
    refl,
    EndedBelow-put t.stages t.spawned fresh below,
    put_self t.stages t.spawned fresh,
    loose,
    a,
    f,
  ),
)
proceed-IsThread assigning t z (i, n, below, e, loose, a, f) =
    rw n (z, (i, refl, refl, below, a ∙ ap is_active (sym e), f ∙ ap has_ended (sym e)))
proceed-IsThread awaiting t z (i, h, n, below, a, f) =
    rw n (elim (Bool-cases (announced (t.stages i))) [
      | inl b ↦ rw b (z, inr (i, h, refl, below, a, f))
      | inr b ↦ rw b tt
    ])

AtOwner-Kept : (o : Owner) (t' : Thread) → o ≢ assigning → o ≢ spawning → Running t' → AtOwner o t'
AtOwner-Kept idle t' n n' k = inr k
AtOwner-Kept joining t' n n' k = inr k
AtOwner-Kept spawning t' n n' k = absurd (n' refl)
AtOwner-Kept assigning t' n n' k = absurd (n refl)
AtOwner-Kept awaiting t' n n' k = k

works-IsThread :
    (o : Owner) (i : ℕ) (accepted : Bool) (t : Thread)
    → t.owner ≡ o
    → t.crashed ≡ false
    → o ≢ assigning
    → AtOwner o t
    → After IsThread (move (works i accepted) t)
works-IsThread o i accepted t q z care h = elim (at_rest o care h) [
  | inl below ↦ rw (works-Resting i accepted t below) tt
  | inr (k, n) ↦ kept (move (works i accepted) t) n (works-Running i accepted t k)
]
  where
    at_rest :
        (o : Owner)
        → o ≢ assigning
        → AtOwner o t
        → EndedBelow t.spawned t.stages ⊎ (Running t × (o ≢ spawning))
    at_rest idle n (inl k) = inl k.2
    at_rest idle n (inr k) = inr (k, λ e. cc)
    at_rest joining n (inl k) = inl k.2
    at_rest joining n (inr k) = inr (k, λ e. cc)
    at_rest spawning n k = inl k.0.2
    at_rest assigning n k = absurd (n refl)
    at_rest awaiting n k = inr (k, λ e. cc)

    kept : (r : Option Thread) → o ≢ spawning → After (Kept t) r → After IsThread r
    kept none n k = tt
    kept (some t') n (k, o', z') =
        (z' ∙ z, subst (λ x. AtOwner x t') (sym (o' ∙ q)) (AtOwner-Kept o t' care n k))

call_at-IsThread :
    (o : Owner) (c : Call) (t : Thread)
    → t.owner ≡ o
    → t.crashed ≡ false
    → IsCareful (calls c) o
    → AtOwner o t
    → After IsThread (call_at o c t)
unfolding call_at
call_at-IsThread idle c t q z care h = call-IsThread c t q z care h
call_at-IsThread joining c t q z care h = tt
call_at-IsThread spawning c t q z care h = tt
call_at-IsThread assigning c t q z care h = tt
call_at-IsThread awaiting c t q z care h = tt

-- A careful step keeps the invariant.
pub step-IsThread :
    (m : Move) (t : Thread) → IsCareful m t.owner → IsThread t → After IsThread (step m t)
unfolding step move
step-IsThread m t care (z, h) =
    subst (λ b. After IsThread (if b then none else move m t)) (sym z) (moved m care)
  where
    moved : (m : Move) → IsCareful m t.owner → After IsThread (move m t)
    moved (calls c) care = call_at-IsThread t.owner c t refl z care h
    moved proceeds care = proceed-IsThread t.owner t z h
    moved (works i accepted) care = works-IsThread t.owner i accepted t refl z care h

pub create-IsThread : (name : List ℕ) → IsThread (create name)
unfolding create
create-IsThread name = (refl, inl (inl refl, refl, λ j lt. refl))
