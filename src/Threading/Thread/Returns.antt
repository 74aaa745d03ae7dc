-- ===== src/Threading/Thread/Returns.antt =====
-- The `start` of a `ThreadDetail` returns to its owner.
use common_lib.Common.{
  ℕ, zero, suc, ◌-◌, ◌<◌, ◌≤◌, ◌≡◌, refl, ap, sym, ◌∙◌, subst, arith, Bool, true, false, none, some,
  List, [], ◌∷◌, if◌then◌else◌, ltb,
}
use common_lib.Threading.Thread.{
  Stage, fresh, marked, prioritised, named, serving, unmarked, ended, joinable, idle, awaiting,
  Thread, put, announced, await, proceed, survives, work, Move, proceeds, works, move, step, run,
}
use common_lib.Threading.Thread.Invariant.{
  Running, set_priority-Passes, set_name-Passes, test_handle-joinable, AtOwner,
}
use common_lib.Threading.Thread.Reached.{Reached, Reached-IsThread}

-- The stage after this one, up to the announcement.
abbrev next_stage : Stage → Stage
next_stage fresh = marked
next_stage marked = prioritised
next_stage prioritised = named
next_stage _ = serving

-- The steps that are left to the announcement.
abbrev steps_left : Stage → ℕ
steps_left fresh = 4
steps_left marked = 3
steps_left prioritised = 2
steps_left named = 1
steps_left _ = 0

-- The owner waits for thread `i`, at this stage.
abbrev Waits : ℕ → Stage → Thread → Type 0
Waits i s t =
    (t.crashed ≡ false)
    × (t.owner ≡ awaiting)
    × (t.handle ≡ joinable i)
    × (t.spawned ≡ suc i)
    × (t.stages i ≡ s)

Waits-put :
    (t : Thread) (i : ℕ) (s s' : Stage)
    → Waits i s t
    → Waits i s' (record t { stages = put t.stages i s' })
Waits-put t i s s' (z, o, h, n, e) = (z, o, h, n, ground arith)

work-Waits :
    (s : Stage) (i : ℕ) (accepted : Bool) (t : Thread)
    → announced s ≡ false
    → Waits i s t
    → (t' : Thread) × (work s i accepted t ≡ some t') × Waits i (next_stage s) t'
unfolding work survives
work-Waits fresh i accepted t l w =
    (_, refl, Waits-put (record t { started = true }) i fresh marked w)
work-Waits marked i accepted t l w =
    rw (set_priority-Passes accepted t.priority t (test_handle-joinable t i (w.2))).1
      (_, refl, Waits-put t i marked prioritised w)
work-Waits prioritised i accepted t l w =
    rw (set_name-Passes t.name t (test_handle-joinable t i (w.2))).1
      (_, refl, Waits-put t i prioritised named w)
work-Waits named i accepted t l w = (_, refl, Waits-put t i named serving w)
work-Waits serving i accepted t l w = absurd cc
work-Waits unmarked i accepted t l w = absurd cc
work-Waits ended i accepted t l w = absurd cc

pub step-move : (m : Move) (t : Thread) → t.crashed ≡ false → step m t ≡ move m t
unfolding step
step-move m t z = ap (λ b. if b then none else move m t) z

pub step-works :
    (s : Stage) (i : ℕ) (accepted : Bool) (t : Thread)
    → t.crashed ≡ false
    → i < t.spawned
    → t.stages i ≡ s
    → step (works i accepted) t ≡ work s i accepted t
unfolding move
step-works s i accepted t z lt e = step-move (works i accepted) t z ∙ rw e (rw less refl)
  where
    less : ltb i t.spawned ≡ true
    less = ground arith

step-proceeds :
    (s : Stage) (i : ℕ) (t : Thread)
    → announced s ≡ true
    → Waits i s t
    → step proceeds t ≡ some (record t { owner = idle })
unfolding step move proceed await
step-proceeds s i t l (z, o, h, n, e) =
    subst (λ b. (if b then none else proceed t.owner t) ≡ some (record t { owner = idle })) (sym z)
      (subst (λ x. proceed x t ≡ some (record t { owner = idle })) (sym o)
        (subst (λ k. await k t ≡ some (record t { owner = idle })) (sym n) (rw (e, l) refl)))

pub run-next :
    (m : Move) (ms : List Move) (t t' : Thread) → step m t ≡ some t' → run (m ∷ ms) t ≡ run ms t'
unfolding run
run-next m ms t t' e = rw (e, run) refl

-- So many steps of thread `i`, and then one of the owner.
abbrev pub then_returns : ℕ → ℕ → Bool → List Move
then_returns zero i accepted = proceeds ∷ []
then_returns (suc k) i accepted = works i accepted ∷ then_returns k i accepted

run-then_returns :
    (k : ℕ) (s : Stage) (i : ℕ) (accepted : Bool) (t : Thread)
    → steps_left s ≡ k
    → Waits i s t
    → (t' : Thread) × (run (then_returns k i accepted) t ≡ some t')
      × (t'.owner ≡ idle)
      × (t'.crashed ≡ false)
run-then_returns zero s i accepted t l w = (
  record t { owner = idle },
  run-next proceeds [] t _ (step-proceeds s i t (announces s l) w) ∙ (unfold run in refl),
  refl,
  w.0,
)
  where
    announces : (s : Stage) → steps_left s ≡ 0 → announced s ≡ true
    announces s l = ground arith
run-then_returns (suc k) s i accepted t l w =
    let (t1, e, w1) = work-Waits s i accepted t (silent s l) w in
    let (t', e', o', z') = run-then_returns k (next_stage s) i accepted t1 (fewer s l) w1 in
    (
      t',
      run-next (works i accepted) (then_returns k i accepted) t t1
            (step-works s i accepted t w.0 (omega (arith, w.3)) w.4 ∙ e)
          ∙ e',
      o',
      z',
    )
  where
    silent : (s : Stage) → steps_left s ≡ suc k → announced s ≡ false
    silent s l = ground arith

    fewer : (s : Stage) → steps_left s ≡ suc k → steps_left (next_stage s) ≡ k
    fewer s l = ground arith

-- As long as no thread is detached, and no new thread moves between its start and the assignment to
-- `_thread`: when the owner waits in `start` for the thread that it has started, at most four steps
-- of that thread lead to a state from which the next step of the owner leaves `start`, and the
-- program goes on.
pub run-returns :
    {name : List ℕ} (t : Thread) (accepted : Bool)
    → Reached name t
    → t.owner ≡ awaiting
    → (k : ℕ) × (k ≤ 4)
      × ((t' : Thread) × (run (then_returns k (t.spawned - 1) accepted) t ≡ some t')
          × (t'.owner ≡ idle)
          × (t'.crashed ≡ false))
run-returns t accepted r o =
    let (z, h) = Reached-IsThread t r in
    let k : Running t = subst (λ x. AtOwner x t) o h in
    (
      steps_left (t.stages k.0),
      few (t.stages k.0),
      subst
          (λ i.
            (t' : Thread) × (run (then_returns (steps_left (t.stages k.0)) i accepted) t ≡ some t')
            × (t'.owner ≡ idle)
            × (t'.crashed ≡ false))
          (index t.spawned k.0 k.2)
          (run-then_returns (steps_left (t.stages k.0)) (t.stages k.0) k.0 accepted t refl
            (z, o, k.1, k.2, refl)),
    )
  where
    few : (s : Stage) → steps_left s ≤ 4
    few s = ground arith

    index : (n i : ℕ) → n ≡ suc i → i ≡ n - 1
    index n i e = omega arith
