-- ===== src/Threading/Thread/Early.antt =====
-- A `start` of a `ThreadDetail` whose new thread moves before the assignment to `_thread`.
use common_lib.Common.{
  ℕ, suc, ◌≡◌, ◌⊎◌, inl, inr, refl, ap, sym, ◌∙◌, subst, arith, Bool, true, false, none, some, List,
  [], ◌∷◌, if◌then◌else◌,
}
use common_lib.Threading.Thread.{
  Stage, fresh, marked, prioritised, Handle, unjoinable, joinable, Owner, idle, joining, spawning,
  assigning, Thread, throws, undefined, put, has_ended, test_joinable, test_handle, set_priority,
  join, starts, call, renew, proceed, survives, work, Move, calls, proceeds, works, call_at, move,
  step, run,
}
use common_lib.Threading.Thread.Invariant.{
  Resting, Running, IsLoose, is_active, EndedBelow, AtOwner, put_self,
}
use common_lib.Threading.Thread.Reached.{Reached, Reached-IsThread}
use common_lib.Threading.Thread.Returns.{run-next, step-move, step-works}

-- `start`, in which the new thread takes its first two steps before `_thread` is assigned.
abbrev pub early_start : ℕ → Bool → List Move
early_start i accepted =
    calls starts ∷ proceeds ∷ proceeds ∷ works i accepted ∷ works i accepted ∷ []

-- The handle of the object is not one of the new thread.
test_handle-loose :
    (t : Thread)
    → t.started ≡ true
    → IsLoose t.handle
    → (test_handle t ≡ throws) ⊎ (test_handle t ≡ undefined)
unfolding test_handle test_joinable
test_handle-loose t a (inl h) = inr (rw (a, h) refl)
test_handle-loose t a (inr h) = inl (rw (a, h) refl)

survives-set_priority :
    (accepted : Bool) (p : ℕ × ℕ) (t : Thread) (s : Stage) (i : ℕ)
    → t.started ≡ true
    → IsLoose t.handle
    → survives s i (set_priority accepted p t) ≡ record t { crashed = true }
unfolding survives set_priority
survives-set_priority accepted p t s i a h = elim (test_handle-loose t a h) [
  | inl e ↦ rw (e, set_priority) refl
  | inr e ↦ rw (e, set_priority) refl
]

-- After `join()`, the steps up to the crash.
run-spawned :
    (t : Thread) (accepted : Bool)
    → t.crashed ≡ false
    → IsLoose t.handle
    → t.owner ≡ spawning
    → (t' : Thread) × (run (proceeds ∷ works t.spawned accepted ∷ works t.spawned accepted ∷ []) t
        ≡ some t')
      × (t'.crashed ≡ true)
unfolding run move proceed work
run-spawned t accepted z h o = (
  record t2 { crashed = true },
  run-next proceeds (works n accepted ∷ works n accepted ∷ []) t t1 first_step
      ∙ run-next (works n accepted) (works n accepted ∷ []) t1 t2
          (step-works fresh n accepted t1 z (omega arith) (put_self t.stages n fresh))
      ∙ run-next (works n accepted) [] t2 (record t2 { crashed = true })
          (step-works marked n accepted t2 z (omega arith) (put_self t1.stages n marked)
            ∙ ap some (survives-set_priority accepted t.priority t2 prioritised n refl h)),
  refl,
)
  where
    n : ℕ
    n = t.spawned

    t1 : Thread
    t1 = record t { owner = assigning; spawned = suc n; stages = put t.stages n fresh }

    t2 : Thread
    t2 = record t1 { started = true; stages = put t1.stages n marked }

    first : (o : Owner) → o ≡ spawning → proceed o t ≡ some t1
    first o e = subst (λ x. proceed x t ≡ some t1) (sym e) refl

    first_step : step proceeds t ≡ some t1
    first_step = step-move proceeds t z ∙ first t.owner o

-- Once all threads have ended, `join()` does not wait.
join-all :
    (t : Thread)
    → Resting t ⊎ Running t
    → EndedBelow t.spawned t.stages
    → (t' : Thread) × ((o : Owner)
        → join t.handle (record t { owner = o }) ≡ some (record t' { owner = o }))
      × IsLoose t'.handle
      × (t'.spawned ≡ t.spawned)
      × (t'.crashed ≡ t.crashed)
unfolding join
join-all t (inl k) below = (t, loose t.handle k.0, k.0, refl, refl)
  where
    loose :
        (h : Handle)
        → IsLoose h
        → (o : Owner) → join h (record t { owner = o }) ≡ some (record t { owner = o })
    loose h (inl e) o =
        subst (λ x. join x (record t { owner = o }) ≡ some (record t { owner = o })) (sym e) refl
    loose h (inr e) o =
        subst (λ x. join x (record t { owner = o }) ≡ some (record t { owner = o })) (sym e) refl
join-all t (inr k) below =
    (record t { handle = unjoinable }, last t.handle k.1, inr refl, refl, refl)
  where
    over : has_ended (t.stages k.0) ≡ true
    over = ap has_ended (below k.0 (omega (arith, k.2)))

    last :
        (h : Handle)
        → h ≡ joinable k.0
        → (o : Owner)
        → join h (record t { owner = o }) ≡ some (record t { handle = unjoinable; owner = o })
    last h e o =
        subst
          (λ x.
            join x (record t { owner = o }) ≡ some (record t { handle = unjoinable; owner = o }))
          (sym e)
          (ap (λ b. if b then some (record t { handle = unjoinable; owner = o }) else none) over)

-- Take an object of which no thread was detached, and no new thread has moved before its assignment
-- to `_thread` so far. Whenever its owner is outside `start` and all its threads have ended, `start`
-- can end the program: the new thread takes its first two steps before `_thread` is assigned, and
-- then follows a null pointer, or finds the `std::thread` of an earlier start and throws.
pub run-early_start :
    {name : List ℕ} (t : Thread) (accepted : Bool)
    → Reached name t
    → t.owner ≡ idle
    → EndedBelow t.spawned t.stages
    → (t' : Thread) × (run (early_start t.spawned accepted) t ≡ some t') × (t'.crashed ≡ true)
unfolding move call_at call proceed renew
run-early_start t accepted r o below =
    let (z, h) = Reached-IsThread t r in
    let k : Resting t ⊎ Running t = subst (λ x. AtOwner x t) o h in
    let (t1, e, loose, n, z1) = join-all t k below in
    let (t', e', crash) =
      run-spawned (record t1 { owner = spawning; fulfilled = false }) accepted (z1 ∙ z) loose
        refl in
    (
      t',
      run-next (calls starts) _ t (record t { owner = joining })
            (step-move (calls starts) t z ∙ starting t.owner o (stopped k))
          ∙ run-next proceeds _ (record t { owner = joining }) _
              (step-move proceeds (record t { owner = joining }) z ∙ ap renew (e joining))
          ∙ subst
              (λ i.
                run (proceeds ∷ works i accepted ∷ works i accepted ∷ [])
                  (record t1 { owner = spawning; fulfilled = false })
                ≡ some t')
              n e',
      crash,
    )
  where
    stopped : Resting t ⊎ Running t → t.started ≡ false
    stopped (inl k) = k.1
    stopped (inr k) = k.4 ∙ ap is_active (below k.0 (omega (arith, k.2)))

    starting :
        (x : Owner)
        → x ≡ idle
        → t.started ≡ false
        → call_at x starts t ≡ some (record t { owner = joining })
    starting x e a =
        subst (λ y. call_at y starts t ≡ some (record t { owner = joining })) (sym e)
          (ap (λ b. some (if b then t else record t { owner = joining })) a)
