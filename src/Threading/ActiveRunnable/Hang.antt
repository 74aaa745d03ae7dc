-- ===== src/Threading/ActiveRunnable/Hang.antt =====
-- The end of an `ActiveRunnable`: the stop that its thread can miss, and the request that is not
-- there.
use common_lib.Common.{
  ◌≡◌, ◌≢◌, ◌<◌, ◌⊎◌, refl, inl, inr, arith, false, Option, none, some, List, [], ◌∷◌, ◌++◌,
  Bool-cases, All,
}
use common_lib.Threading.ActiveRunnable.{
  Phase, at_test, at_lock, waiting, notified, ended, undefined, serving, Runner, Move, works,
  notifies, stops, spurious, started, take_task, lock_step, work, woken, notify, stop, step, run,
}
use common_lib.Threading.ActiveRunnable.Schedules.{After, run-After}

module _ {ℓ} {A : Type ℓ} where
  abbrev pub IsNotified : Move A → Type 0
  IsNotified spurious = 0 < 0
  IsNotified _ = Unit

  -- A wait ends with a request, or with the stop.
  abbrev Ready : Runner A → Type ℓ
  Ready r = (r.phase ≢ undefined) × (r.phase ≡ notified → (r.running ≡ false) ⊎ (r.tasks ≢ []))

  take_task-Ready :
      (r : Runner A) (tasks : List A)
      → r.tasks ≡ tasks
      → (r.running ≡ false) ⊎ (tasks ≢ [])
      → Ready (take_task r tasks)
  unfolding take_task
  take_task-Ready r [] e (inl off) = rw off (λ f. cc, λ f. cc)
  take_task-Ready r [] e (inr n) = absurd (n refl)
  take_task-Ready r (x ∷ tasks) e h = elim (Bool-cases r.running) [
    | inl b ↦ rw b (λ f. cc, λ f. cc)
    | inr b ↦ rw b (λ f. cc, λ f. cc)
  ]

  lock_step-Ready : (r : Runner A) (tasks : List A) → r.tasks ≡ tasks → Ready (lock_step r tasks)
  unfolding lock_step
  lock_step-Ready r [] e = (λ f. cc, λ f. cc)
  lock_step-Ready r (x ∷ tasks) e = take_task-Ready r (x ∷ tasks) e (inr (λ f. cc))

  work-Ready : (r : Runner A) (p : Phase A) → r.phase ≡ p → Ready r → After Ready (work r p)
  unfolding work
  work-Ready r at_test e h = elim (Bool-cases r.running) [
    | inl b ↦ rw b (λ f. cc, λ f. cc)
    | inr b ↦ rw b (λ f. cc, λ f. cc)
  ]
  work-Ready r at_lock e h = lock_step-Ready r r.tasks refl
  work-Ready r waiting e h = tt
  work-Ready r notified e h = take_task-Ready r r.tasks refl (h.1 e)
  work-Ready r (serving x) e h = (λ f. cc, λ f. cc)
  work-Ready r ended e h = tt
  work-Ready r undefined e h = tt

  -- A phase that is woken is undefined only if it was.
  woken-undefined : (p : Phase A) → p ≢ undefined → woken p ≢ undefined
  unfolding woken
  woken-undefined waiting n f = cc
  woken-undefined p n f = n f

  snoc-not_nil : (xs : List A) (x : A) → xs ++ x ∷ [] ≢ []
  snoc-not_nil [] x f = cc
  snoc-not_nil (y ∷ xs) x f = cc

  step-Ready : (m : Move A) (r : Runner A) → IsNotified m → Ready r → After Ready (step m r)
  unfolding step notify stop
  step-Ready works r q h = work-Ready r r.phase refl h
  step-Ready (notifies x) r q h = (woken-undefined r.phase h.0, λ f. inr (snoc-not_nil r.tasks x))
  step-Ready stops r q h = (woken-undefined r.phase h.0, λ f. inl refl)
  step-Ready spurious r q h = absurd (omega (arith, q))

  -- Unless a wait ends without cause, the thread never takes a request from an empty vector.
  pub run-defined :
      (ms : List (Move A)) (r : Runner A)
      → All IsNotified ms
      → run ms started ≡ some r
      → r.phase ≢ undefined
  unfolding started
  run-defined ms r q e =
      (run-After (λ ms' r'. All IsNotified ms' × Ready r') kept ms started r (q, (λ f. cc, λ f. cc))
        e).1.0
    where
      kept :
          (m : Move A) (ms' : List (Move A)) (r' : Runner A)
          → All IsNotified (m ∷ ms') × Ready r'
          → After (λ r''. All IsNotified ms' × Ready r'') (step m r')
      kept m ms' r' h = go (step m r') (step-Ready m r' h.0.0 h.1)
        where
          go :
              (o : Option (Runner A))
              → After Ready o
              → After (λ r''. All IsNotified ms' × Ready r'') o
          go none f = tt
          go (some r'') f = (h.0.1, f)

  abbrev Sleeps : Runner A → Type ℓ
  Sleeps r = (r.running ≡ false) × (r.tasks ≡ []) × ((r.phase ≡ at_lock) ⊎ (r.phase ≡ waiting))

  works-Sleeps : (r : Runner A) → Sleeps r → After Sleeps (step works r)
  unfolding step work lock_step
  works-Sleeps r (off, e, inl p) = rw (p, e) (off, refl, inr refl)
  works-Sleeps r (off, e, inr p) = rw p tt

  stop-Sleeps : (r : Runner A) → r.phase ≡ at_lock → r.tasks ≡ [] → Sleeps (stop r)
  unfolding stop woken
  stop-Sleeps r p e = (refl, e, inl (rw p refl))

  -- If `stop` is called between the thread's test of `_running` and its lock, and no request waits,
  -- then the thread never ends, unless it is notified again or its wait ends without cause.
  pub run-stops :
      (ms : List (Move A)) (r r' : Runner A)
      → r.phase ≡ at_lock
      → r.tasks ≡ []
      → All (λ m. m ≡ works) ms
      → run (stops ∷ ms) r ≡ some r'
      → r'.phase ≢ ended
  unfolding run step
  run-stops ms r r' p t q e =
      awake
        (run-After (λ ms' r'. All (λ m. m ≡ works) ms' × Sleeps r') kept ms (stop r) r'
          (q, stop-Sleeps r p t) e).1.2
    where
      awake : (r'.phase ≡ at_lock) ⊎ (r'.phase ≡ waiting) → r'.phase ≢ ended
      awake (inl f) g = cc
      awake (inr f) g = cc

      kept :
          (m : Move A) (ms' : List (Move A)) (r' : Runner A)
          → All (λ m. m ≡ works) (m ∷ ms') × Sleeps r'
          → After (λ r''. All (λ m. m ≡ works) ms' × Sleeps r'') (step m r')
      kept m ms' r' h = rw h.0.0 (go (step works r') (works-Sleeps r' h.1))
        where
          go :
              (o : Option (Runner A))
              → After Sleeps o
              → After (λ r''. All (λ m. m ≡ works) ms' × Sleeps r'') o
          go none f = tt
          go (some r'') f = (h.0.1, f)
