-- ===== src/Threading/ActiveRunnable/Laws.antt =====
-- An `ActiveRunnable` serves its requests in order.
use common_lib.Common.{
  ◌≡◌, ap, sym, ◌∙◌, refl, inl, inr, arith, Option, none, some, List, [], ◌∷◌, ◌++◌, append_assoc,
  append-nil, Bool-cases,
}
use common_lib.Threading.ActiveRunnable.{
  Phase, at_test, at_lock, waiting, notified, ended, undefined, serving, Runner, Move, works,
  notifies, stops, spurious, started, take_task, lock_step, work, woken, notify, stop, step, run,
}
use common_lib.Threading.ActiveRunnable.Schedules.{After, run-After}

module _ {ℓ} {A : Type ℓ} where
  -- The requests of a schedule, in order.
  abbrev pub requests : List (Move A) → List A
  requests [] = []
  requests (notifies request ∷ ms) = request ∷ requests ms
  requests (_ ∷ ms) = requests ms

  -- The request in `__work`.
  abbrev pub in_work : Phase A → List A
  in_work (serving request) = request ∷ []
  in_work _ = []

  -- All requests so far: those served, the one in work, and those that wait.
  abbrev pub known : Runner A → List A
  known r = r.served ++ (in_work r.phase ++ r.tasks)

  take_task-known :
      (r : Runner A) (tasks : List A)
      → r.tasks ≡ tasks
      → in_work r.phase ≡ []
      → known (take_task r tasks) ≡ known r
  unfolding take_task
  take_task-known r [] e f = elim (Bool-cases r.running) [
    | inl b ↦ rw (b, e, f) refl
    | inr b ↦ rw (b, e, f) refl
  ]
  take_task-known r (x ∷ tasks) e f = elim (Bool-cases r.running) [
    | inl b ↦ rw (b, e, f) refl
    | inr b ↦ rw (b, e, f) refl
  ]

  lock_step-known :
      (r : Runner A) (tasks : List A)
      → r.tasks ≡ tasks
      → in_work r.phase ≡ []
      → known (lock_step r tasks) ≡ known r
  unfolding lock_step
  lock_step-known r [] e f = rw (e, f) refl
  lock_step-known r (x ∷ tasks) e f = take_task-known r (x ∷ tasks) e f

  woken-in_work : (p : Phase A) → in_work (woken p) ≡ in_work p
  unfolding woken
  woken-in_work p = ground arith

  work-known :
      (r : Runner A) (p : Phase A) → r.phase ≡ p → After (λ r'. known r' ≡ known r) (work r p)
  unfolding work
  work-known r at_test e = elim (Bool-cases r.running) [
    | inl b ↦ rw (b, e) refl
    | inr b ↦ rw (b, e) refl
  ]
  work-known r at_lock e = lock_step-known r r.tasks refl (ap in_work e)
  work-known r waiting e = tt
  work-known r notified e = take_task-known r r.tasks refl (ap in_work e)
  work-known r (serving x) e = rw e (append_assoc r.served (x ∷ []) r.tasks)
  work-known r ended e = tt
  work-known r undefined e = tt

  -- Nothing that a step does reorders the requests.
  step-known :
      (m : Move A) (ms : List (Move A)) (r : Runner A)
      → After (λ r'. known r' ++ requests ms ≡ known r ++ requests (m ∷ ms)) (step m r)
  unfolding step notify stop
  step-known works ms r = same (work r r.phase) (work-known r r.phase refl)
    where
      same :
          (o : Option (Runner A))
          → After (λ r'. known r' ≡ known r) o
          → After (λ r'. known r' ++ requests ms ≡ known r ++ requests ms) o
      same none h = tt
      same (some r') h = ap (λ l. l ++ requests ms) h
  step-known (notifies x) ms r = rw (woken-in_work r.phase) (
      ap (λ l. l ++ requests ms)
        (ap (λ l. r.served ++ l) (sym (append_assoc (in_work r.phase) r.tasks (x ∷ [])))
          ∙ sym (append_assoc r.served (in_work r.phase ++ r.tasks) (x ∷ [])))
      ∙ append_assoc (known r) (x ∷ []) (requests ms))
  step-known stops ms r = rw (woken-in_work r.phase) refl
  step-known spurious ms r = rw (woken-in_work r.phase) refl

  -- However the thread, its clients and `stop` move, the requests that were served, the one in work
  -- and those that wait are together the requests made, in their order: each is served once, first
  -- come first served.
  pub run-started :
      (ms : List (Move A)) (r : Runner A)
      → run ms started ≡ some r
      → r.served ++ (in_work r.phase ++ r.tasks) ≡ requests ms
  unfolding started
  run-started ms r e =
      sym (append-nil (known r))
      ∙ run-After (λ ms' r'. known r' ++ requests ms' ≡ requests ms)
          (λ m ms' r' h. kept ms' r' (step m r') (step-known m ms' r') h) ms started r refl e
    where
      kept :
          {l : List A} (ms' : List (Move A)) (r' : Runner A) (o : Option (Runner A))
          → After (λ r''. known r'' ++ requests ms' ≡ l) o
          → l ≡ requests ms
          → After (λ r''. known r'' ++ requests ms' ≡ requests ms) o
      kept ms' r' none h e = tt
      kept ms' r' (some r'') h e = h ∙ e
