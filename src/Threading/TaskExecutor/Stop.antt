-- ===== src/Threading/TaskExecutor/Stop.antt =====
-- `stop` of an executor: what it waits for, and when it waits for ever.
use native.Mathlib.Decide.{dec_lt}
use common_lib.Common.{
  ℕ, zero, suc, ◌≡◌, ◌≢◌, ◌≤◌, ◌<◌, refl, ap, sym, subst, ◌∙◌, inl, inr, arith, Bool, true, Option,
  none, some, List, [], ◌∷◌, length, set, get_or, get_elem?, Bool-cases, ltb, All,
}
use common_lib.Threading.TaskExecutor.{
  Phase, at_loop, at_pop, blocking, asleep, at_empty, finished, own, stealing, stolen, Stopper,
  idle, stopped, finalizing, joining, Executor, Turn, create, work, take_turn, worker_step, load,
  is_locked, queue_index, woken, wake, notify, is_finished, stop_step, Move, works, loads, notifies,
  stops, spurious, step, run,
}
use common_lib.Threading.TaskExecutor.Schedules.{After, run-After, any_schedule}

abbrev pub phase : Executor → ℕ → Phase
phase s j = get_or s.workers j finished

set-finished :
    (ws : List Phase) (i j : ℕ) (p : Phase)
    → (get_or ws i finished ≡ finished → p ≡ finished)
    → get_or ws j finished ≡ finished
    → get_or (set ws i p) j finished ≡ finished
set-finished [] i j p h e = refl
set-finished (w ∷ ws) zero zero p h e = h e
set-finished (w ∷ ws) zero (suc j) p h e = e
set-finished (w ∷ ws) (suc i) zero p h e = e
set-finished (w ∷ ws) (suc i) (suc j) p h e = set-finished ws i j p h e

pub get_or-get_elem? :
    {A : Type 0} (xs : List A) (i : ℕ) (x d : A) → get_elem? xs i ≡ some x → get_or xs i d ≡ x
get_or-get_elem? [] i x d e = cc
get_or-get_elem? (y ∷ xs) zero x d e = cc
get_or-get_elem? (y ∷ xs) (suc i) x d e = get_or-get_elem? xs i x d e

woken-finished : (p : Phase) → p ≡ finished → woken p ≡ finished
unfolding woken
woken-finished p e = rw e refl

get_or_out : {A : Type 0} (xs : List A) (i : ℕ) (d : A) → length xs ≤ i → get_or xs i d ≡ d
get_or_out [] i d h = refl
get_or_out (x ∷ xs) zero d h = absurd (omega arith)
get_or_out (x ∷ xs) (suc i) d h = get_or_out xs i d (omega arith)

-- What all steps but those of `stop` leave alone: a worker that has ended stays so.
abbrev Same : Executor → Executor → Type 0
Same s s' =
    (s'.stopper ≡ s.stopper)
    × (s'.running ≡ s.running)
    × ((j : ℕ) → phase s j ≡ finished → phase s' j ≡ finished)

module _ (s : Executor) where
  take_turn-Same :
      (i : ℕ) (o : Option Turn) → phase s i ≢ finished → After (Same s) (take_turn s i o)
  unfolding take_turn
  take_turn-Same i none n = tt
  take_turn-Same i (some r) n =
      (refl, refl, λ j. set-finished s.workers i j r.phase (λ f. absurd (n f)))

  worker_step-Same :
      (busy : Bool) (i : ℕ) (o : Option Phase)
      → get_elem? s.workers i ≡ o
      → After (Same s) (worker_step busy s i o)
  unfolding worker_step take_turn work
  worker_step-Same busy i none e = tt
  worker_step-Same busy i (some finished) e = tt
  worker_step-Same busy i (some p) e =
      elim p
          as (λ p.
            get_elem? s.workers i ≡ some p → After (Same s) (worker_step busy s i (some p))) [
              | finished ↦ λ e. tt
              | at_loop ↦ λ e. goes at_loop (λ f. cc) e
              | at_pop ↦ λ e. goes at_pop (λ f. cc) e
              | blocking ↦ λ e. goes blocking (λ f. cc) e
              | asleep ↦ λ e. goes asleep (λ f. cc) e
              | at_empty ↦ λ e. goes at_empty (λ f. cc) e
              | own t ↦ λ e. goes (own t) (λ f. cc) e
              | stealing k ↦ λ e. goes (stealing k) (λ f. cc) e
              | stolen t ↦ λ e. goes (stolen t) (λ f. cc) e
            ]
        e
    where
      goes :
          (p : Phase)
          → p ≢ finished
          → get_elem? s.workers i ≡ some p
          → After (Same s) (take_turn s i (work busy s i p))
      goes p n e =
          take_turn-Same i (work busy s i p)
            (λ f. n (sym (get_or-get_elem? s.workers i p finished e) ∙ f))

  wake-Same : (i : ℕ) → Same s (wake s i)
  unfolding wake
  wake-Same i = (refl, refl, λ j. set-finished s.workers i j _ (woken-finished (phase s i)))

  load-Same : (t : ℕ) → After (Same s) (load s t)
  unfolding load
  load-Same t = elim (Bool-cases (is_locked s (queue_index s))) [
    | inl e ↦ rw e tt
    | inr e ↦ rw e (refl, refl, λ j f. f)
  ]

  notify-Same : (is : List ℕ) → After (Same s) (notify s is)
  unfolding notify wake
  notify-Same [] = tt
  notify-Same (i ∷ is) = wake-Same i

-- Until `stop` is called the executor runs; the workers that `stop` has waited for have ended.
abbrev Covered : Stopper → ℕ → Type 0
Covered idle j = j < 0
Covered (finalizing i) j = j < i
Covered (joining i) j = j < i
Covered stopped j = Unit

abbrev Stops : Executor → Type 0
Stops s =
    (s.stopper ≡ idle → s.running ≡ true) × ((j : ℕ) → Covered s.stopper j → phase s j ≡ finished)

Same-Stops : (s : Executor) (o : Option Executor) → Stops s → After (Same s) o → After Stops o
Same-Stops s none v h = tt
Same-Stops s (some s') v h =
    (λ e. h.1 ∙ v.0 (sym h.0 ∙ e), λ j c. h.2 j (v.1 j (subst (λ p. Covered p j) h.0 c)))

follows :
    (s : Executor) (o : Option Executor)
    → s.stopper ≡ stopped
    → After (Same s) o
    → After (λ s'. s'.stopper ≡ stopped) o
follows s none e h = tt
follows s (some s') e h = h.0 ∙ e

module _ (s : Executor) where
  stop_step-Stops : (p : Stopper) → s.stopper ≡ p → Stops s → After Stops (stop_step s p)
  unfolding stop_step wake
  stop_step-Stops idle e v = rw (v.0 e) (λ f. cc, λ j c. absurd (omega (arith, c)))
  stop_step-Stops (finalizing i) e v = elim (Bool-cases (ltb i (length s.workers))) [
    | inl l ↦ rw l (λ f. cc, λ j c. (wake-Same s i).2 j (v.1 j (rw e c)))
    | inr l ↦ rw l (
      λ f. cc,
      λ j c. elim (dec_lt j i) [
        | yes lt ↦ v.1 j (rw e lt)
        | no ge ↦ get_or_out s.workers j finished (ground (arith, ge, l))
      ],
    )
  ]
  stop_step-Stops (joining i) e v = elim (Bool-cases (is_finished (phase s i))) [
    | inl l ↦ rw l (
      λ f. cc,
      λ j c. elim (dec_lt j i) [
        | yes lt ↦ v.1 j (rw e lt)
        | no ge ↦ ap (λ k. phase s k) (omega (arith, ge, c)) ∙ ended (phase s i) l
      ],
    )
    | inr l ↦ rw l tt
  ]
    where
      ended : (p : Phase) → is_finished p ≡ true → p ≡ finished
      ended = ground arith
  stop_step-Stops stopped e v = tt

  step-Stops : (m : Move) → Stops s → After Stops (step m s)
  unfolding step
  step-Stops (works busy i) v = Same-Stops s _ v (worker_step-Same s busy i _ refl)
  step-Stops (loads t) v = Same-Stops s _ v (load-Same s t)
  step-Stops notifies v = Same-Stops s _ v (notify-Same s s.notices)
  step-Stops stops v = stop_step-Stops s.stopper refl v
  step-Stops (spurious i) v = Same-Stops s (some (wake s i)) v (wake-Same s i)

-- Nothing makes a `stop` that has returned return again.
pub step-stopped :
    (m : Move) (s : Executor) → s.stopper ≡ stopped → After (λ s'. s'.stopper ≡ stopped) (step m s)
unfolding step
step-stopped (works busy i) s e = follows s _ e (worker_step-Same s busy i _ refl)
step-stopped (loads t) s e = follows s _ e (load-Same s t)
step-stopped notifies s e = follows s _ e (notify-Same s s.notices)
step-stopped stops s e = rw e (unfold stop_step in tt)
step-stopped (spurious i) s e = follows s (some (wake s i)) e (wake-Same s i)

-- When `stop` returns, in whatever order the threads have moved, all workers have ended.
pub stop-finished :
    (thread_count : ℕ) (ms : List Move) (s : Executor)
    → run ms (create thread_count) ≡ some s
    → s.stopper ≡ stopped
    → All (λ p. p ≡ finished) s.workers
stop-finished n ms s e h = all s.workers (λ j.
    (run-After (λ _. Unit) Stops (λ m s q. step-Stops s m) ms (create n) s (any_schedule ms) start
        e).1
      j (rw h tt))
  where
    start : Stops (create n)
    start = unfold create in (λ f. refl, λ j c. absurd (omega (arith, c)))

    all :
        (ws : List Phase) → ((j : ℕ) → get_or ws j finished ≡ finished) → All (λ p. p ≡ finished) ws
    all [] f = tt
    all (w ∷ ws) f = (f 0, all ws (λ j. f (suc j)))
