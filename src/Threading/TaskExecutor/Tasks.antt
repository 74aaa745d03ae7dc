-- ===== src/Threading/TaskExecutor/Tasks.antt =====
-- Where the tasks of an executor are: in its queues, with its workers, or done.
use common_lib.Common.{
  ℕ, zero, suc, ◌+◌, ◌%◌, ◌^◌, ◌<◌, ◌≡◌, refl, inl, inr, arith, Bool, true, ◌&&◌, false, Option,
  none, some, List, [], ◌∷◌, ◌++◌, length, length-set, get_elem?, get_or, set, if◌then◌else◌, ltb,
  ◌==◌, Bool-cases, Option-cases, bit_and_mask, two-pow-pos, ◌≢◌, subst,
}
use common_lib.Container.WorkQueue.{push, pop, take_back, try_steal}
use common_lib.Threading.TaskExecutor.{
  Phase, at_loop, at_pop, blocking, asleep, at_empty, finished, own, stealing, stolen, Stopper,
  Executor, Turn, is_locked, is_finished, pop_turn, steal_turn, work, take_turn, worker_step,
  queue_index, load, woken, wake, notify, stop_step, Move, loads,
}

abbrev pub one : ℕ → ℕ → ℕ
one t u = if u == t then 1 else 0

-- How often a task stands in a list.
abbrev pub count : ℕ → List ℕ → ℕ
count t [] = 0
count t (u ∷ us) = one t u + count t us

abbrev pub sum {ℓ} : {A : Type ℓ} → (A → ℕ) → List A → ℕ
sum f [] = 0
sum f (x ∷ xs) = f x + sum f xs

-- The task that a worker runs.
abbrev pub held : ℕ → Phase → ℕ
held t (own u) = one t u
held t (stolen u) = one t u
held t _ = 0

abbrev pub tasks : ℕ → Executor → ℕ
tasks t s = sum (count t) s.queues + sum (held t) s.workers + count t s.executed

-- How often a schedule loads a task.
abbrev pub loaded : ℕ → List Move → ℕ
loaded t [] = 0
loaded t (loads u ∷ ms) = one t u + loaded t ms
loaded t (_ ∷ ms) = loaded t ms

pub count-append : (t : ℕ) (xs ys : List ℕ) → count t (xs ++ ys) ≡ count t xs + count t ys
count-append t [] ys = omega arith
count-append t (x ∷ xs) ys = omega (arith, count-append t xs ys)

module _ {ℓ} {A : Type ℓ} (f : A → ℕ) where
  sum-set :
      (xs : List A) (i : ℕ) (x y : A)
      → get_elem? xs i ≡ some x
      → sum f (set xs i y) + f x ≡ sum f xs + f y
  sum-set [] i x y e = cc
  sum-set (z ∷ xs) zero x y e = ground arith
  sum-set (z ∷ xs) (suc i) x y e = omega (arith, sum-set xs i x y e)

  sum-set_or :
      (xs : List A) (i : ℕ) (d y : A)
      → i < length xs
      → sum f (set xs i y) + f (get_or xs i d) ≡ sum f xs + f y
  sum-set_or [] i d y h = absurd (omega arith)
  sum-set_or (z ∷ xs) zero d y h = omega arith
  sum-set_or (z ∷ xs) (suc i) d y h = omega (arith, sum-set_or xs i d y (omega arith))

  -- A write that does not change the measure of its place, also out of bounds.
  sum-set_same :
      (xs : List A) (i : ℕ) (d y : A) → f y ≡ f (get_or xs i d) → sum f (set xs i y) ≡ sum f xs
  sum-set_same [] i d y h = refl
  sum-set_same (z ∷ xs) zero d y h = omega (arith, h)
  sum-set_same (z ∷ xs) (suc i) d y h = omega (arith, sum-set_same xs i d y h)

-- A queue that a task is taken from.
sum-set_taken :
    (t : ℕ) (qs : List (List ℕ)) (i u : ℕ) (rest : List ℕ)
    → count t (get_or qs i []) ≡ one t u + count t rest
    → get_or qs i [] ≢ []
    → sum (count t) (set qs i rest) + one t u ≡ sum (count t) qs
sum-set_taken t [] i u rest e h = absurd (h refl)
sum-set_taken t (q ∷ qs) zero u rest e h = omega (arith, e)
sum-set_taken t (q ∷ qs) (suc i) u rest e h = omega (arith, sum-set_taken t qs i u rest e h)

-- What `take_back` leaves.
abbrev Takes : ℕ → List ℕ → Option (ℕ × List ℕ) → Type 0
Takes t q none = Unit
Takes t q (some (u, rest)) = (q ≢ []) × (count t q ≡ one t u + count t rest)

take_back-Takes : (t : ℕ) (q : List ℕ) → Takes t q (take_back q)
unfolding take_back
take_back-Takes t [] = tt
take_back-Takes t (x ∷ []) = (λ e. cc, omega arith)
take_back-Takes t (x ∷ y ∷ q) = elim (Option-cases (take_back (y ∷ q))) [
  | inl e ↦ rw e tt
  | inr ((b, rest), e) ↦
      let h : Takes t (y ∷ q) (some (b, rest)) =
        subst (Takes t (y ∷ q)) e (take_back-Takes t (y ∷ q)) in
      rw e (λ n. cc, omega (arith, h.1))
]

try_steal-Takes : (t : ℕ) (busy : Bool) (q : List ℕ) → Takes t q (try_steal busy q)
unfolding try_steal
try_steal-Takes t true q = tt
try_steal-Takes t false q = take_back-Takes t q

-- A turn of a worker neither loses a task nor makes one.
abbrev Turns : ℕ → Executor → Phase → Option Turn → Type 0
Turns t s p none = Unit
Turns t s p (some r) =
    (length r.queues ≡ length s.queues)
    × (sum (count t) r.queues + held t r.phase + count t r.executed
        ≡ sum (count t) s.queues + held t p + count t s.executed)

module _ (t : ℕ) (s : Executor) where
  pop_turn-Turns :
      (i : ℕ) (q : List ℕ)
      → get_or s.queues i [] ≡ q
      → Turns t s at_pop (some (pop_turn s i (pop s.running q)))
  unfolding pop_turn pop
  pop_turn-Turns i [] e = elim (Bool-cases s.running) [
    | inl r ↦ rw r (refl, refl)
    | inr r ↦ rw r (refl, refl)
  ]
  pop_turn-Turns i (u ∷ q) e = (length-set s.queues i q, omega (arith, taken))
    where
      taken : sum (count t) (set s.queues i q) + one t u ≡ sum (count t) s.queues
      taken = sum-set_taken t s.queues i u q (rw e refl) (rw e (λ n. cc))

  steal_turn-Turns :
      (i k : ℕ) (o : Option (ℕ × List ℕ))
      → Takes t (get_or s.queues i []) o
      → Turns t s (stealing k) (some (steal_turn s i k o))
  unfolding steal_turn
  steal_turn-Turns i k none h = (refl, refl)
  steal_turn-Turns i k (some (u, rest)) h =
      (length-set s.queues i rest, omega (arith, sum-set_taken t s.queues i u rest h.1 h.0))

  work-Turns : (busy : Bool) (i : ℕ) (p : Phase) → Turns t s p (work busy s i p)
  unfolding work
  work-Turns busy i at_loop = (refl, ground arith)
  work-Turns busy i at_pop = pop_turn-Turns i (get_or s.queues i []) refl
  work-Turns busy i blocking = (refl, refl)
  work-Turns busy i asleep = tt
  work-Turns busy i (own u) = (refl, omega (arith, count-append t s.executed (u ∷ [])))
  work-Turns busy i at_empty = (refl, ground arith)
  work-Turns busy i (stealing k) = elim (Bool-cases (ltb k (length s.queues) && s.running)) [
    | inl e ↦ rw e (steal_turn-Turns target k _ (try_steal-Takes t _ (get_or s.queues target [])))
    | inr e ↦ rw e (refl, refl)
  ]
    where
      target : ℕ
      target = (i + k) % length s.queues
  work-Turns busy i (stolen u) = (refl, omega (arith, count-append t s.executed (u ∷ [])))
  work-Turns busy i finished = tt

-- A step that brings in `n` more of a task.
abbrev pub Keeps : ℕ → ℕ → Executor → Option Executor → Type 0
Keeps t n s none = Unit
Keeps t n s (some s') = (length s'.queues ≡ length s.queues) × (tasks t s' ≡ tasks t s + n)

-- The masked index is the index modulo the number of queues.
pub queue_index_lem :
    (s : Executor) (k : ℕ) → length s.queues ≡ 2 ^ k → queue_index s ≡ s.index % 2 ^ k
unfolding queue_index
queue_index_lem s k e = rw e (bit_and_mask k s.index)

module _ (t : ℕ) (s : Executor) where
  take_turn-Keeps :
      (i : ℕ) (p : Phase) (o : Option Turn)
      → get_elem? s.workers i ≡ some p
      → Turns t s p o
      → Keeps t 0 s (take_turn s i o)
  unfolding take_turn
  take_turn-Keeps i p none e h = tt
  take_turn-Keeps i p (some r) e h =
      (h.0, omega (arith, h.1, sum-set (held t) s.workers i p r.phase e))

  pub worker_step-Keeps :
      (busy : Bool) (i : ℕ) (o : Option Phase)
      → get_elem? s.workers i ≡ o
      → Keeps t 0 s (worker_step busy s i o)
  unfolding worker_step
  worker_step-Keeps busy i none e = tt
  worker_step-Keeps busy i (some p) e =
      take_turn-Keeps i p (work busy s i p) e (work-Turns t s busy i p)

  woken-held : (p : Phase) → held t (woken p) ≡ held t p
  unfolding woken
  woken-held = ground arith

  wake-sum : (i : ℕ) → sum (held t) (wake s i).workers ≡ sum (held t) s.workers
  unfolding wake
  wake-sum i =
      sum-set_same (held t) s.workers i finished _ (woken-held (get_or s.workers i finished))

  pub wake-Keeps : (i : ℕ) → Keeps t 0 s (some (wake s i))
  unfolding wake
  wake-Keeps i = (refl, omega (arith, wake-sum i))

  pub notify-Keeps : (is : List ℕ) → Keeps t 0 s (notify s is)
  unfolding notify wake
  notify-Keeps [] = tt
  notify-Keeps (i ∷ is) = (refl, omega (arith, wake-sum i))

  pub stop_step-Keeps : (p : Stopper) → Keeps t 0 s (stop_step s p)
  unfolding stop_step wake
  stop_step-Keeps Stopper.idle = elim (Bool-cases s.running) [
    | inl e ↦ rw e (refl, omega arith)
    | inr e ↦ rw e (refl, omega arith)
  ]
  stop_step-Keeps (Stopper.finalizing i) = elim (Bool-cases (ltb i (length s.workers))) [
    | inl e ↦ rw e (refl, omega (arith, wake-sum i))
    | inr e ↦ rw e (refl, omega arith)
  ]
  stop_step-Keeps (Stopper.joining i) =
      elim (Bool-cases (is_finished (get_or s.workers i finished))) [
        | inl e ↦ rw e (refl, omega arith)
        | inr e ↦ rw e tt
      ]
  stop_step-Keeps Stopper.stopped = tt

  pub load-Keeps : (k u : ℕ) → length s.queues ≡ 2 ^ k → Keeps t (one t u) s (load s u)
  unfolding load push
  load-Keeps k u e = elim (Bool-cases (is_locked s i)) [
    | inl l ↦ rw l tt
    | inr l ↦ rw l (
      length-set s.queues i _,
      omega (
        arith,
        sum-set_or (count t) s.queues i [] (get_or s.queues i [] ++ u ∷ []) inside,
        count-append t (get_or s.queues i []) (u ∷ []),
      ),
    )
  ]
    where
      i : ℕ
      i = queue_index s

      inside : i < length s.queues
      inside = omega (arith, queue_index_lem s k e, e, two-pow-pos k)
