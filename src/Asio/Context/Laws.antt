-- ===== src/Asio/Context/Laws.antt =====
-- `IOContext` after its `stop`.
use common_lib.Common.{
  suc, ◌≡◌, refl, ap, sym, ◌∙◌, subst, arith, true, Bool-cases, inl, inr, Option, none, some, List,
  [], ◌∷◌, ◌++◌, All, ltb, Option-cases,
}
use common_lib.Threading.TaskExecutor
use common_lib.Threading.TaskExecutor.{Executor, finished, stopped, Stopper}
use common_lib.Threading.TaskExecutor.Schedules.{After, run-snoc}
use common_lib.Threading.TaskExecutor.Stop.{stop-finished, step-stopped}
use common_lib.Asio.Context.{
  Context, Caller, away, halting, waiting, restarting, clearing, loading, notifying, executor_count,
  create, may_step, with_executor, run_starts, stop_starts, is_stopped, caller_step, Move,
  calls_run, calls_stop, caller_goes, works, spurious, step, run,
}

-- What is true of the context that a step leaves, if the step can be taken.
abbrev Holds : (Context → Type 0) → Option Context → Type 0
Holds P none = Unit
Holds P (some c) = P c

run-Holds :
    (P : Context → Type 0)
    → ((m : Move) (c : Context) → P c → Holds P (step m c))
    → (ms : List Move) (c c' : Context) → P c
    → run ms c ≡ some c'
    → P c'
unfolding run
run-Holds P keeps [] c c' p e = subst (Holds P) e p
run-Holds P keeps (m ∷ ms) c c' p e = elim (Option-cases (step m c)) [
  | inl f ↦ subst (Holds P) (sym (ap rest f) ∙ e) tt
  | inr (c1, f) ↦ run-Holds P keeps ms c1 c' (subst (Holds P) f (keeps m c p)) (sym (ap rest f) ∙ e)
]
  where
    rest : Option Context → Option Context
    rest o = elim o [ none ↦ none | some c1 ↦ run ms c1 ]

-- The executor has come to its state by steps of its own.
abbrev Executes : Context → Type 0
Executes c =
    (es : List TaskExecutor.Move) × (TaskExecutor.run es (TaskExecutor.create executor_count)
      ≡ some c.executor)

-- Once the caller has waited for the executor to stop, it is stopped.
abbrev Waited : Caller → Stopper → Type 0
Waited restarting p = p ≡ stopped
Waited clearing p = p ≡ stopped
Waited _ p = Unit

Waited-next :
    (p : Caller) (m : TaskExecutor.Move) (s s' : Executor)
    → TaskExecutor.step m s ≡ some s'
    → Waited p s.stopper
    → Waited p s'.stopper
Waited-next away m s s' e h = tt
Waited-next halting m s s' e h = tt
Waited-next waiting m s s' e h = tt
Waited-next restarting m s s' e h = subst (After (λ t. t.stopper ≡ stopped)) e (step-stopped m s h)
Waited-next clearing m s s' e h = subst (After (λ t. t.stopper ≡ stopped)) e (step-stopped m s h)
Waited-next (loading i) m s s' e h = tt
Waited-next (notifying i) m s s' e h = tt

-- A step of the context is none of the executor, or one.
abbrev Follows : Context → Context → Type 0
Follows c c' =
    (Executes c → Executes c')
    × (c.executor.stopper ≡ stopped → c'.executor.stopper ≡ stopped)
    × (Waited c.caller c.executor.stopper → Waited c'.caller c'.executor.stopper)

module _ (c : Context) where
  with_executor-Follows :
      (to : Caller) (m : TaskExecutor.Move) (o : Option Executor)
      → TaskExecutor.step m c.executor ≡ o
      → (Waited c.caller c.executor.stopper → Waited to c.executor.stopper)
      → Holds (Follows c) (with_executor c to o)
  unfolding with_executor
  with_executor-Follows to m none e h = tt
  with_executor-Follows to m (some s) e h = (
    λ (es, f). (es ++ m ∷ [], run-snoc es m (TaskExecutor.create executor_count) c.executor f ∙ e),
    λ f. subst (After (λ t. t.stopper ≡ stopped)) e (step-stopped m c.executor f),
    λ w. Waited-next to m c.executor s e (h w),
  )

  caller_step-Follows : (p : Caller) → c.caller ≡ p → Holds (Follows c) (caller_step p c)
  unfolding caller_step
  caller_step-Follows away e = tt
  caller_step-Follows (loading i) e = elim (Bool-cases (ltb i executor_count)) [
    | inr f ↦ rw f (λ x. x, λ x. x, λ w. tt)
    | inl f ↦ rw f (with_executor-Follows (notifying i) (TaskExecutor.loads i) _ refl (λ w. tt))
  ]
  caller_step-Follows (notifying i) e =
      with_executor-Follows (loading (suc i)) TaskExecutor.notifies _ refl (λ w. tt)
  caller_step-Follows halting e = (λ x. x, λ x. x, λ w. tt)
  caller_step-Follows waiting e = elim (Bool-cases (is_stopped c.executor.stopper)) [
    | inr f ↦ rw f (with_executor-Follows waiting TaskExecutor.stops _ refl (λ w. tt))
    | inl f ↦ rw f (λ x. x, λ x. x, λ w. ended c.executor.stopper f)
  ]
    where
      ended : (p : Stopper) → is_stopped p ≡ true → p ≡ stopped
      ended = ground arith
  caller_step-Follows restarting e = (λ x. x, λ x. x, subst (λ p. Waited p c.executor.stopper) e)
  caller_step-Follows clearing e = (λ x. x, λ x. x, λ w. tt)

  stays : Follows c c
  stays = (λ x. x, λ x. x, λ x. x)

  run_starts-Follows : (p : Caller) → Holds (Follows c) (run_starts p c)
  unfolding run_starts
  run_starts-Follows away = elim (Bool-cases c.running) [
    | inl f ↦ rw f stays
    | inr f ↦ rw f (λ x. x, λ x. x, λ w. tt)
  ]
  run_starts-Follows halting = tt
  run_starts-Follows waiting = tt
  run_starts-Follows restarting = tt
  run_starts-Follows clearing = tt
  run_starts-Follows (loading i) = tt
  run_starts-Follows (notifying i) = tt

  stop_starts-Follows : (p : Caller) → Holds (Follows c) (stop_starts p c)
  unfolding stop_starts
  stop_starts-Follows away = elim (Bool-cases c.running) [
    | inr f ↦ rw f stays
    | inl f ↦ rw f (λ x. x, λ x. x, λ w. tt)
  ]
  stop_starts-Follows halting = tt
  stop_starts-Follows waiting = tt
  stop_starts-Follows restarting = tt
  stop_starts-Follows clearing = tt
  stop_starts-Follows (loading i) = tt
  stop_starts-Follows (notifying i) = tt

  step-Follows : (m : Move) → Holds (Follows c) (step m c)
  unfolding step
  step-Follows calls_run = run_starts-Follows c.caller
  step-Follows calls_stop = stop_starts-Follows c.caller
  step-Follows caller_goes = caller_step-Follows c.caller refl
  step-Follows (works busy i) = elim (Bool-cases (may_step c i)) [
    | inr f ↦ rw f tt
    | inl f ↦ rw f (with_executor-Follows c.caller (TaskExecutor.works busy i) _ refl (λ w. w))
  ]
  step-Follows (spurious i) =
      with_executor-Follows c.caller (TaskExecutor.spurious i) _ refl (λ w. w)

-- What follows a step follows a schedule.
Holds-map :
    (P Q : Context → Type 0) (o : Option Context)
    → ((c : Context) → P c → Q c)
    → Holds P o
    → Holds Q o
Holds-map P Q none f h = tt
Holds-map P Q (some c) f h = f c h

-- Once a call of `stop` has waited for the threads, no thread runs the event loop any more, or ever
-- will, whatever is called after that, `run` included.
pub run-stopped :
    (ms later : List Move) (c c' : Context)
    → run ms create ≡ some c
    → c.caller ≡ restarting
    → run later c ≡ some c'
    → All (λ p. p ≡ finished) c'.executor.workers
run-stopped ms later c c' e at e' =
    let ((es, f), h) =
      run-Holds Stopped Stopped-next later c c'
        (reached.0, subst (λ p. Waited p c.executor.stopper) at reached.1) e' in
    stop-finished executor_count es c'.executor f h
  where
    Started : Context → Type 0
    Started c = Executes c × Waited c.caller c.executor.stopper

    Stopped : Context → Type 0
    Stopped c = Executes c × (c.executor.stopper ≡ stopped)

    Started-next : (m : Move) (c : Context) → Started c → Holds Started (step m c)
    Started-next m c (x, w) =
        Holds-map (Follows c) Started (step m c) (λ c'. λ (f, g, h). (f x, h w)) (step-Follows c m)

    Stopped-next : (m : Move) (c : Context) → Stopped c → Holds Stopped (step m c)
    Stopped-next m c (x, w) =
        Holds-map (Follows c) Stopped (step m c) (λ c'. λ (f, g, h). (f x, g w)) (step-Follows c m)

    begins : Started create
    begins = unfold create in unfold TaskExecutor.run in (([], refl), tt)

    reached : Started c
    reached = run-Holds Started Started-next ms create c begins e
