-- ===== src/Threading/TaskExecutor/Schedules.antt =====
-- Induction on the schedules of an executor.
use common_lib.Common.{
  ◌≡◌, ◌≢◌, refl, ap, sym, ◌∙◌, subst, inl, inr, Option, none, some, List, [], ◌∷◌, ◌++◌,
  Option-cases, All,
}
use common_lib.Threading.TaskExecutor.{Executor, Move, step, run}

-- A property that a step keeps.
abbrev pub After : (Executor → Type 0) → Option Executor → Type 0
After P none = Unit
After P (some s) = P s

pub run-cons :
    (m : Move) (ms : List Move) (s s' : Executor)
    → run (m ∷ ms) s ≡ some s'
    → (s1 : Executor) × (step m s ≡ some s1) × (run ms s1 ≡ some s')
unfolding run
run-cons m ms s s' e = elim (Option-cases (step m s)) [
  | inl f ↦ absurd (none-some (ap next (sym f) ∙ e))
  | inr (s1, f) ↦ (s1, f, ap next (sym f) ∙ e)
]
  where
    next : Option Executor → Option Executor
    next o = elim o [ none ↦ none | some s1 ↦ run ms s1 ]

    none-some : none ≢ some s'
    none-some f = cc

-- What each step keeps holds after a schedule.
pub run-After :
    (Q : Move → Type 0) (P : Executor → Type 0)
    → ((m : Move) (s : Executor) → Q m → P s → After P (step m s))
    → (ms : List Move) (s s' : Executor) → All Q ms
    → P s
    → run ms s ≡ some s'
    → P s'
unfolding run
run-After Q P h [] s s' q v e = subst P (some-injective e) v
  where
    some-injective : some s ≡ some s' → s ≡ s'
    some-injective e = cc
run-After Q P h (m ∷ ms) s s' q v e =
    let (s1, f, g) = run-cons m ms s s' e in
    run-After Q P h ms s1 s' q.1 (subst (After P) f (h m s q.0 v)) g

pub any_schedule : (ms : List Move) → All (λ _. Unit {0}) ms
any_schedule [] = tt
any_schedule (m ∷ ms) = (tt, any_schedule ms)

-- One more step at the end of a schedule.
pub run-snoc :
    (ms : List Move) (m : Move) (s s' : Executor)
    → run ms s ≡ some s'
    → run (ms ++ m ∷ []) s ≡ step m s'
unfolding run
run-snoc [] m s s' e = last (step m s) ∙ ap (step m) (some-injective s s' e)
  where
    last :
        (o : Option Executor)
        → (elim o as (λ _. Option Executor) [ none ↦ none | some s1 ↦ some s1 ]) ≡ o
    last none = refl
    last (some s1) = refl

    some-injective : (s s' : Executor) → some s ≡ some s' → s ≡ s'
    some-injective s s' e = cc
run-snoc (n ∷ ms) m s s' e =
    let (s1, f, g) = run-cons n ms s s' e in ap (next (ms ++ m ∷ [])) f ∙ run-snoc ms m s1 s' g
  where
    next : List Move → Option Executor → Option Executor
    next ls o = elim o [ none ↦ none | some s1 ↦ run ls s1 ]
