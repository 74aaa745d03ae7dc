-- ===== src/Threading/Runnable/Laws.antt =====
-- How the thread of a `Runnable` ends, and when it does not.
use common_lib.Common.{
  ◌≡◌, refl, ap, sym, ◌∙◌, subst, true, false, inl, inr, Option, none, some, List, [], ◌∷◌,
  Option-cases, All,
}
use common_lib.Threading.Runnable.{
  Stage, testing, working, ended, Caller, away, replacing, Runnable, work, begin_run, replace, stop,
  Move, works, runs, replaces, stops, step, run,
}

abbrev Holds : (Runnable → Type 0) → Option Runnable → Type 0
Holds P none = Unit
Holds P (some r) = P r

run-Holds :
    (P : Runnable → Type 0) (Q : Move → Type 0)
    → ((m : Move) (r : Runnable) → Q m → P r → Holds P (step m r))
    → (ms : List Move) (r r' : Runnable) → All Q ms
    → P r
    → run ms r ≡ some r'
    → P r'
unfolding run
run-Holds P Q keeps [] r r' q p e = subst (Holds P) e p
run-Holds P Q keeps (m ∷ ms) r r' (q, qs) p e = elim (Option-cases (step m r)) [
  | inl f ↦ subst (Holds P) (sym (ap rest f) ∙ e) tt
  | inr (r1, f) ↦
      run-Holds P Q keeps ms r1 r' qs (subst (Holds P) f (keeps m r q p)) (sym (ap rest f) ∙ e)
]
  where
    rest : Option Runnable → Option Runnable
    rest o = elim o [ none ↦ none | some r1 ↦ run ms r1 ]

abbrev pub IsNoStop : Move → Type 0
IsNoStop stops = ⊥
IsNoStop _ = Unit

abbrev pub IsAlive : Stage → Type 0
IsAlive ended = ⊥
IsAlive _ = Unit

-- `run` waits for a thread that goes on.
abbrev IsStuck : Runnable → Type 0
IsStuck r = (r.running ≡ true) × (r.caller ≡ replacing) × IsAlive r.stage

work-IsStuck :
    (s : Stage) (r : Runnable)
    → IsAlive s
    → r.running ≡ true
    → r.caller ≡ replacing
    → Holds IsStuck (work s r)
unfolding work
work-IsStuck testing r a e c = rw e (refl, c, tt)
work-IsStuck working r a e c = (e, c, tt)
work-IsStuck ended r a e c = tt

replace-IsStuck :
    (c : Caller) (s : Stage) (r : Runnable) → IsAlive s → Holds IsStuck (replace c s r)
unfolding replace
replace-IsStuck away s r a = tt
replace-IsStuck replacing testing r a = tt
replace-IsStuck replacing working r a = tt
replace-IsStuck replacing ended r a = absurd a

step-IsStuck : (m : Move) (r : Runnable) → IsNoStop m → IsStuck r → Holds IsStuck (step m r)
unfolding step begin_run
step-IsStuck works r q (e, c, a) = work-IsStuck r.stage r a e c
step-IsStuck runs r q (e, c, a) = rw c tt
step-IsStuck replaces r q (e, c, a) = replace-IsStuck r.caller r.stage r a
step-IsStuck stops r q v = absurd q

-- If `run` is called again after `stop`, before the thread has tested `_running`, then `run` does not
-- return, and the thread goes on calling `__work`, until `stop` is called once more.
pub run-again :
    (ms : List Move) (r r' : Runnable)
    → r.caller ≡ away
    → IsAlive r.stage
    → All IsNoStop ms
    → run (stops ∷ runs ∷ ms) r ≡ some r'
    → (r'.running ≡ true) × (r'.caller ≡ replacing) × IsAlive r'.stage
unfolding run step stop begin_run
run-again ms r r' c a q e =
    run-Holds IsStuck IsNoStop step-IsStuck ms (record r { running = true; caller = replacing }) r'
      q (refl, refl, a) (sym (ap goes c) ∙ e)
  where
    goes : Caller → Option Runnable
    goes p = elim (begin_run p (record r { running = false })) [ none ↦ none | some r1 ↦ run ms r1 ]
