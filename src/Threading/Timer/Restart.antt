-- ===== src/Threading/Timer/Restart.antt =====
-- A timer that is started again before its thread has seen the stop goes on.
use common_lib.Common.{◌≡◌, refl, sym, subst, true, false, Option, none, some, List, [], ◌∷◌}
use common_lib.Threading.Timer.{
  Stage, checking, blocking, waiting, testing, calling, finishing, ended, Owner, idle, replacing,
  Timer, work, expire, awake, start, has_ended, replace, Move, works, expires, spurious, starts,
  replaces, stops, notifies, step, run,
}
use common_lib.Threading.Timer.Laws.{After, run-cons, run-nil}

-- Neither clears `_running`, nor lets the function end the timer.
abbrev pub IsLasting : Move → Type 0
IsLasting (works goes_on) = goes_on ≡ true
IsLasting stops = ⊥
IsLasting _ = Unit

abbrev pub AllLasting : List Move → Type 0
AllLasting [] = Unit
AllLasting (m ∷ ms) = IsLasting m × AllLasting ms

-- The thread will not leave its loop.
abbrev pub IsLooping : Stage → Type 0
IsLooping finishing = ⊥
IsLooping ended = ⊥
IsLooping _ = Unit

-- `start` waits at the assignment for a thread that goes on.
abbrev pub IsStuck : Timer → Type 0
IsStuck t = (t.running ≡ true) × (t.owner ≡ replacing) × IsLooping t.stage

work-IsStuck :
    (s : Stage) (t : Timer)
    → IsLooping s
    → t.running ≡ true
    → t.owner ≡ replacing
    → After IsStuck (work s true t)
unfolding work
work-IsStuck checking t l r o = rw r (refl, o, tt)
work-IsStuck blocking t l r o = (r, o, tt)
work-IsStuck waiting t l r o = tt
work-IsStuck testing t l r o = rw r (refl, o, tt)
work-IsStuck calling t l r o = (r, o, tt)
work-IsStuck finishing t l r o = absurd l
work-IsStuck ended t l r o = tt

expire-IsStuck :
    (s : Stage) (t : Timer) → t.running ≡ true → t.owner ≡ replacing → After IsStuck (expire s t)
unfolding expire
expire-IsStuck waiting t r o = (r, o, tt)
expire-IsStuck checking t r o = tt
expire-IsStuck blocking t r o = tt
expire-IsStuck testing t r o = tt
expire-IsStuck calling t r o = tt
expire-IsStuck finishing t r o = tt
expire-IsStuck ended t r o = tt

awake-IsLooping : (s : Stage) → IsLooping s → IsLooping (awake s)
awake-IsLooping checking l = tt
awake-IsLooping blocking l = tt
awake-IsLooping waiting l = tt
awake-IsLooping testing l = tt
awake-IsLooping calling l = tt
awake-IsLooping finishing l = l
awake-IsLooping ended l = l

-- The join does not end.
replace-none : (o : Owner) (t : Timer) → IsLooping t.stage → replace o t ≡ none
unfolding replace
replace-none idle t l = refl
replace-none replacing t l = rw (going t.stage l) refl
  where
    going : (s : Stage) → IsLooping s → has_ended s ≡ false
    going checking l = refl
    going blocking l = refl
    going waiting l = refl
    going testing l = refl
    going calling l = refl
    going finishing l = refl
    going ended l = absurd l

step-IsStuck : (m : Move) (t : Timer) → IsLasting m → IsStuck t → After IsStuck (step m t)
unfolding step start
step-IsStuck (works goes_on) t l (r, o, k) =
    subst (λ b. After IsStuck (work t.stage b t)) (sym l) (work-IsStuck t.stage t k r o)
step-IsStuck expires t l (r, o, k) = expire-IsStuck t.stage t r o
step-IsStuck spurious t l (r, o, k) = (r, o, awake-IsLooping t.stage k)
step-IsStuck starts t l (r, o, k) = subst (λ x. After IsStuck (start x t)) (sym o) tt
step-IsStuck replaces t l (r, o, k) = subst (After IsStuck) (sym (replace-none t.owner t k)) tt
step-IsStuck stops t l h = absurd l
step-IsStuck notifies t l (r, o, k) = (r, o, awake-IsLooping t.stage k)

run-IsStuck :
    (ms : List Move) (t t' : Timer) → AllLasting ms → IsStuck t → run ms t ≡ some t' → IsStuck t'
run-IsStuck [] t t' l h e = subst IsStuck (run-nil t t' e) h
run-IsStuck (m ∷ ms) t t' (l, ls) h e =
    let (t1, f, g) = run-cons m ms t t' e in
    run-IsStuck ms t1 t' ls (subst (After IsStuck) f (step-IsStuck m t l h)) g

-- If a timer whose thread is in its loop is stopped and started again before the thread takes a step,
-- then `start` waits at the assignment to `_thread` for the old thread, which finds `_running` set
-- again: as long as the function returns true and nobody calls `stop` again, neither does the
-- thread leave its loop nor `start` return, whatever else happens.
pub run-restarted :
    (ms : List Move) (t t' : Timer)
    → t.owner ≡ idle
    → IsLooping t.stage
    → AllLasting ms
    → run (stops ∷ notifies ∷ starts ∷ ms) t ≡ some t'
    → (t'.running ≡ true) × (t'.owner ≡ replacing) × IsLooping t'.stage
unfolding run step start
run-restarted ms t t' o k l e =
    run-IsStuck ms t1 t' l (refl, refl, awake-IsLooping t.stage k)
      (subst (λ x. next (start x stopped) ≡ some t') o e)
  where
    stopped : Timer
    stopped = record t { running = false; stage = awake t.stage }

    t1 : Timer
    t1 = record stopped { running = true; owner = replacing }

    next : Option Timer → Option Timer
    next o' = elim o' [ none ↦ none | some x ↦ run ms x ]
