-- ===== src/Threading/Manager/Hang.antt =====
-- Timers that are destroyed by the threads of timers.
use common_lib.Common.{
  ℕ, ◌<◌, ◌≡◌, ◌≢◌, refl, ap, sym, ◌∙◌, subst, arith, Bool, true, false, not, ◌&&◌, ◌||◌,
  Bool-cases, List, [], ◌∷◌, ◌++◌, ◌==◌, ==_refl, if◌then◌else◌, ==_iff, inl, inr,
}
use common_lib.Threading.Manager.{
  looping, promised, ended, waits, Timer, free, is_free, Manager, Outcome, done, impossible,
  crashed, change, destroyed, after_waits, put, mem, select, dropped, taken, waited, erase,
  unregist, leave, Move, leaves, unregisters, step, run, Outcome,
}
use common_lib.Threading.Manager.Stuck.{IsStuck, StaysStuck, run-StaysStuck}

pub put_self : (f : ℕ → Timer) (i : ℕ) (t : Timer) → put f i t i ≡ t
put_self f i t = rw (==_refl i) refl

differs : (i j : ℕ) → i ≢ j → (i == j) ≡ false
differs i j d = ground arith

pub put_other : (f : ℕ → Timer) (i j : ℕ) (t : Timer) → j ≢ i → put f i t j ≡ f j
put_other f i j t d = rw (differs j i d) refl

or_true : (b : Bool) → b || true ≡ true
or_true true = refl
or_true false = refl

module _ (i : ℕ) (m : Manager) where
  -- The call of `unregist` with the lock.
  unregist-erase :
      (m.table i).stage ≡ promised
      → (m.table i).gone ≡ false
      → m.holder ≡ free
      → step (unregisters i) m ≡ done (erase i m)
  unfolding step unregist
  unregist-erase s g f =
      ap (λ st. unregist st i m) s
      ∙ ap (λ b. if b then crashed else if is_free m.holder then done (erase i m) else given_up) g
      ∙ ap (λ h. if is_free h then done (erase i m) else given_up) f
    where
      given_up : Outcome
      given_up = done (change i (record (m.table i) { stage = ended }) m)

  module _ (h : (m.table i).held ≡ false) where
    erase_self :
        (erase i m).table i
        ≡ record (destroyed (m.table i)) { stage = after_waits (waited i m ++ i ∷ []) }
    unfolding erase
    erase_self =
        put_self (dropped i (taken i m) m.table) i _
        ∙ ap
            (λ b. record (if b then m.table i else destroyed (m.table i)) {
              stage = after_waits (waited i m ++ (if b then [] else i ∷ []));
            })
            h

    erase-IsStuck : waited i m ≡ [] → i < m.count → IsStuck i (erase i m)
    unfolding erase
    erase-IsStuck w l = (
      ap (λ t. t.stage) erase_self ∙ ap (λ js. after_waits (js ++ i ∷ [])) w,
      ap (λ t. t.held) erase_self ∙ h,
      l,
    )

-- Let a timer that its user has not, and that is not destroyed, be about to call `unregist` in its
-- thread, with the lock free, and let the call take out no other timer whose destructor would wait.
-- Then the call destroys the timer in its own thread, and after any further steps, if they are
-- possible, that thread waits for its own end.
pub unregist-hangs :
    (i : ℕ) (m : Manager)
    → (m.table i).stage ≡ promised
    → (m.table i).held ≡ false
    → (m.table i).gone ≡ false
    → m.holder ≡ free
    → waited i m ≡ []
    → i < m.count
    → ((m1 : Manager) × (step (unregisters i) m ≡ done m1) × ((m1.table i).gone ≡ true))
      × ((vs : List Move) (m2 : Manager)
          → run (unregisters i ∷ vs) m ≡ done m2
          → (m2.table i).stage ≡ waits (i ∷ []))
unfolding run
unregist-hangs i m s h g f w l = (
  (erase i m, first, ap (λ t. t.gone) (erase_self i m h)),
  λ vs m2 e.
      (subst (StaysStuck i) (sym (ap (next vs) first) ∙ e)
        (run-StaysStuck i vs (erase i m) (erase-IsStuck i m h w l))).0,
)
  where
    next : List Move → Outcome → Outcome
    next vs o = elim o [ done m' ↦ run vs m' | impossible ↦ impossible | crashed ↦ crashed ]

    first : step (unregisters i) m ≡ done (erase i m)
    first = unregist-erase i m s g f

mem-select :
    (p : ℕ → Bool) (j : ℕ) (is : List ℕ) → mem j is ≡ true → p j ≡ true → mem j (select p is) ≡ true
mem-select p j [] e f = e
mem-select p j (i ∷ is) e f = elim (Bool-cases (j == i)) [
  | inl g ↦ let q : p i ≡ true = subst (λ x. p x ≡ true) ((==_iff j i).0 g) f in rw q (rw g refl)
  | inr g ↦
      let rest = mem-select p j is (sym (ap (λ b. b || mem j is) g) ∙ e) f in
      elim (Bool-cases (p i)) [ inl q ↦ rw q (rw g rest) | inr q ↦ rw q rest ]
]

pub run-next :
    (v : Move) (vs : List Move) (m m' : Manager) → step v m ≡ done m' → run (v ∷ vs) m ≡ run vs m'
unfolding run
run-next v vs m m' e =
    ap (λ o. elim o [ done m1 ↦ run vs m1 | impossible ↦ impossible | crashed ↦ crashed ]) e

run-crashed :
    (v : Move) (vs : List Move) (m : Manager) → step v m ≡ crashed → run (v ∷ vs) m ≡ crashed
unfolding run
run-crashed v vs m e =
    ap (λ o. elim o [ done m1 ↦ run vs m1 | impossible ↦ impossible | crashed ↦ crashed ]) e

module _ (j : ℕ) (m : Manager) where
  abbrev pub left : Manager
  left = change j (record (m.table j) { stage = promised }) m

  pub leaves_lem :
      (m.table j).stage ≡ looping → (m.table j).running ≡ false → step (leaves j) m ≡ done left
  unfolding step leave
  leaves_lem e r = ap (λ st. leave st j m) e ∙ ap (λ b. if b then impossible else done left) r

  -- A timer that is destroyed before the end of its loop.
  unregist-gone : (m.table j).gone ≡ true → step (unregisters j) left ≡ crashed
  unfolding step unregist
  unregist-gone g =
      ap (λ t. unregist t.stage j left)
        (put_self m.table j (record (m.table j) { stage = promised }))
      ∙ ap
          (λ t.
            if t.gone
            then crashed
            else if is_free m.holder
            then done (erase j left)
            else done (change j (record t { stage = ended }) left))
          (put_self m.table j (record (m.table j) { stage = promised }))
      ∙ ap
          (λ b.
            if b
            then crashed
            else if is_free m.holder
            then done (erase j left)
            else done (change j (record (m.table j) { gone = b; stage = ended }) left))
          g

erase_other :
    (i j : ℕ) (m : Manager)
    → i ≢ j
    → mem j m.timers ≡ true
    → (m.table j).held ≡ false
    → (m.table j).running ≡ false
    → (erase i m).table j ≡ destroyed (m.table j)
unfolding erase
erase_other i j m d e h r =
    put_other (dropped i (taken i m) m.table) i j _ (λ f. d (sym f))
    ∙ ap
        (λ b.
          if b && not (m.table j).held && not (j == i) then destroyed (m.table j) else m.table j)
        (mem-select (λ k. (k == i) || not (m.table k).running) j m.timers e
          (ap (λ b. (j == i) || not b) r ∙ or_true (j == i)))
    ∙ ap (λ b. if not b && not (j == i) then destroyed (m.table j) else m.table j) h
    ∙ ap (λ b. if not b then destroyed (m.table j) else m.table j) (differs j i (λ f. d (sym f)))

-- Let the user have stopped a registered timer and given it up, while its thread is still in its loop.
-- If the thread of another timer, which is not destroyed, calls `unregist` with the lock free, and the
-- loop of the first is left then, its thread ends the program.
pub unregist-crashes :
    (i j : ℕ) (m : Manager)
    → i ≢ j
    → (m.table i).stage ≡ promised
    → (m.table i).gone ≡ false
    → m.holder ≡ free
    → mem j m.timers ≡ true
    → (m.table j).held ≡ false
    → (m.table j).running ≡ false
    → (m.table j).stage ≡ looping
    → run (unregisters i ∷ leaves j ∷ unregisters j ∷ []) m ≡ crashed
unregist-crashes i j m d s g f e h r l =
    let gone : (erase i m).table j ≡ destroyed (m.table j) = erase_other i j m d e h r in
    run-next (unregisters i) (leaves j ∷ unregisters j ∷ []) m (erase i m)
      (unregist-erase i m s g f)
    ∙ run-next (leaves j) (unregisters j ∷ []) (erase i m) (left j (erase i m))
        (leaves_lem j (erase i m) (ap (λ t. t.stage) gone ∙ l) (ap (λ t. t.running) gone))
    ∙ run-crashed (unregisters j) [] (left j (erase i m))
        (unregist-gone j (erase i m) (ap (λ t. t.gone) gone))
