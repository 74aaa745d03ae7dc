-- ===== src/Threading/Manager/Stuck.antt =====
-- The thread of a timer that waits for its own end.
use common_lib.Common.{
  ℕ, suc, ◌<◌, ◌≡◌, ◌≢◌, inl, inr, refl, ap, sym, ◌∙◌, arith, Bool, true, false, not, ◌&&◌,
  Bool-cases, List, [], ◌∷◌, ◌==◌, ==_iff, if◌then◌else◌,
}
use common_lib.Threading.Manager.{
  Stage, fresh, looping, promised, ended, waits, Timer, Holder, free, thread, stopping, awaiting,
  Manager, Outcome, done, impossible, crashed, put, mem, dropped, taken, erase, unregist, resume,
  leave, break_loop, breaks, out_of_loop, start, stop, force_stop, drop, regist, make, async, Move,
  makes, asyncs, force_stops, starts, stops, drops, leaves, unregisters, resumes, step, run,
  is_free, is_busy, new, if_held, has_ended,
}

-- The thread of timer `i` waits for its own end, in the destructor of the timer.
abbrev pub IsStuck : ℕ → Manager → Type 0
IsStuck i m = ((m.table i).stage ≡ waits (i ∷ [])) × ((m.table i).held ≡ false) × (i < m.count)

abbrev pub StaysStuck : ℕ → Outcome → Type 0
StaysStuck i (done m) = IsStuck i m
StaysStuck i impossible = Unit
StaysStuck i crashed = Unit

if-StaysStuck :
    (i : ℕ) (b : Bool) (o o' : Outcome)
    → StaysStuck i o
    → StaysStuck i o'
    → StaysStuck i (if b then o else o')
if-StaysStuck i true o o' h h' = h
if-StaysStuck i false o o' h h' = h'

-- A table that says the same of where timer `i` is.
abbrev pub Same : ℕ → (ℕ → Timer) → (ℕ → Timer) → Type 0
Same i f g = ((g i).stage ≡ (f i).stage) × ((g i).held ≡ (f i).held)

pub put-Same :
    (i j : ℕ) (t : Timer) (f : ℕ → Timer)
    → (i ≡ j → (t.stage ≡ (f i).stage) × (t.held ≡ (f i).held))
    → Same i f (put f j t)
put-Same i j t f h = elim (Bool-cases (i == j)) [
  | inl e ↦ rw e (h ((==_iff i j).0 e))
  | inr e ↦ rw e (refl, refl)
]

pub dropped-Same : (i k : ℕ) (is : List ℕ) (f : ℕ → Timer) → Same i f (dropped k is f)
dropped-Same i k is f = elim (Bool-cases (mem i is && not (f i).held && not (i == k))) [
  | inl e ↦ rw e (refl, refl)
  | inr e ↦ rw e (refl, refl)
]

module _ (i : ℕ) (m : Manager) (k : IsStuck i m) where
  -- A step that writes the entry of another timer.
  put-IsStuck :
      (j : ℕ) (t : Timer)
      → i ≢ j
      → (n : ℕ) → i < n
      → ((put m.table j t i).stage ≡ waits (i ∷ [])) × ((put m.table j t i).held ≡ false) × (i < n)
  put-IsStuck j t h n l =
      let (e, f) = put-Same i j t m.table (λ g. absurd (h g)) in (e ∙ k.0, f ∙ k.1, l)

  other_new : i ≢ m.count
  other_new e = omega (arith, e, k.2)

  other_held : (j : ℕ) → (m.table j).held ≡ true → i ≢ j
  other_held j e f = let g = sym (ap (λ x. (m.table x).held) f) ∙ k.1 in cc

  other_stage : (j : ℕ) (s : Stage) → (m.table j).stage ≡ s → s ≢ waits (i ∷ []) → i ≢ j
  other_stage j s e h f = h (sym e ∙ sym (ap (λ x. (m.table x).stage) f) ∙ k.0)

  made-IsStuck : (running : Bool) (s : Stage) → IsStuck i (new running s m)
  made-IsStuck running s = put-IsStuck m.count _ other_new (suc m.count) (omega (arith, k.2))

  regist-StaysStuck : (j : ℕ) → StaysStuck i (regist j m)
  unfolding regist
  regist-StaysStuck j = elim (Bool-cases m.shutting_down) [
    | inl e ↦ rw e k
    | inr e ↦ elim (Bool-cases (is_free m.holder)) [
      | inl f ↦ rw e (rw f k)
      | inr f ↦ rw e (rw f tt)
    ]
  ]

  drop-IsStuck : (j : ℕ) → IsStuck i (drop j m)
  unfolding drop
  drop-IsStuck j = elim (Bool-cases (mem j m.timers)) [
    | inl e ↦ rw e (dropped_by _ (λ g. (ap (λ x. (m.table x).stage) (sym g), sym k.1)))
    | inr e ↦ rw e (dropped_by _ (λ g. (ap (λ x. (m.table x).stage) (sym g), sym k.1)))
  ]
    where
      dropped_by :
          (t : Timer)
          → (i ≡ j → (t.stage ≡ (m.table i).stage) × (t.held ≡ (m.table i).held))
          → ((put m.table j t i).stage ≡ waits (i ∷ []))
            × ((put m.table j t i).held ≡ false)
            × (i < m.count)
      dropped_by t h = let (e, f) = put-Same i j t m.table h in (e ∙ k.0, f ∙ k.1, k.2)

  start-StaysStuck : (j : ℕ) → StaysStuck i (start j m)
  unfolding start
  start-StaysStuck j = elim (Bool-cases (m.table j).held) [
    | inr e ↦ rw e tt
    | inl e ↦ elim (Bool-cases (m.table j).running) [
      | inl f ↦ rw e (rw f k)
      | inr f ↦ elim (Bool-cases (is_busy (m.table j).stage)) [
        | inl g ↦ rw e (rw f (rw g tt))
        | inr g ↦ rw e (rw f (rw g (put-IsStuck j _ (other_held j e) m.count k.2)))
      ]
    ]
  ]

  out_of_loop-IsStuck : (j : ℕ) → (m.table j).stage ≡ looping → IsStuck i (out_of_loop j m)
  out_of_loop-IsStuck j e =
      put-IsStuck j (record (m.table j) { stage = promised }) (other_stage j looping e (λ f. cc))
        m.count k.2

  break_loop-StaysStuck :
      (j : ℕ) (s : Stage) → (m.table j).stage ≡ s → StaysStuck i (break_loop s j m)
  unfolding break_loop
  break_loop-StaysStuck j looping e =
      if-StaysStuck i (m.table j).running _ _ (out_of_loop-IsStuck j e) tt
  break_loop-StaysStuck j fresh e = tt
  break_loop-StaysStuck j promised e = tt
  break_loop-StaysStuck j ended e = tt
  break_loop-StaysStuck j (waits js) e = tt

  leave-StaysStuck : (j : ℕ) (s : Stage) → (m.table j).stage ≡ s → StaysStuck i (leave s j m)
  unfolding leave
  leave-StaysStuck j looping e =
      if-StaysStuck i (m.table j).running _ _ tt (out_of_loop-IsStuck j e)
  leave-StaysStuck j fresh e = tt
  leave-StaysStuck j promised e = tt
  leave-StaysStuck j ended e = tt
  leave-StaysStuck j (waits js) e = tt

  stop-IsStuck : (j : ℕ) → IsStuck i (stop j m)
  unfolding stop
  stop-IsStuck j =
      let (e, f) =
        put-Same i j (record (m.table j) { running = false }) m.table
          (λ g. (ap (λ x. (m.table x).stage) (sym g), ap (λ x. (m.table x).held) (sym g))) in
      (e ∙ k.0, f ∙ k.1, k.2)

  force_stop-StaysStuck : (h : Holder) → StaysStuck i (force_stop h m)
  unfolding force_stop
  force_stop-StaysStuck free = k
  force_stop-StaysStuck (thread n) = tt
  force_stop-StaysStuck (stopping []) =
      let (e, f) = dropped-Same i m.count m.timers m.table in (e ∙ k.0, f ∙ k.1, k.2)
  force_stop-StaysStuck (stopping (j ∷ js)) = stop-IsStuck j
  force_stop-StaysStuck (awaiting []) = tt
  force_stop-StaysStuck (awaiting (j ∷ js)) = elim (Bool-cases (is_busy (m.table j).stage)) [
    | inl e ↦ rw e tt
    | inr e ↦ rw e k
  ]

  erase-IsStuck : (j : ℕ) → i ≢ j → IsStuck i (erase j m)
  unfolding erase
  erase-IsStuck j h =
      let (e, f) = dropped-Same i j (taken j m) m.table in
      let (e', f') = put-Same i j _ (dropped j (taken j m) m.table) (λ g. absurd (h g)) in
      (e' ∙ e ∙ k.0, f' ∙ f ∙ k.1, k.2)

  unregist-StaysStuck : (j : ℕ) (s : Stage) → (m.table j).stage ≡ s → StaysStuck i (unregist s j m)
  unfolding unregist
  unregist-StaysStuck j promised e = if-StaysStuck i (m.table j).gone _ _ tt (
      if-StaysStuck i (is_free m.holder) _ _ (erase-IsStuck j another)
        (put-IsStuck j _ another m.count k.2))
    where
      another : i ≢ j
      another = other_stage j promised e (λ f. cc)
  unregist-StaysStuck j fresh e = tt
  unregist-StaysStuck j looping e = tt
  unregist-StaysStuck j ended e = tt
  unregist-StaysStuck j (waits js) e = tt

  resume-StaysStuck : (j : ℕ) (s : Stage) → (m.table j).stage ≡ s → StaysStuck i (resume s j m)
  unfolding resume
  resume-StaysStuck j (waits (n ∷ js)) e = elim (Bool-cases (has_ended (m.table n).stage)) [
    | inr f ↦ rw f tt
    | inl f ↦ rw f (put-IsStuck j _ (λ g. alone g f) m.count k.2)
  ]
    where
      first_of : Stage → ℕ
      first_of (waits (n' ∷ js')) = n'
      first_of s = 0

      -- The first that timer `i` waits for is itself, whose thread has not ended.
      alone : i ≡ j → has_ended (m.table n).stage ≢ true
      alone g f =
          let same : n ≡ i = ap first_of (sym e ∙ ap (λ x. (m.table x).stage) (sym g) ∙ k.0) in
          let never : has_ended (m.table n).stage ≡ false =
            ap (λ x. has_ended (m.table x).stage) same ∙ ap has_ended k.0 in
          cc
  resume-StaysStuck j fresh e = tt
  resume-StaysStuck j looping e = tt
  resume-StaysStuck j ended e = tt
  resume-StaysStuck j promised e = tt
  resume-StaysStuck j (waits []) e = tt

  if_held-StaysStuck : (j : ℕ) (o : Outcome) → StaysStuck i o → StaysStuck i (if_held j m o)
  if_held-StaysStuck j o h = elim (Bool-cases (m.table j).held) [ inl e ↦ rw e h | inr e ↦ rw e tt ]

module _ (i : ℕ) where
  make-StaysStuck : (m : Manager) → IsStuck i m → StaysStuck i (make m)
  unfolding make
  make-StaysStuck m k =
      regist-StaysStuck i (new false fresh m) (made-IsStuck i m k false fresh) m.count

  async-StaysStuck : (m : Manager) → IsStuck i m → StaysStuck i (async m)
  unfolding async
  async-StaysStuck m k =
      dropped_after (regist m.count (new true looping m))
        (regist-StaysStuck i (new true looping m) (made-IsStuck i m k true looping) m.count)
    where
      dropped_after :
          (o : Outcome)
          → StaysStuck i o
          → StaysStuck i (elim o [
            | done m' ↦ done (drop m.count m')
            | impossible ↦ impossible
            | crashed ↦ crashed
          ])
      dropped_after (done m') k' = drop-IsStuck i m' k' m.count
      dropped_after impossible k' = tt
      dropped_after crashed k' = tt

  step-StaysStuck : (v : Move) (m : Manager) → IsStuck i m → StaysStuck i (step v m)
  unfolding step
  step-StaysStuck makes m k = make-StaysStuck m k
  step-StaysStuck asyncs m k = async-StaysStuck m k
  step-StaysStuck force_stops m k = force_stop-StaysStuck i m k m.holder
  step-StaysStuck (starts j) m k = start-StaysStuck i m k j
  step-StaysStuck (stops j) m k = if_held-StaysStuck i m k j _ (stop-IsStuck i m k j)
  step-StaysStuck (drops j) m k = if_held-StaysStuck i m k j _ (drop-IsStuck i m k j)
  step-StaysStuck (leaves j) m k = leave-StaysStuck i m k j (m.table j).stage refl
  step-StaysStuck (breaks j) m k = break_loop-StaysStuck i m k j (m.table j).stage refl
  step-StaysStuck (unregisters j) m k = unregist-StaysStuck i m k j (m.table j).stage refl
  step-StaysStuck (resumes j) m k = resume-StaysStuck i m k j (m.table j).stage refl

  pub run-StaysStuck : (vs : List Move) (m : Manager) → IsStuck i m → StaysStuck i (run vs m)
  unfolding run
  run-StaysStuck [] m k = k
  run-StaysStuck (v ∷ vs) m k =
      after (step v m) (step-StaysStuck v m k) (λ m' k'. run-StaysStuck vs m' k')
    where
      after :
          (o : Outcome)
          → StaysStuck i o
          → ((m' : Manager) → IsStuck i m' → StaysStuck i (run vs m'))
          → StaysStuck i
              (elim o [ done m' ↦ run vs m' | impossible ↦ impossible | crashed ↦ crashed ])
      after (done m') k' h = h m' k'
      after impossible k' h = tt
      after crashed k' h = tt
