-- ===== src/Asio/Listener/Laws.antt =====
-- The accept loop of a listener ends after `stop`.
use common_lib.Common.{
  ℕ, zero, suc, ◌+◌, ◌*◌, ◌≤◌, ◌≡◌, ◌≢◌, ◌⊎◌, refl, ap, sym, ◌∙◌, subst, arith, inl, inr, false,
  Bool-cases, List, [], ◌∷◌, ◌++◌, length, replicate, All,
}
use common_lib.Asio.Listener.{
  Completion, accepted, failed, aborted, Listener, Outcome, done, impossible, crashed, listening,
  abort, stop, accept, fail, handle, handle_first, Move, listens, stops, fails, handles, accepts,
  step, run,
}

-- What asio and the loop do, without a call of the user.
abbrev pub IsInternal : Move → Type 0
IsInternal fails = Unit
IsInternal handles = Unit
IsInternal (accepts client) = Unit
IsInternal (listens granted) = ⊥
IsInternal stops = ⊥

-- How many steps a completion may lead to, its handler first.
abbrev weight : Completion → ℕ
weight (accepted client) = 3
weight failed = 1
weight aborted = 1

abbrev weights : List Completion → ℕ
weights [] = 0
weights (c ∷ cs) = weight c + weights cs

abbrev measure : Listener → ℕ
measure l = l.started * 2 + weights l.completions

weights-append : (cs ds : List Completion) → weights (cs ++ ds) ≡ weights cs + weights ds
weights-append [] ds = omega arith
weights-append (c ∷ cs) ds = omega (arith, weights-append cs ds)

weights-le : (cs : List Completion) → weights cs ≤ 3 * length cs
weights-le [] = omega arith
weights-le (accepted client ∷ cs) = omega (arith, weights-le cs)
weights-le (failed ∷ cs) = omega (arith, weights-le cs)
weights-le (aborted ∷ cs) = omega (arith, weights-le cs)

-- A step on a closed acceptor.
abbrev pub Falls : Listener → Outcome → Type 0
Falls l (done l') = (l'.is_open ≡ false) × (suc (measure l') ≤ measure l)
Falls l impossible = Unit
Falls l crashed = Unit

module _ (l : Listener) (closed : l.is_open ≡ false) where
  fail-Falls : (n : ℕ) → l.started ≡ n → Falls l (fail n l)
  unfolding fail
  fail-Falls zero e = tt
  fail-Falls (suc n) e = (closed, omega (arith, e, weights-append l.completions (failed ∷ [])))

  accept-Falls : (n client : ℕ) → Falls l (accept n client l)
  unfolding accept
  accept-Falls zero client = tt
  accept-Falls (suc n) client = rw closed tt

  handle_first-Falls : (cs : List Completion) → l.completions ≡ cs → Falls l (handle_first cs l)
  unfolding handle_first handle listening
  handle_first-Falls [] e = tt
  handle_first-Falls (accepted client ∷ cs) e = (closed, omega (arith, ap weights e))
  handle_first-Falls (aborted ∷ cs) e = (closed, omega (arith, ap weights e))
  handle_first-Falls (failed ∷ cs) e = rw closed (refl, omega (arith, ap weights e))

  pub step-Falls : (m : Move) → IsInternal m → Falls l (step m l)
  unfolding step
  step-Falls fails i = fail-Falls l.started refl
  step-Falls handles i = handle_first-Falls l.completions refl
  step-Falls (accepts client) i = accept-Falls l.started client
  step-Falls (listens granted) i = absurd i
  step-Falls stops i = absurd i

Outcome-cases : (o : Outcome) → ((l : Listener) × (o ≡ done l)) ⊎ ((l : Listener) → o ≢ done l)
Outcome-cases (done l) = inl (l, refl)
Outcome-cases impossible = inr (λ l e. cc)
Outcome-cases crashed = inr (λ l e. cc)

run-le :
    (ms : List Move) (l l' : Listener)
    → l.is_open ≡ false
    → All IsInternal ms
    → run ms l ≡ done l'
    → length ms ≤ measure l
unfolding run
run-le [] l l' closed is e = omega arith
run-le (m ∷ ms) l l' closed (i, is) e = elim (Outcome-cases (step m l)) [
  | inr n ↦ absurd (stuck (step m l) n e)
  | inl (l1, f) ↦
      let (closed', less) = subst (Falls l) f (step-Falls l closed m i) in
      omega (arith, less, run-le ms l1 l' closed' is (sym (ap rest f) ∙ e))
]
  where
    rest : Outcome → Outcome
    rest o = elim o [ done l1 ↦ run ms l1 | impossible ↦ impossible | crashed ↦ crashed ]

    stuck : (o : Outcome) → ((l : Listener) → o ≢ done l) → rest o ≢ done l'
    stuck (done l1) n f = absurd (n l1 refl)
    stuck impossible n f = cc
    stuck crashed n f = cc

weights-aborted : (n : ℕ) → weights (replicate n aborted) ≡ n
weights-aborted zero = refl
weights-aborted (suc n) = omega (arith, weights-aborted n)

pub stop-le :
    (l : Listener)
    → ((stop l).is_open ≡ false) × (measure (stop l) ≤ 3 * (l.started + length l.completions))
unfolding stop abort
stop-le l = elim (Bool-cases l.is_open) [
  | inr e ↦ rw e (refl, omega (arith, weights-le l.completions))
  | inl e ↦ rw e (
    refl,
    omega (
      arith,
      weights-le l.completions,
      weights-append l.completions (replicate l.started aborted),
      weights-aborted l.started,
    ),
  )
]

-- After `stop`, the accept loop ends, whatever was under way: until `listen` is called again, asio and
-- the handlers take at most three steps for each accept that was started, and for each handler that
-- was still to be called.
pub stop-ends :
    (l l' : Listener) (ms : List Move)
    → All IsInternal ms
    → run ms (stop l) ≡ done l'
    → length ms ≤ 3 * (l.started + length l.completions)
stop-ends l l' ms is e =
    let (closed, le) = stop-le l in omega (arith, le, run-le ms (stop l) l' closed is e)
