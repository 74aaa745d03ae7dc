-- ===== src/Asio/Udp/Laws.antt =====
-- What a receive loop hands to its user.
use mathlib.Core.List.{map-append}
use common_lib.Common.{
  ◌⊎◌, ◌≢◌, ℕ, ◌+◌, ◌≤◌, ◌≡◌, refl, ap, ap₂, sym, ◌∙◌, subst, arith, Bool, inl, inr, List, [], ◌∷◌,
  ◌++◌, map, append_assoc, append-nil, length, length-replicate, length-replicate,
}
use common_lib.Asio.Udp.{Udp, Outcome, done, impossible, crashed, create, Move, step, run}
use common_lib.Asio.Udp.Steps.{
  arrivals_of, arrivals, calls_of, calls, delivered, waiting, cut, so_far, tasks, Goes, step-Goes,
}

Outcome-cases : (o : Outcome) → ((u : Udp) × (o ≡ done u)) ⊎ ((u : Udp) → o ≢ done u)
Outcome-cases (done u) = inl (u, refl)
Outcome-cases impossible = inr (λ u e. cc)
Outcome-cases crashed = inr (λ u e. cc)

run-so_far :
    (ms : List Move) (u u' : Udp)
    → tasks u + calls ms ≤ 1
    → run ms u ≡ done u'
    → so_far u' ≡ so_far u ++ map (cut (length u.buffer)) (arrivals ms)
unfolding run
run-so_far [] u u' one e = subst (Ends u) e (sym (append-nil (so_far u)))
  where
    Ends : Udp → Outcome → Type 0
    Ends u (done u') = so_far u' ≡ so_far u ++ []
    Ends u _ = Unit
run-so_far (m ∷ ms) u u' one e = elim (Outcome-cases (step m u)) [
  | inr n ↦ absurd (stuck (step m u) n e)
  | inl (u1, f) ↦
      let (size, few, now) =
        subst (Goes u (calls_of m) (arrivals_of m)) f (step-Goes u m (omega (arith, one))) in
      run-so_far ms u1 u' (omega (arith, few, one)) (sym (ap rest f) ∙ e)
      ∙ ap₂ (λ k xs. xs ++ map (cut k) (arrivals ms)) size now
      ∙ append_assoc (so_far u) (map (cut (length u.buffer)) (arrivals_of m))
          (map (cut (length u.buffer)) (arrivals ms))
      ∙ ap (λ xs. so_far u ++ xs)
          (sym (map-append (cut (length u.buffer)) (arrivals_of m) (arrivals ms)))
]
  where
    rest : Outcome → Outcome
    rest o = elim o [ done u1 ↦ run ms u1 | impossible ↦ impossible | crashed ↦ crashed ]

    stuck : (o : Outcome) → ((u : Udp) → o ≢ done u) → rest o ≢ done u'
    stuck (done u1) n f = absurd (n u1 refl)
    stuck impossible n f = cc
    stuck crashed n f = cc

-- A new socket on which `receive` is called at most once, and that is not destroyed with a handler
-- still to be called that would use it: whatever else its user and the network do, and in any order,
-- the datagrams that arrive, each cut to the size of the buffer, are those that the handler was
-- called with, in order and each once, and the one that may still wait for its handler.
pub run-delivers :
    (buffer_max_size : ℕ) (reports : Bool) (ms : List Move) (u : Udp)
    → calls ms ≤ 1
    → run ms (create buffer_max_size reports) ≡ done u
    → delivered u.log ++ waiting u ≡ map (cut buffer_max_size) (arrivals ms)
unfolding create
run-delivers size reports ms u one e =
    run-so_far ms (create size reports) u (omega (arith, one)) e
    ∙ ap (λ k. map (cut k) (arrivals ms)) (length-replicate size 0)
