-- ===== src/Threading/ActiveRunnable/Schedules.antt =====
-- Induction on the schedules of an `ActiveRunnable`.
use common_lib.Common.{
  ◌≡◌, ◌≢◌, ap, sym, ◌∙◌, subst, inl, inr, Option, none, some, List, [], ◌∷◌, Option-cases,
}
use common_lib.Threading.ActiveRunnable.{Runner, Move, step, run}

module _ {ℓ κ} {A : Type ℓ} where
  -- What holds after a step that brings the requests of its move.
  abbrev pub After : (Runner A → Type κ) → Option (Runner A) → Type κ
  After P none = Unit
  After P (some r) = P r

  -- A property of the schedule that is left and the state, kept by each step, holds at the end.
  pub run-After :
      (P : List (Move A) → Runner A → Type κ)
      → ((m : Move A) (ms : List (Move A)) (r : Runner A) → P (m ∷ ms) r → After (P ms) (step m r))
      → (ms : List (Move A)) (r r' : Runner A) → P ms r
      → run ms r ≡ some r'
      → P [] r'
  unfolding run
  run-After P h [] r r' v e = subst (P []) (some-injective e) v
    where
      some-injective : some r ≡ some r' → r ≡ r'
      some-injective e = cc
  run-After P h (m ∷ ms) r r' v e = elim (Option-cases (step m r)) [
    | inl f ↦ absurd (none-some (ap next (sym f) ∙ e))
    | inr (r1, f) ↦
        run-After P h ms r1 r' (subst (After (P ms)) f (h m ms r v)) (ap next (sym f) ∙ e)
  ]
    where
      next : Option (Runner A) → Option (Runner A)
      next o = elim o [ none ↦ none | some r1 ↦ run ms r1 ]

      none-some : none ≢ some r'
      none-some f = cc
