-- ===== src/Observer/Laws.antt =====
-- Whom a subject notifies.
use common_lib.Common.{
  ℕ, ◌≡◌, refl, ap, sym, ◌∙◌, arith, inl, inr, Bool, false, ◌||◌, List, [], ◌∷◌, ◌++◌, append_assoc,
  append-nil, map, if◌then◌else◌, ◌==◌, Bool-cases,
}
use common_lib.Observer.{regist, unregist, notify, Use, registers, unregisters, run}

-- Whether an observer is unregistered in a history.
unfoldable pub leaves : ℕ → List Use → Bool
leaves o [] = false
leaves o (registers u ∷ us) = leaves o us
leaves o (unregisters u ∷ us) = (o == u) || leaves o us

-- The registrations that no later call takes back, in order.
unfoldable pub standing : List Use → List ℕ
standing [] = []
standing (registers o ∷ us) = if leaves o us then standing us else o ∷ standing us
standing (unregisters o ∷ us) = standing us

-- The observers that a history leaves in place.
abbrev staying : List Use → List ℕ → List ℕ
staying us [] = []
staying us (o ∷ os) = if leaves o us then staying us os else o ∷ staying us os

staying-append :
    (us : List Use) (xs ys : List ℕ) → staying us (xs ++ ys) ≡ staying us xs ++ staying us ys
staying-append us [] ys = refl
staying-append us (x ∷ xs) ys = ground (arith, staying-append us xs ys)

staying-nil : (os : List ℕ) → staying [] os ≡ os
unfolding leaves
staying-nil [] = refl
staying-nil (o ∷ os) = ap (λ l. o ∷ l) (staying-nil os)

staying-unregist :
    (u : ℕ) (us : List Use) (os : List ℕ)
    → staying us (unregist u os) ≡ staying (unregisters u ∷ us) os
unfolding unregist leaves
staying-unregist u us [] = refl
staying-unregist u us (o ∷ os) = elim (Bool-cases (o == u)) [
  | inl e ↦ rw e (staying-unregist u us os)
  | inr e ↦ rw e (ground (arith, staying-unregist u us os))
]

staying-registers :
    (u : ℕ) (us : List Use) (os : List ℕ) → staying (registers u ∷ us) os ≡ staying us os
unfolding leaves
staying-registers u us [] = refl
staying-registers u us (o ∷ os) = ground (arith, staying-registers u us os)

run-staying : (us : List Use) (os : List ℕ) → run us os ≡ staying us os ++ standing us
unfolding run standing regist
run-staying [] os = sym (append-nil (staying [] os) ∙ staying-nil os)
run-staying (registers u ∷ us) os =
    run-staying us (os ++ u ∷ [])
    ∙ ap (λ l. l ++ standing us) (staying-append us os (u ∷ []))
    ∙ append_assoc (staying us os) (staying us (u ∷ [])) (standing us)
    ∙ ap (λ l. staying us os ++ l) last
    ∙ ap (λ l. l ++ standing (registers u ∷ us)) (sym (staying-registers u us os))
  where
    last : staying us (u ∷ []) ++ standing us ≡ standing (registers u ∷ us)
    last = unfold standing in ground arith
run-staying (unregisters u ∷ us) os =
    run-staying us (unregist u os) ∙ ap (λ l. l ++ standing us) (staying-unregist u us os)

-- After any registrations and unregistrations an event goes, in order, to the observers of just
-- those registrations that no later call takes back, once for each.
pub notify-run {ℓ} :
    (A : Type ℓ) (args : A) (us : List Use)
    → notify args (run us []) ≡ map (λ o. (o, args)) (standing us)
unfolding notify
notify-run A args us = ap (map (λ o. (o, args))) (run-staying us [])
