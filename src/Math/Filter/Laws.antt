-- ===== src/Math/Filter/Laws.antt =====
-- The filters in exact arithmetic.
use common_lib.Common.{ℕ, zero, suc, ◌≡◌, refl, ap, ap₂, sym, ◌∙◌, false, ◌∷◌, replicate}
use common_lib.Math.Matrix.{Scalar}
use common_lib.Math.Ring.{IsRing}
use common_lib.Math.Filter.{ScalarKalman, create_low_pass, low_pass, low_passes, correct}

module _ {ℓ} {T : Type ℓ} (t : Scalar T) (r : IsRing t) where
  -- Two parts of one value, where the weights add up to one.
  blend : (a x : T) → t.add (t.mul a x) (t.mul (t.sub t.one a) x) ≡ x
  blend a x =
      ap₂ t.add (r.mul_comm a x) (r.mul_comm (t.sub t.one a) x)
      ∙ sym (r.mul_add x a (t.sub t.one a))
      ∙ ap (t.mul x) (r.add_comm a (t.sub t.one a) ∙ r.sub_add t.one a)
      ∙ r.mul_one x

  -- `k` is the share of `p` in `p + n`.
  module _ (p n k : T) (share : t.mul k (t.add p n) ≡ p) where
    estimate_lem :
        (z x : T)
        → t.mul (t.add p n) (t.add x (t.mul k (t.sub z x))) ≡ t.add (t.mul n x) (t.mul p z)
    estimate_lem z x =
        r.mul_add (t.add p n) x (t.mul k (t.sub z x))
        ∙ ap₂ t.add (r.mul_comm (t.add p n) x ∙ r.mul_add x p n) (
            sym (r.mul_assoc (t.add p n) k (t.sub z x))
            ∙ ap (λ c. t.mul c (t.sub z x)) (r.mul_comm (t.add p n) k ∙ share))
        ∙ ap (λ c. t.add c (t.mul p (t.sub z x)))
            (r.add_comm (t.mul x p) (t.mul x n) ∙ ap₂ t.add (r.mul_comm x n) (r.mul_comm x p))
        ∙ r.add_assoc (t.mul n x) (t.mul p x) (t.mul p (t.sub z x))
        ∙ ap (t.add (t.mul n x)) (
            r.add_comm (t.mul p x) (t.mul p (t.sub z x))
            ∙ sym (r.mul_add p (t.sub z x) x)
            ∙ ap (t.mul p) (r.sub_add z x))

    rest : t.mul (t.add p n) (t.sub t.one k) ≡ n
    rest =
        sym (r.add_sub (t.mul (t.add p n) (t.sub t.one k)) p)
        ∙ ap (λ c. t.sub c p)
            (ap (t.add (t.mul (t.add p n) (t.sub t.one k))) (sym share ∙ r.mul_comm k (t.add p n))
              ∙ sym (r.mul_add (t.add p n) (t.sub t.one k) k)
              ∙ ap (t.mul (t.add p n)) (r.sub_add t.one k)
              ∙ r.mul_one (t.add p n)
              ∙ r.add_comm p n)
        ∙ r.add_sub n p

    covariance_lem : t.mul (t.add p n) (t.mul (t.sub t.one k) p) ≡ t.mul n p
    covariance_lem = sym (r.mul_assoc (t.add p n) (t.sub t.one k) p) ∙ ap (λ c. t.mul c p) rest

-- In exact arithmetic, where a division by `_P + _Q + _R` undoes a multiplication: the estimate of the
-- filter of scalars is the mean of the prediction, with weight `_R`, and the measurement, with weight
-- `_P + _Q`, and the covariance becomes the product of the two weights over their sum.
pub correct_mean {ℓ} :
    {T : Type ℓ} ⦃t : Scalar T⦄ (r : IsRing t) (f : ScalarKalman T) (measurement prediction : T)
    → ((x : T) → t.mul (t.div x (t.add (t.add f.p f.q) f.r)) (t.add (t.add f.p f.q) f.r) ≡ x)
    → (t.mul (t.add (t.add f.p f.q) f.r) (correct f measurement prediction).1
        ≡ t.add (t.mul f.r prediction) (t.mul (t.add f.p f.q) measurement))
      × (t.mul (t.add (t.add f.p f.q) f.r) (correct f measurement prediction).0.p
          ≡ t.mul f.r (t.add f.p f.q))
unfolding correct
correct_mean ⦃t⦄ r f measurement prediction undoes = (
  estimate_lem t r (t.add f.p f.q) f.r _ (undoes (t.add f.p f.q)) measurement prediction,
  covariance_lem t r (t.add f.p f.q) f.r _ (undoes (t.add f.p f.q)),
)

settled {ℓ} :
    {T : Type ℓ} ⦃t : Scalar T⦄ (r : IsRing t) (alpha x y : T) (n : ℕ)
    → y ≡ x
    → low_passes (record { prev = y; alpha = alpha; first = false }) (replicate n x) ≡ replicate n x
unfolding low_passes low_pass
settled r alpha x y zero e = refl
settled ⦃t⦄ r alpha x y (suc n) e =
    let same =
      ap (λ b. t.add (t.mul alpha b) (t.mul (t.sub t.one alpha) x)) e ∙ blend t r alpha x in
    ap₂ ◌∷◌ same (settled r alpha x _ n same)

-- In exact arithmetic: while the samples of a low-pass filter stay the same, it returns them as they
-- are, whatever its first value and its weight.
pub low_passes-constant {ℓ} :
    {T : Type ℓ} ⦃t : Scalar T⦄ (r : IsRing t) (init alpha x : T) (n : ℕ)
    → low_passes (create_low_pass init alpha) (replicate n x) ≡ replicate n x
unfolding create_low_pass low_passes low_pass
low_passes-constant r init alpha x zero = refl
low_passes-constant ⦃t⦄ r init alpha x (suc n) =
    ap₂ ◌∷◌ (blend t r alpha x) (settled r alpha x _ n (blend t r alpha x))
