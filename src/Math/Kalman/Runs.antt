-- ===== src/Math/Kalman/Runs.antt =====
-- `run` of a filter whose matrices fit.
use common_lib.Common.{ℕ, ◌<◌, ◌≡◌, ap, sym, subst, Bool, true, inl, inr, if◌then◌else◌, false, ◌⊎◌}
use common_lib.Math.Result.{Result, returns, throws, undefined, ◌>>=◌}
use common_lib.Math.Matrix.{Scalar, Matrix, transpose, combine, add, sub, mul, inverse}
use common_lib.Math.Matrix.Laws.{HasSize}
use common_lib.Math.Matrix.Determinant.{det}
use common_lib.Math.Kalman.{Kalman, predict_covariance, innovation, gain, estimate, correct, run}
use common_lib.Math.Kalman.Safety.{
  Safe, Safe-bind, Fits, mul-Safe, transpose-Safe, combine-Safe, assign-undefined, inverse-Safe,
}

module _ {ℓ} {T : Type ℓ} ⦃t : Scalar T⦄ (junk : T) where
  -- The state that `run` computes, up to its assignment.
  abbrev pub new_state : Kalman T → Matrix T → Matrix T → Result (Matrix T)
  new_state f a z = do
    xp ← mul junk a f.x
    pp ← predict_covariance junk a f.p f.q
    k ← gain junk f.h pp f.r
    estimate junk f.h k xp z

module _ {ℓ κ} {T : Type ℓ} ⦃t : Scalar T⦄ (junk : T) (W : Type κ) where
  module _ (n m : ℕ) (states : 0 < n) (measures : 0 < m) where
    predict_covariance-Safe :
        (a p q : Matrix T)
        → HasSize n n a
        → HasSize n n p
        → HasSize n n q
        → Safe W (HasSize n n) (predict_covariance junk a p q)
    unfolding predict_covariance add
    predict_covariance-Safe a p q ha hp hq =
        Safe-bind (HasSize n n) _ (mul junk a p) _ (mul-Safe junk W n n n a p states ha hp)
          (λ ap _ hap.
            Safe-bind (HasSize n n) _ (transpose junk a) _ (transpose-Safe junk W n n a ha)
              (λ at _ hat.
                Safe-bind (HasSize n n) _ (mul junk ap at) _
                  (mul-Safe junk W n n n ap at states hap hat)
                  (λ apat _ hapat. combine-Safe junk W t.add n n apat q hapat hq)))

    pub innovation-Safe :
        (h pp r : Matrix T)
        → HasSize m n h
        → HasSize n n pp
        → HasSize m m r
        → Safe W (HasSize m m) (innovation junk h pp r)
    unfolding innovation add
    innovation-Safe h pp r hh hp hr =
        Safe-bind (HasSize m n) _ (mul junk h pp) _ (mul-Safe junk W m n n h pp states hh hp)
          (λ hpp _ k1.
            Safe-bind (HasSize n m) _ (transpose junk h) _ (transpose-Safe junk W m n h hh)
              (λ ht _ k2.
                Safe-bind (HasSize m m) _ (mul junk hpp ht) _
                  (mul-Safe junk W m n m hpp ht states k1 k2)
                  (λ hpht _ k3. combine-Safe junk W t.add m m hpht r k3 hr)))

    gain-Safe :
        (h pp r : Matrix T)
        → HasSize m n h
        → HasSize n n pp
        → HasSize m m r
        → ((s : Matrix T)
            → innovation junk h pp r ≡ returns s
            → t.is_nought (det junk s.cell m) ≡ true
            → W)
        → Safe W (HasSize n m) (gain junk h pp r)
    unfolding gain
    gain-Safe h pp r hh hp hr w =
        Safe-bind (HasSize n m) _ (transpose junk h) _ (transpose-Safe junk W m n h hh) (λ ht _ k1.
          Safe-bind (HasSize n m) _ (mul junk pp ht) _ (mul-Safe junk W n n m pp ht states hp k1)
            (λ pht _ k2.
              Safe-bind (HasSize m m) _ (innovation junk h pp r) _ (innovation-Safe h pp r hh hp hr)
                (λ s e k3.
                  Safe-bind (HasSize m m) _ (inverse junk s) _
                    (inverse-Safe junk W m s measures k3 (w s e))
                    (λ s' _ k4. mul-Safe junk W n m m pht s' measures k2 k4))))

    estimate-Safe :
        (h k xp z : Matrix T)
        → HasSize m n h
        → HasSize n m k
        → HasSize n 1 xp
        → HasSize m 1 z
        → Safe W (HasSize n 1) (estimate junk h k xp z)
    unfolding estimate add sub
    estimate-Safe h k xp z hh hk hx hz =
        Safe-bind (HasSize m 1) _ (mul junk h xp) _ (mul-Safe junk W m n 1 h xp states hh hx)
          (λ hxp _ k1.
            Safe-bind (HasSize m 1) _ (combine junk t.sub z hxp) _
              (combine-Safe junk W t.sub m 1 z hxp hz k1)
              (λ y _ k2.
                Safe-bind (HasSize n 1) _ (mul junk k y) _
                  (mul-Safe junk W n m 1 k y measures hk k2)
                  (λ ky _ k3. combine-Safe junk W t.add n 1 xp ky hx k3)))

    new_state-Safe :
        (f : Kalman T) (a z : Matrix T)
        → Fits n m f
        → HasSize n n a
        → HasSize m 1 z
        → ((pp s : Matrix T)
            → predict_covariance junk a f.p f.q ≡ returns pp
            → innovation junk f.h pp f.r ≡ returns s
            → t.is_nought (det junk s.cell m) ≡ true
            → W)
        → Safe W (HasSize n 1) (new_state junk f a z)
    new_state-Safe f a z (hh, hq, hr, hx, hp) ha hz w =
        Safe-bind (HasSize n 1) _ (mul junk a f.x) _ (mul-Safe junk W n n 1 a f.x states ha hx)
          (λ xp _ k1.
            Safe-bind (HasSize n n) _ (predict_covariance junk a f.p f.q) _
              (predict_covariance-Safe a f.p f.q ha hp hq)
              (λ pp e k2.
                Safe-bind (HasSize n m) _ (gain junk f.h pp f.r) _
                  (gain-Safe f.h pp f.r hh k2 hr (λ s. w pp s e))
                  (λ k _ k3. estimate-Safe f.h k xp z hh k3 k1 hz)))

    -- It throws, and then `W`, or its end is not defined.
    abbrev Ends {μ} : {S : Type μ} → Result S → Type (κ ⊔ μ)
    Ends r = (r ≡ undefined) ⊎ (W × (r ≡ throws))

    Ends-bind {μ ν ξ} :
        {A : Type μ} {B : Type ν} (P : A → Type ξ) (r : Result A) (f : A → Result B)
        → Safe W P r
        → ((a : A) → r ≡ returns a → P a → Ends (f a))
        → Ends (r >>= f)
    Ends-bind P r f (inl (a, e, p)) h = subst (λ r. Ends (r >>= f)) (sym e) (h a e p)
    Ends-bind P r f (inr (w, e)) h = inr (w, ap (λ r. r >>= f) e)

    ended {μ ν} :
        {A : Type μ} {B : Type ν} (r : Result A) (f : A → Result B)
        → r ≡ undefined
        → (r >>= f) ≡ undefined
    ended r f e = ap (λ r'. r' >>= f) e

    correct-Ends :
        (f : Kalman T) (a z : Matrix T)
        → Fits n m f
        → HasSize n n a
        → HasSize m 1 z
        → ((pp s : Matrix T)
            → predict_covariance junk a f.p f.q ≡ returns pp
            → innovation junk f.h pp f.r ≡ returns s
            → t.is_nought (det junk s.cell m) ≡ true
            → W)
        → Ends (correct junk f a z)
    unfolding correct
    correct-Ends f a z (hh, hq, hr, hx, hp) ha hz w =
        Ends-bind (HasSize n 1) (mul junk a f.x) _ (mul-Safe junk W n n 1 a f.x states ha hx)
          (λ xp _ k1.
            Ends-bind (HasSize n n) (predict_covariance junk a f.p f.q) _
              (predict_covariance-Safe a f.p f.q ha hp hq)
              (λ pp e k2.
                Ends-bind (HasSize n m) (gain junk f.h pp f.r) _
                  (gain-Safe f.h pp f.r hh k2 hr (λ s. w pp s e))
                  (λ k _ k3.
                    Ends-bind (HasSize n 1) (estimate junk f.h k xp z) _
                      (estimate-Safe f.h k xp z hh k3 k1 hz)
                      (λ x _ k4. inl (ended _ _ (assign-undefined junk W n 1 f.x x hx k4))))))

module _ {ℓ} {T : Type ℓ} ⦃t : Scalar T⦄ (junk : T) where
  -- The determinant of the innovation covariance tests equal to nought.
  abbrev pub IsSingular : ℕ → Kalman T → Matrix T → Type ℓ
  IsSingular m f a =
      (pp s : Matrix T) × (predict_covariance junk a f.p f.q ≡ returns pp)
      × (innovation junk f.h pp f.r ≡ returns s)
      × (t.is_nought (det junk s.cell m) ≡ true)

  -- For at least one state and one measurement, a filter that is not at its first call, and matrices
  -- that fit: unless the determinant of the innovation covariance tests equal to nought, the new state
  -- is computed, with its size and without an access out of bounds, and then the end of `run` is not
  -- defined, because the assignment of the state has no `return`. If it tests so, `run` may throw.
  pub run-undefined :
      (n m : ℕ)
      → 0 < n
      → 0 < m
      → (f : Kalman T) (a z : Matrix T) → f.first ≡ false
      → Fits n m f
      → HasSize n n a
      → HasSize m 1 z
      → Safe (IsSingular m f a) (HasSize n 1) (new_state junk f a z)
        × ((run junk f a z ≡ undefined) ⊎ (IsSingular m f a × (run junk f a z ≡ throws)))
  unfolding run
  run-undefined n m states measures f a z later fits ha hz = (
    new_state-Safe junk (IsSingular m f a) n m states measures f a z fits ha hz w,
    subst (λ r. (r ≡ undefined) ⊎ (IsSingular m f a × (r ≡ throws))) (sym (ap end later))
        (correct-Ends junk (IsSingular m f a) n m states measures f a z fits ha hz w),
  )
    where
      w :
          (pp s : Matrix T)
          → predict_covariance junk a f.p f.q ≡ returns pp
          → innovation junk f.h pp f.r ≡ returns s
          → t.is_nought (det junk s.cell m) ≡ true
          → IsSingular m f a
      w pp s e f' g = (pp, s, e, f', g)

      end : Bool → Result (Kalman T)
      end b = if b then returns (record f { first = false }) else correct junk f a z
