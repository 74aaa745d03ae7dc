-- ===== src/Math/Filter.antt =====
-- `LowPassFilter` and `KalmanFilter` of a scalar, of
-- extension/math/include/common/extension/math/filter. `T` and its operators are the parameter Scalar.
pub mod Laws
mod Tests
use common_lib.Common.{Bool, true, false, List, [], ◌∷◌, if◌then◌else◌}
use common_lib.Math.Matrix.{Scalar}

pub record LowPass {ℓ} (T : Type ℓ) : Type ℓ where
  pub prev : T
  pub alpha : T
  pub first : Bool

-- `q` and `r` are the noises, and `p` is the covariance.
pub record ScalarKalman {ℓ} (T : Type ℓ) : Type ℓ where
  pub q : T
  pub r : T
  pub p : T

module _ {ℓ} {T : Type ℓ} where
  unfoldable pub create_low_pass : T → T → LowPass T
  create_low_pass init alpha = record { prev = init; alpha = alpha; first = true }

  unfoldable pub create_kalman : T → T → T → ScalarKalman T
  create_kalman q r p = record { q = q; r = r; p = p }

module _ {ℓ} {T : Type ℓ} ⦃t : Scalar T⦄ where
  -- The filter afterwards, and what `run` returns.
  unfoldable pub low_pass : LowPass T → T → LowPass T × T
  low_pass f x =
      let before = if f.first then x else f.prev in
      let prev = t.add (t.mul f.alpha before) (t.mul (t.sub t.one f.alpha) x) in
      (record f { prev = prev; first = false }, prev)

  unfoldable pub correct : ScalarKalman T → T → T → ScalarKalman T × T
  correct f measurement prediction =
      let p = t.add f.p f.q in
      let k = t.div p (t.add p f.r) in
      let xp = t.add prediction (t.mul k (t.sub measurement prediction)) in
      (record f { p = t.mul (t.sub t.one k) p }, xp)

  -- What `run` returns for these samples, one after the other.
  unfoldable pub low_passes : LowPass T → List T → List T
  unfolding low_pass
  low_passes f [] = []
  low_passes f (x ∷ xs) = let (f', y) = low_pass f x in y ∷ low_passes f' xs
