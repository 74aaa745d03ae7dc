-- ===== src/Math/Kalman.antt =====
-- `KalmanFilter<Matrix<T>>` of extension/math/include/common/extension/math/filter/KalmanFilter.hpp,
-- over Math/Matrix, with the assignment operator of Matrix, which never returns.
pub mod Safety
pub mod Runs
pub mod Single
mod Tests
use common_lib.Common.{ℕ, Bool, true, false, if◌then◌else◌}
use common_lib.Math.Result.{Result, returns, throws, undefined, ◌>>=◌}
use common_lib.Math.Matrix.{
  Scalar, Matrix, read, write, traversal, same_size, transpose, add, sub, mul, inverse,
}

-- `x` is the state and `p` its covariance.
pub record Kalman {ℓ} (T : Type ℓ) : Type ℓ where
  pub h : Matrix T
  pub q : Matrix T
  pub r : Matrix T
  pub x : Matrix T
  pub p : Matrix T
  pub first : Bool

unfoldable pub create {ℓ} :
    {T : Type ℓ} → Matrix T → Matrix T → Matrix T → Matrix T → Matrix T → Kalman T
create h q r x p = record { h = h; q = q; r = r; x = x; p = p; first = true }

-- `operator=` of a matrix. It has no `return`, though it is declared to return a matrix, so its end is
-- undefined.
unfoldable pub assign {ℓ} : {T : Type ℓ} → Matrix T → Matrix T → Result (Matrix T)
assign to from =
    if same_size to from
    then traversal to.row to.col (λ r c m. do value ← read from r c; write m r c value) to
      >>= (λ m. undefined)
    else throws

module _ {ℓ} {T : Type ℓ} ⦃t : Scalar T⦄ (junk : T) where
  -- `A * _P * A.transpose() + _Q`.
  unfoldable pub predict_covariance : Matrix T → Matrix T → Matrix T → Result (Matrix T)
  predict_covariance a p q = do
    ap ← mul junk a p
    at ← transpose junk a
    apat ← mul junk ap at
    add junk apat q

  -- `_H * Pp * _H.transpose() + _R`.
  unfoldable pub innovation : Matrix T → Matrix T → Matrix T → Result (Matrix T)
  innovation h pp r = do
    hpp ← mul junk h pp
    ht ← transpose junk h
    hpht ← mul junk hpp ht
    add junk hpht r

  -- `(Pp * _H.transpose()) * util::inverse(_H * Pp * _H.transpose() + _R)`.
  unfoldable pub gain : Matrix T → Matrix T → Matrix T → Result (Matrix T)
  unfolding innovation
  gain h pp r = do
    ht ← transpose junk h
    pht ← mul junk pp ht
    s ← innovation h pp r
    s' ← inverse junk s
    mul junk pht s'

  -- `xp + K * (z - (_H * xp))`.
  unfoldable pub estimate : Matrix T → Matrix T → Matrix T → Matrix T → Result (Matrix T)
  estimate h k xp z = do hx ← mul junk h xp; y ← sub junk z hx; ky ← mul junk k y; add junk xp ky

  -- `Pp - K * _H * Pp`.
  unfoldable pub update_covariance : Matrix T → Matrix T → Matrix T → Result (Matrix T)
  update_covariance h k pp = do kh ← mul junk k h; khp ← mul junk kh pp; sub junk pp khp

  -- `run` after the first call.
  unfoldable pub correct : Kalman T → Matrix T → Matrix T → Result (Kalman T)
  unfolding predict_covariance gain estimate update_covariance assign
  correct f a z = do
    xp ← mul junk a f.x
    pp ← predict_covariance a f.p f.q
    k ← gain f.h pp f.r
    x ← estimate f.h k xp z
    x' ← assign f.x x
    p ← update_covariance f.h k pp
    p' ← assign f.p p
    returns (record f { x = x'; p = p' })

  -- The filter afterwards, whose state is what `run` returns.
  unfoldable pub run : Kalman T → Matrix T → Matrix T → Result (Kalman T)
  unfolding correct
  run f a z = if f.first then returns (record f { first = false }) else correct f a z
