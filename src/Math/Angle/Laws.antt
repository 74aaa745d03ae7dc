-- ===== src/Math/Angle/Laws.antt =====
-- Angles as matrices and back.
use common_lib.Common.{ℕ, ◌≡◌, ◌≢◌, ◌⊎◌, inl, inr, refl, arith, true, not, ◌||◌, ◌==◌}
use common_lib.Math.Result.{returns, throws, ◌>>=◌}
use common_lib.Math.Matrix.{Matrix, create, read, write}
use common_lib.Math.Angle.{
  Euler, Quaternion, euler_to_matrix, euler_from_matrix, quaternion_to_matrix,
  quaternion_from_matrix,
}

module _ {ℓ} {T : Type ℓ} where
  misfits :
      (m : Matrix T) (n : ℕ)
      → (m.row ≢ n) ⊎ (m.col ≢ 1)
      → not (m.col == 1) || not (m.row == n) ≡ true
  misfits m n (inl h) = ground arith
  misfits m n (inr h) = ground arith

  -- The angles of an Euler and the parts of a quaternion come back from the matrix that they are
  -- written to, and a matrix of any other size is refused.
  pub from_matrix-to_matrix :
      (junk : T) (e : Euler T) (q : Quaternion T) (m : Matrix T)
      → ((euler_to_matrix junk e >>= euler_from_matrix) ≡ returns e)
        × ((quaternion_to_matrix junk q >>= quaternion_from_matrix) ≡ returns q)
        × ((m.row ≢ 3) ⊎ (m.col ≢ 1) → euler_from_matrix m ≡ throws)
        × ((m.row ≢ 4) ⊎ (m.col ≢ 1) → quaternion_from_matrix m ≡ throws)
  unfolding euler_to_matrix euler_from_matrix quaternion_to_matrix quaternion_from_matrix create
      read write
  from_matrix-to_matrix junk e q m =
      (refl, refl, λ h. rw (misfits m 3 h) refl, λ h. rw (misfits m 4 h) refl)
