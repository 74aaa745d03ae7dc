-- ===== src/Math/Matrix/Tests.antt =====
-- Runs of extension/math/include/common/extension/math/matrix.hpp over the residues modulo 7.
use common_lib.Common.{ℕ, ◌+◌, ◌-◌, ◌*◌, ◌%◌, ◌^◌, ◌≡◌, refl, arith, if◌then◌else◌, ◌==◌}
use common_lib.Math.Result.{Result, returns, throws, undefined, Reaches, for_each}
use common_lib.Math.Matrix.{
  Scalar, Matrix, create, read, write, traversal, copy, transpose, scale, div, emit, minor, gather,
  determine, cofactor, inverse_of, inverse,
}
use common_lib.Math.Matrix.Laws.{IsMatrix}
use common_lib.Math.Matrix.Determinant.{det, determine_lem}
use common_lib.Math.Matrix.Inverse.{cofactor_at, inverse_lem}

instance mod_seven : Scalar ℕ
mod_seven = record {
  nought = 0;
  one = 1;
  minus_one = 6;
  add = λ a b. (a + b) % 7;
  sub = λ a b. (a + 7 - b) % 7;
  mul = λ a b. (a * b) % 7;
  div = λ a b. (a * b ^ 5) % 7;
  is_nought = λ a. a == 0;
  is_one = λ a. a == 1;
}

abbrev two_by_two : Matrix ℕ
two_by_two = record { row = 2; col = 2; cell = λ r c. if r == c then 2 else 1 }

abbrev three_by_three : Matrix ℕ
three_by_three = record { row = 3; col = 3; cell = λ r c. if r == c then 2 else r }

abbrev two_by_three : Matrix ℕ
two_by_three = record { row = 2; col = 3; cell = λ r c. r + c }

abbrev one_by_one : Matrix ℕ
one_by_one = record { row = 1; col = 1; cell = λ r c. 3 }

-- The element at a place, or 100.
abbrev at : ℕ → ℕ → Result (Matrix ℕ) → ℕ
at r c (returns m) = m.cell r c
at r c throws = 100
at r c undefined = 100

determine_lem_example : determine 9 three_by_three 3 ≡ returns (det 9 three_by_three.cell 3)
determine_lem_example = determine_lem 9 3 three_by_three refl (omega arith)

inverse_lem_example :
    Reaches
      (IsMatrix 2 2 (λ i j. (cofactor_at 9 two_by_two j i * 3 ^ 5) % 7))
      (inverse 9 two_by_two)
unfolding det mod_seven
inverse_lem_example = inverse_lem 9 two_by_two refl (omega arith) refl refl

-- The determinant of a matrix with three rows.
determine_three : determine 9 three_by_three 3 ≡ returns 4
unfolding determine create read write minor emit for_each mod_seven
determine_three = refl

-- The first place of an inverse.
inverse_two : at 0 0 (inverse 9 two_by_two) ≡ 3
unfolding inverse inverse_of determine create read write gather emit for_each traversal cofactor
    mod_seven transpose div copy
inverse_two = refl

-- `2 * m` writes out of bounds unless the matrix is square.
scale_wide : scale 9 2 two_by_three ≡ undefined
unfolding scale traversal create read write for_each mod_seven
scale_wide = refl

-- The inverse of a matrix with one row is 0.
inverse_one_row : at 0 0 (inverse 9 one_by_one) ≡ 0
unfolding inverse inverse_of determine create read write gather emit for_each traversal cofactor
    mod_seven transpose div copy
inverse_one_row = refl
