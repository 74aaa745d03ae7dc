-- ===== src/Math/Kalman/Tests.antt =====
-- Runs of the matrix filter over the residues modulo 7.
use common_lib.Common.{
  ℕ, ◌+◌, ◌-◌, ◌*◌, ◌%◌, ◌^◌, ◌≡◌, ◌⊎◌, refl, arith, false, if◌then◌else◌, ◌==◌,
}
use common_lib.Math.Result.{returns, throws, undefined, Reaches, for_each}
use common_lib.Math.Matrix.{
  Scalar, Matrix, create, read, write, traversal, transpose, combine, add, mul, dot,
}
use common_lib.Math.Matrix.Laws.{IsMatrix, HasSize}
use common_lib.Math.Kalman.{Kalman, innovation, gain, run}
use common_lib.Math.Kalman.Safety.{Safe}
use common_lib.Math.Kalman.Runs.{IsSingular, new_state, run-undefined}
use common_lib.Math.Kalman.Single.{gain-single}

instance mod_seven : Scalar ℕ
mod_seven = record {
  nought = 0;
  one = 1;
  minus_one = 6;
  add = λ a b. (a + b) % 7;
  sub = λ a b. (a + 7 - b) % 7;
  mul = λ a b. (a * b) % 7;
  div = λ a b. (a * b ^ 5) % 7;
  is_nought = λ a. a == 0;
  is_one = λ a. a == 1;
}

abbrev of_size : ℕ → ℕ → Matrix ℕ
of_size row col = record { row = row; col = col; cell = λ r c. if r == c then 2 else 1 }

abbrev filter : Kalman ℕ
filter = record {
  h = of_size 2 3;
  q = of_size 3 3;
  r = of_size 2 2;
  x = of_size 3 1;
  p = of_size 3 3;
  first = false;
}

run-undefined_example :
    Safe
      (IsSingular 9 2 filter (of_size 3 3))
      (HasSize 3 1)
      (new_state 9 filter (of_size 3 3) (of_size 2 1))
    × ((run 9 filter (of_size 3 3) (of_size 2 1) ≡ undefined)
        ⊎ (IsSingular 9 2 filter (of_size 3 3)
            × (run 9 filter (of_size 3 3) (of_size 2 1) ≡ throws)))
run-undefined_example =
    run-undefined 9 3 2 (omega arith) (omega arith) filter (of_size 3 3) (of_size 2 1) refl
      ((refl, refl), (refl, refl), (refl, refl), (refl, refl), (refl, refl)) (refl, refl)
      (refl, refl)

-- The innovation covariance of one measurement.
abbrev covariance : Matrix ℕ
covariance = elim (innovation 9 (of_size 1 2) (of_size 2 2) (of_size 1 1)) [
  | returns s ↦ s
  | throws ↦ of_size 0 0
  | undefined ↦ of_size 0 0
]

covariance_cell : covariance.cell 0 0 ≡ 2
unfolding innovation create read write traversal transpose combine add mul dot for_each mod_seven
covariance_cell = refl

gain-single_example :
    Reaches (IsMatrix 2 1 (λ i j. 0)) (gain 9 (of_size 1 2) (of_size 2 2) (of_size 1 1))
unfolding innovation create read write traversal transpose combine add mul dot for_each mod_seven
gain-single_example =
    gain-single 9 2 (of_size 1 2) (of_size 2 2) (of_size 1 1) covariance (λ x. omega arith)
      (λ x. omega arith) (omega arith) (refl, refl) (refl, refl) (refl, refl) refl refl refl
