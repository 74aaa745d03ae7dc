-- ===== src/Math/Ring.antt =====
-- The laws of exact arithmetic, which the theorems on formulas of extension/math ask for.
use common_lib.Common.{◌≡◌}
use common_lib.Math.Matrix.{Scalar}

pub record IsRing {ℓ} {T : Type ℓ} (t : Scalar T) : Type ℓ where
  pub add_comm : (x y : T) → t.add x y ≡ t.add y x
  pub add_assoc : (x y z : T) → t.add (t.add x y) z ≡ t.add x (t.add y z)
  pub mul_comm : (x y : T) → t.mul x y ≡ t.mul y x
  pub mul_assoc : (x y z : T) → t.mul (t.mul x y) z ≡ t.mul x (t.mul y z)
  pub mul_add : (x y z : T) → t.mul x (t.add y z) ≡ t.add (t.mul x y) (t.mul x z)
  pub mul_one : (x : T) → t.mul x t.one ≡ x
  pub sub_add : (x y : T) → t.add (t.sub x y) y ≡ x
  pub add_sub : (x y : T) → t.sub (t.add x y) y ≡ x
