-- ===== src/Math/Angle/Tests.antt =====
-- Runs of extension/math/src/angle.cpp over the integers modulo 2, where every number is its own
-- negative.
use common_lib.Common.{◌≡◌, refl, Bool, true, false, not, ◌&&◌}
use common_lib.Math.Result.{returns, throws, ◌>>=◌}
use common_lib.Math.Matrix.{Matrix, create, read, write}
use common_lib.Math.ModTwo.{xor, mod_two, mod_two-IsRing}
use common_lib.Math.Angle.{
  Trigonometry, Euler, Quaternion, to_quaternion, euler_from_matrix, quaternion_to_matrix,
  quaternion_from_matrix,
}
use common_lib.Math.Angle.Norm.{norm, to_quaternion-norm}

instance circle : Trigonometry Bool
circle = record {
  sin = λ a. a;
  cos = not;
  asin = λ a. a;
  atan2 = λ a b. a;
  two = true;
  gravity = true;
}

-- The sine and the cosine above are on the circle.
on_circle : (x : Bool) → xor (x && x) (not x && not x) ≡ true
on_circle true = refl
on_circle false = refl

abbrev turn : Euler Bool
turn = record { roll = true; pitch = false; yaw = true }

to_quaternion-norm_example : norm mod_two mod_two-IsRing (to_quaternion turn) ≡ true
unfolding mod_two circle
to_quaternion-norm_example = to_quaternion-norm mod_two-IsRing on_circle turn

abbrev turned : Quaternion Bool
turned = record { w = false; x = false; y = true; z = false }

turned_lem : to_quaternion turn ≡ turned
unfolding to_quaternion circle mod_two
turned_lem = refl

abbrev wide : Matrix Bool
wide = record { row = 3; col = 2; cell = λ r c. true }

refused : euler_from_matrix wide ≡ throws
unfolding euler_from_matrix
refused = refl

-- The quaternion goes through a matrix.
written_back : (quaternion_to_matrix false turned >>= quaternion_from_matrix) ≡ returns turned
unfolding quaternion_to_matrix quaternion_from_matrix create read write
written_back = refl
