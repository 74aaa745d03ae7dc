-- ===== src/Math/ModTwo.antt =====
-- The integers modulo 2 as scalars, for the tests.
use common_lib.Common.{◌≡◌, refl, Bool, true, false, not, ◌&&◌, sym}
use common_lib.Math.Matrix.{Scalar}
use common_lib.Math.Ring.{IsRing}

abbrev pub xor : Bool → Bool → Bool
xor true b = not b
xor false b = b

instance unfoldable pub mod_two : Scalar Bool
mod_two = record {
  nought = false;
  one = true;
  minus_one = true;
  add = xor;
  sub = xor;
  mul = ◌&&◌;
  div = λ a b. a;
  is_nought = not;
  is_one = λ a. a;
}

not-not : (x : Bool) → not (not x) ≡ x
not-not true = refl
not-not false = refl

xor_comm : (x y : Bool) → xor x y ≡ xor y x
xor_comm true true = refl
xor_comm true false = refl
xor_comm false true = refl
xor_comm false false = refl

xor_assoc : (x y z : Bool) → xor (xor x y) z ≡ xor x (xor y z)
xor_assoc true true z = sym (not-not z)
xor_assoc true false z = refl
xor_assoc false y z = refl

xor_self : (x y : Bool) → xor (xor x y) y ≡ x
xor_self true true = refl
xor_self true false = refl
xor_self false true = refl
xor_self false false = refl

and_comm : (x y : Bool) → x && y ≡ y && x
and_comm true true = refl
and_comm true false = refl
and_comm false true = refl
and_comm false false = refl

and_assoc : (x y z : Bool) → (x && y) && z ≡ x && (y && z)
and_assoc true y z = refl
and_assoc false y z = refl

and_xor : (x y z : Bool) → x && xor y z ≡ xor (x && y) (x && z)
and_xor true y z = refl
and_xor false y z = refl

and_true : (x : Bool) → x && true ≡ x
and_true true = refl
and_true false = refl

pub mod_two-IsRing : IsRing mod_two
unfolding mod_two
mod_two-IsRing = record {
  add_comm = xor_comm;
  add_assoc = xor_assoc;
  mul_comm = and_comm;
  mul_assoc = and_assoc;
  mul_add = and_xor;
  mul_one = and_true;
  sub_add = xor_self;
  add_sub = xor_self;
}
