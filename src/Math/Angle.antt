-- ===== src/Math/Angle.antt =====
-- `Euler` and `Quaternion` of extension/math/src/angle.cpp. `double`, its operators and the functions
-- of the standard library are parameters, Scalar of Math/Matrix and Trigonometry.
pub mod Laws
pub mod Norm
mod Tests
use common_lib.Common.{ℕ, Bool, true, false, not, ◌||◌, if◌then◌else◌, ◌==◌}
use common_lib.Math.Result.{Result, returns, throws, ◌>>=◌}
use common_lib.Math.Matrix.{Scalar, Matrix, create, read, write}

-- The functions of `<cmath>`, and the constants 2.0 and 9.8.
pub record Trigonometry {ℓ} (T : Type ℓ) : Type ℓ where
  pub sin : T → T
  pub cos : T → T
  pub asin : T → T
  pub atan2 : T → T → T
  pub two : T
  pub gravity : T

pub record Euler {ℓ} (T : Type ℓ) : Type ℓ where
  pub roll : T
  pub pitch : T
  pub yaw : T

pub record Quaternion {ℓ} (T : Type ℓ) : Type ℓ where
  pub w : T
  pub x : T
  pub y : T
  pub z : T

module _ {ℓ} {T : Type ℓ} ⦃t : Scalar T⦄ ⦃g : Trigonometry T⦄ where
  unfoldable pub to_quaternion : Euler T → Quaternion T
  to_quaternion e =
      let sr = g.sin (t.div e.roll g.two) in
      let cr = g.cos (t.div e.roll g.two) in
      let sp = g.sin (t.div e.pitch g.two) in
      let cp = g.cos (t.div e.pitch g.two) in
      let sy = g.sin (t.div e.yaw g.two) in
      let cy = g.cos (t.div e.yaw g.two) in
      record {
        w = t.add (t.mul (t.mul cr cp) cy) (t.mul (t.mul sr sp) sy);
        x = t.sub (t.mul (t.mul sr cp) cy) (t.mul (t.mul cr sp) sy);
        y = t.add (t.mul (t.mul cr sp) cy) (t.mul (t.mul sr cp) sy);
        z = t.sub (t.mul (t.mul cr cp) sy) (t.mul (t.mul sr sp) cy);
      }

  -- The accelerations along x and y; the one along z is not used.
  unfoldable pub from_acc : T → T → Euler T
  from_acc x y =
      let pitch = g.asin (t.div x g.gravity) in
      let roll = g.asin (t.div (t.mul t.minus_one y) (t.mul g.gravity (g.cos pitch))) in
      record { roll = roll; pitch = pitch; yaw = t.nought }

  unfoldable pub to_euler : Quaternion T → Euler T
  to_euler q =
      let t0 = t.mul g.two (t.add (t.mul q.y q.z) (t.mul q.w q.x)) in
      let t1 = t.sub t.one (t.mul g.two (t.add (t.mul q.x q.x) (t.mul q.y q.y))) in
      let t2 = t.mul g.two (t.sub (t.mul q.x q.z) (t.mul q.w q.y)) in
      let t3 = t.mul g.two (t.add (t.mul q.x q.y) (t.mul q.w q.z)) in
      let t4 = t.sub t.one (t.mul g.two (t.add (t.mul q.y q.y) (t.mul q.z q.z))) in
      record { roll = g.atan2 t0 t1; pitch = t.mul t.minus_one (g.asin t2); yaw = g.atan2 t3 t4 }

module _ {ℓ} {T : Type ℓ} (junk : T) where
  unfoldable pub euler_to_matrix : Euler T → Result (Matrix T)
  euler_to_matrix e = do
    m0 ← write (create junk 3 1) 0 0 e.roll
    m1 ← write m0 1 0 e.pitch
    write m1 2 0 e.yaw

  unfoldable pub quaternion_to_matrix : Quaternion T → Result (Matrix T)
  quaternion_to_matrix q = do
    m0 ← write (create junk 4 1) 0 0 q.w
    m1 ← write m0 1 0 q.x
    m2 ← write m1 2 0 q.y
    write m2 3 0 q.z

module _ {ℓ} {T : Type ℓ} where
  unfoldable pub euler_from_matrix : Matrix T → Result (Euler T)
  euler_from_matrix m = if not (m.col == 1) || not (m.row == 3) then throws else do
    roll ← read m 0 0
    pitch ← read m 1 0
    yaw ← read m 2 0
    returns (record { roll = roll; pitch = pitch; yaw = yaw })

  unfoldable pub quaternion_from_matrix : Matrix T → Result (Quaternion T)
  quaternion_from_matrix m = if not (m.col == 1) || not (m.row == 4) then throws else do
    w ← read m 0 0
    x ← read m 1 0
    y ← read m 2 0
    z ← read m 3 0
    returns (record { w = w; x = x; y = y; z = z })
