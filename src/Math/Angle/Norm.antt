-- ===== src/Math/Angle/Norm.antt =====
-- The quaternion of three angles.
use common_lib.Common.{◌≡◌, ap, ap₂, sym, ◌∙◌, subst}
use common_lib.Math.Matrix.{Scalar}
use common_lib.Math.Ring.{IsRing}
use common_lib.Math.Angle.{Trigonometry, Euler, Quaternion, to_quaternion}

module _ {ℓ} {T : Type ℓ} (t : Scalar T) (r : IsRing t) where
  add_left_comm : (x y z : T) → t.add x (t.add y z) ≡ t.add y (t.add x z)
  add_left_comm x y z =
      sym (r.add_assoc x y z) ∙ ap (λ u. t.add u z) (r.add_comm x y) ∙ r.add_assoc y x z

  mul_left_comm : (x y z : T) → t.mul x (t.mul y z) ≡ t.mul y (t.mul x z)
  mul_left_comm x y z =
      sym (r.mul_assoc x y z) ∙ ap (λ u. t.mul u z) (r.mul_comm x y) ∙ r.mul_assoc y x z

  add_mul : (x y z : T) → t.mul (t.add x y) z ≡ t.add (t.mul x z) (t.mul y z)
  add_mul x y z =
      r.mul_comm (t.add x y) z ∙ r.mul_add z x y ∙ ap₂ t.add (r.mul_comm z x) (r.mul_comm z y)

  sum-square :
      (u v : T)
      → t.mul (t.add u v) (t.add u v)
        ≡ t.add (t.add (t.mul u u) (t.mul v v)) (t.add (t.mul u v) (t.mul u v))
  sum-square u v = simp (r.mul_add, add_mul, r.add_assoc, r.add_comm, add_left_comm, r.mul_comm)

  sum-difference :
      (d v : T)
      → t.add (t.add (t.mul (t.add d v) v) (t.mul (t.add d v) v)) (t.mul d d)
        ≡ t.add (t.mul (t.add d v) (t.add d v)) (t.mul v v)
  sum-difference d v = simp (r.mul_add, add_mul, r.add_assoc, r.add_comm, add_left_comm, r.mul_comm)

  -- The mixed terms of a sum and of a difference cancel.
  squares :
      (u v u' v' : T)
      → t.mul u v ≡ t.mul u' v'
      → t.add (t.mul (t.add u v) (t.add u v)) (t.mul (t.sub u' v') (t.sub u' v'))
        ≡ t.add (t.add (t.mul u u) (t.mul v v)) (t.add (t.mul u' u') (t.mul v' v'))
  squares u v u' v' e =
      ap (λ k. t.add k (t.mul (t.sub u' v') (t.sub u' v'))) (sum-square u v)
      ∙ r.add_assoc _ _ _
      ∙ ap (t.add (t.add (t.mul u u) (t.mul v v))) (
          ap (λ k. t.add (t.add k k) (t.mul (t.sub u' v') (t.sub u' v'))) e
          ∙ subst
              (λ k.
                t.add (t.add (t.mul k v') (t.mul k v')) (t.mul (t.sub u' v') (t.sub u' v'))
                ≡ t.add (t.mul k k) (t.mul v' v'))
              (r.sub_add u' v') (sum-difference (t.sub u' v') v'))

  mixed :
      (a b c d e f : T)
      → t.mul (t.mul (t.mul a b) c) (t.mul (t.mul d e) f)
        ≡ t.mul (t.mul (t.mul d b) c) (t.mul (t.mul a e) f)
  mixed a b c d e f = simp (r.mul_assoc, r.mul_comm, mul_left_comm)

  turned :
      (a b c d e f : T)
      → t.mul (t.mul (t.mul a e) c) (t.mul (t.mul d b) f)
        ≡ t.mul (t.mul (t.mul a b) f) (t.mul (t.mul d e) c)
  turned a b c d e f = simp (r.mul_assoc, r.mul_comm, mul_left_comm)

  product_square :
      (a b c : T)
      → t.mul (t.mul (t.mul a b) c) (t.mul (t.mul a b) c)
        ≡ t.mul (t.mul (t.mul a a) (t.mul b b)) (t.mul c c)
  product_square a b c = simp (r.mul_assoc, mul_left_comm)

  -- Three sums of two, multiplied out.
  expand :
      (a b c d e f : T)
      → t.add
          (t.add
            (t.add (t.mul (t.mul a b) c) (t.mul (t.mul d e) f))
            (t.add (t.mul (t.mul d b) c) (t.mul (t.mul a e) f)))
          (t.add
            (t.add (t.mul (t.mul a e) c) (t.mul (t.mul d b) f))
            (t.add (t.mul (t.mul a b) f) (t.mul (t.mul d e) c)))
        ≡ t.mul (t.mul (t.add d a) (t.add e b)) (t.add f c)
  expand a b c d e f =
      simp (r.mul_add, add_mul, r.mul_assoc, r.add_assoc, r.add_comm, add_left_comm)

  -- The norm of a quaternion, squared.
  abbrev pub norm : Quaternion T → T
  norm q = t.add (t.add (t.mul q.w q.w) (t.mul q.x q.x)) (t.add (t.mul q.y q.y) (t.mul q.z q.z))

  norm_half :
      (a b c d e f : T)
      → t.add (t.mul a a) (t.mul d d) ≡ t.one
      → t.add (t.mul b b) (t.mul e e) ≡ t.one
      → t.add (t.mul c c) (t.mul f f) ≡ t.one
      → norm (record {
        w = t.add (t.mul (t.mul d e) f) (t.mul (t.mul a b) c);
        x = t.sub (t.mul (t.mul a e) f) (t.mul (t.mul d b) c);
        y = t.add (t.mul (t.mul d b) f) (t.mul (t.mul a e) c);
        z = t.sub (t.mul (t.mul d e) c) (t.mul (t.mul a b) f);
      })
        ≡ t.one
  norm_half a b c d e f p q s =
      ap₂ t.add (squares _ _ _ _ (mixed d e f a b c)) (squares _ _ _ _ (turned d e f a b c))
      ∙ ap₂ t.add
          (ap₂ t.add (ap₂ t.add (product_square d e f) (product_square a b c))
            (ap₂ t.add (product_square a e f) (product_square d b c)))
          (ap₂ t.add (ap₂ t.add (product_square d b f) (product_square a e c))
            (ap₂ t.add (product_square d e c) (product_square a b f)))
      ∙ expand _ _ _ _ _ _
      ∙ ap₂ t.mul (ap₂ t.mul p q ∙ r.mul_one t.one) s
      ∙ r.mul_one t.one

-- In exact arithmetic, where the squares of the sine and of the cosine of an angle add up to one: the
-- quaternion of any three angles has norm one.
pub to_quaternion-norm {ℓ} :
    {T : Type ℓ} ⦃t : Scalar T⦄ ⦃g : Trigonometry T⦄ (r : IsRing t)
    → ((x : T) → t.add (t.mul (g.sin x) (g.sin x)) (t.mul (g.cos x) (g.cos x)) ≡ t.one)
    → (e : Euler T) → norm t r (to_quaternion e) ≡ t.one
unfolding to_quaternion
to_quaternion-norm ⦃t⦄ ⦃g⦄ r circle e =
    norm_half t r _ _ _ _ _ _ (circle (t.div e.roll g.two)) (circle (t.div e.pitch g.two))
      (circle (t.div e.yaw g.two))
