-- ===== src/Math/Result.antt =====
-- How a call of extension/math ends, and its counted loops.
use common_lib.Common.{ℕ, zero, suc, ◌+◌, ◌<◌, ◌≡◌, refl, subst, arith}

-- `throws` is std::out_of_range; `undefined` is an access out of the bounds of an array, or the end of a
-- function that should return a value and does not.
pub data Result {ℓ} (A : Type ℓ) : Type ℓ where
  returns : A → Result A
  throws : Result A
  undefined : Result A

infixl 5 ◌>>=◌
abbrev pub ◌>>=◌ {ℓ κ} : {A : Type ℓ} {B : Type κ} → Result A → (A → Result B) → Result B
returns a >>= f = f a
throws >>= f = throws
undefined >>= f = undefined

-- `for (i = from; i < from + count; ++i)`, over the variables that the body changes.
unfoldable pub for_each {ℓ} : {S : Type ℓ} → (ℕ → S → Result S) → ℕ → ℕ → S → Result S
for_each body i zero s = returns s
for_each body i (suc count) s = body i s >>= for_each body (i + 1) count

-- It returns, and what it returns is as stated.
abbrev pub Reaches {ℓ κ} : {S : Type ℓ} → (S → Type κ) → Result S → Type (ℓ ⊔ κ)
Reaches {S} Q r = (s : S) × (r ≡ returns s) × Q s

pub Reaches-bind {ℓ κ μ ν} :
    {A : Type ℓ} {B : Type κ} (P : A → Type μ) (Q : B → Type ν) (r : Result A) (f : A → Result B)
    → Reaches P r
    → ((a : A) → P a → Reaches Q (f a))
    → Reaches Q (r >>= f)
Reaches-bind P Q r f (a, e, p) h = rw e (h a p)

-- A body that keeps an invariant from index to index carries it to the end of the loop.
pub for_each-Reaches {ℓ κ} :
    {S : Type ℓ} (P : ℕ → S → Type κ) (body : ℕ → S → Result S) (end : ℕ)
    → ((i : ℕ) (s : S) → i < end → P i s → Reaches (P (i + 1)) (body i s))
    → (count i : ℕ) (s : S) → i + count ≡ end
    → P i s
    → Reaches (P end) (for_each body i count s)
unfolding for_each
for_each-Reaches P body end h zero i s e p = (s, refl, subst (λ k. P k s) (index i end e) p)
  where
    index : (i end : ℕ) → i + 0 ≡ end → i ≡ end
    index i end e = omega arith
for_each-Reaches P body end h (suc count) i s e p =
    Reaches-bind (P (i + 1)) (P end) (body i s) (for_each body (i + 1) count)
      (h i s (omega arith) p)
      (λ s' p'. for_each-Reaches P body end h count (i + 1) s' (omega arith) p')
