-- ===== src/Container/LockFreeWorkQueue/Window.antt =====
-- The elements between two indices of a circular buffer.
use native.Mathlib.Nat.{div-add-mod, add-zero}
use native.Mathlib.Decide.{dec_lt}
use common_lib.Common.{
  ℕ, zero, suc, ◌+◌, ◌%◌, ◌≤◌, ◌<◌, ◌≡◌, ◌≢◌, refl, ap, ap₂, sym, ◌∙◌, arith, Option, List, [], ◌∷◌,
  ◌++◌,
}
use common_lib.Container.LockFreeWorkQueue.{Cells, get, put, mul_size, copy_cells}

-- Indices less than a turn apart have different places.
pub mod-ne : (i j m : ℕ) → i < j → j < i + m → i % m ≢ j % m
mod-ne i j m lt near e = absurd (grind (arith, div-add-mod i m, div-add-mod j m))

module _ {ℓ} {A : Type ℓ} where
  abbrev pub window : Cells A → ℕ → ℕ → ℕ → List (Option A)
  window cells size i zero = []
  window cells size i (suc n) = get cells size i ∷ window cells size (i + 1) n

  pub get-put_self :
      (cells : Cells A) (size i j : ℕ) (x : Option A) → i ≡ j → get (put cells size j x) size i ≡ x
  get-put_self cells size i j x e = ground (arith, ap (λ t. t % size) e)

  pub get-put_ne :
      (cells : Cells A) (size i j : ℕ) (x : Option A)
      → i % size ≢ j % size
      → get (put cells size j x) size i ≡ get cells size i
  get-put_ne cells size i j x h = ground arith

  -- A window depends on its elements only.
  pub window-cong :
      (c c' : Cells A) (size size' i n : ℕ)
      → ((j : ℕ) → i ≤ j → j < i + n → get c size j ≡ get c' size' j)
      → window c size i n ≡ window c' size' i n
  window-cong c c' size size' i zero h = refl
  window-cong c c' size size' i (suc n) h =
      ap₂ ◌∷◌ (h i (omega arith) (omega arith))
        (window-cong c c' size size' (i + 1) n λ j lo hi. h j (omega arith) (omega arith))

  pub window-snoc :
      (cells : Cells A) (size i n : ℕ)
      → window cells size i (suc n) ≡ window cells size i n ++ get cells size (i + n) ∷ []
  window-snoc cells size i zero = ap (λ k. get cells size k ∷ []) (sym (add-zero i))
  window-snoc cells size i (suc n) =
      ap (λ l. get cells size i ∷ l)
        (window-snoc cells size (i + 1) n
          ∙ ap (λ k. window cells size (i + 1) n ++ get cells size k ∷ []) (shift i n))
    where
      shift : (i n : ℕ) → i + 1 + n ≡ i + suc n
      shift i n = omega arith

  -- A write behind the window, less than a turn from its start, extends it.
  pub window-put :
      (cells : Cells A) (size i n k : ℕ) (x : Option A)
      → k ≡ i + n
      → n < size
      → window (put cells size k x) size i (suc n) ≡ window cells size i n ++ x ∷ []
  window-put cells size i n k x e h =
      window-snoc (put cells size k x) size i n
      ∙ ap₂ (λ l y. l ++ y ∷ [])
          (window-cong (put cells size k x) cells size size i n
            (λ j lo hi. get-put_ne cells size j k x (mod-ne j k size (omega arith) (omega arith))))
          (get-put_self cells size (i + n) k x (sym e))

module _ {ℓ} {A : Type ℓ} (old : Cells A) (size : ℕ) where
  -- What lies behind the copied indices, less than a turn of the new array away, stays.
  copy_cells-kept :
      (count i k : ℕ) (new : Cells A)
      → k < i
      → i + count ≤ k + mul_size size 2
      → get (copy_cells old size new i count) (mul_size size 2) k ≡ get new (mul_size size 2) k
  unfolding copy_cells
  copy_cells-kept zero i k new h near = refl
  copy_cells-kept (suc count) i k new h near =
      copy_cells-kept count (i + 1) k (put new (mul_size size 2) i (get old size i)) (omega arith)
        (omega arith)
      ∙ get-put_ne new (mul_size size 2) k i (get old size i)
          (mod-ne k i (mul_size size 2) h (omega arith))

  -- A copy of no more than a turn of the new array has the old elements at the same indices.
  pub copy_cells-get :
      (count i j : ℕ) (new : Cells A)
      → count ≤ mul_size size 2
      → i ≤ j
      → j < i + count
      → get (copy_cells old size new i count) (mul_size size 2) j ≡ get old size j
  unfolding copy_cells
  copy_cells-get zero i j new h lo hi = absurd (omega arith)
  copy_cells-get (suc count) i j new h lo hi = elim (dec_lt i j) [
    | yes later ↦
        copy_cells-get count (i + 1) j (put new (mul_size size 2) i (get old size i)) (omega arith)
          (omega arith) (omega arith)
    | no here ↦
        let e : j ≡ i = omega arith in
        rw e (
          copy_cells-kept count (i + 1) i (put new (mul_size size 2) i (get old size i))
            (omega arith) (omega arith)
          ∙ get-put_self new (mul_size size 2) i i (get old size i) refl)
  ]
