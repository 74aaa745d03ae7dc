-- ===== src/Container/LockFreeWorkQueue.antt =====
-- `LockFreeWorkQueue<T>` of common/include/common/container/LockFreeWorkQueue.hpp, a Chase-Lev deque,
-- with its calls one after the other: no other thread comes between the accesses of a call, so each
-- compare-and-exchange finds the value that was loaded before it.
--
-- The class cannot be instantiated as it stands: `std::atomic<std::shared_ptr>` is of C++20, and the
-- build is of C++17; and `push` stores and assigns the `std::unique_ptr` of `resize` where a
-- `std::shared_ptr` is wanted, without a move. What is modelled is the code with both repaired in the only
-- way that fits: `_array` holds an atomic shared pointer, and `push` makes the new array shared.
pub mod Capacity
pub mod Window
pub mod Laws
pub mod Refine
pub mod EmptyPop
pub mod Shared
mod Tests
use common_lib.Common.{
  ℕ, zero, suc, ◌+◌, ◌-◌, ◌*◌, ◌/◌, ◌%◌, ◌^◌, Bool, true, false, Option, none, some, if◌then◌else◌,
  ltb, leb, ◌==◌,
}
use common_lib.Utils.Misc.{or_shift}

-- `size_t` arithmetic.
abbrev pub add_size : ℕ → ℕ → ℕ
add_size a b = (a + b) % 2 ^ 64

abbrev pub sub_size : ℕ → ℕ → ℕ
sub_size a b = (a + 2 ^ 64 - b) % 2 ^ 64

abbrev pub mul_size : ℕ → ℕ → ℕ
mul_size a b = a * b % 2 ^ 64

-- The six shifts of a 64-bit word.
unfoldable pub spread64 : ℕ → ℕ
spread64 n = or_shift 32 (or_shift 16 (or_shift 8 (or_shift 4 (or_shift 2 (or_shift 1 n)))))

unfoldable pub next_power_of_2 : ℕ → ℕ
next_power_of_2 n = if leb n 1 then 1 else add_size (spread64 (n - 1)) 1

-- A buffer; `none` is an element that was never written.
abbrev pub Cells {ℓ} : Type ℓ → Type ℓ
Cells A = ℕ → Option A

module _ {ℓ} {A : Type ℓ} where
  -- `CircularArray::get` and `put`.
  abbrev pub get : Cells A → ℕ → ℕ → Option A
  get cells size index = cells (index % size)

  abbrev pub put : Cells A → ℕ → ℕ → Option A → Cells A
  put cells size index item j = if j == index % size then item else cells j

  -- The loop of `CircularArray::resize`, over the `count` indices from `i` on.
  unfoldable pub copy_cells : Cells A → ℕ → Cells A → ℕ → ℕ → Cells A
  copy_cells old size new i zero = new
  copy_cells old size new i (suc count) =
      copy_cells old size (put new (mul_size size 2) i (get old size i)) (i + 1) count

  unfoldable pub resize : Cells A → ℕ → ℕ → ℕ → Cells A
  resize cells size bottom top = copy_cells cells size (λ _. none) top (bottom - top)

pub record Deque {ℓ} (A : Type ℓ) : Type ℓ where
  pub top : ℕ
  pub bottom : ℕ
  pub size : ℕ
  pub cells : Cells A
  pub resize_count : ℕ
  pub max_size : ℕ

module _ {ℓ} {A : Type ℓ} where
  unfoldable pub create : ℕ → Deque A
  create initial_size = record {
    top = 0;
    bottom = 0;
    size = next_power_of_2 initial_size;
    cells = λ _. none;
    resize_count = 0;
    max_size = 0;
  }

  -- At three quarters the array is replaced by one twice as large.
  unfoldable pub grow : Deque A → Deque A
  grow d =
      if leb (mul_size d.size 3 / 4) (sub_size d.bottom d.top)
      then record d {
        size = mul_size d.size 2;
        cells = resize d.cells d.size d.bottom d.top;
        resize_count = add_size d.resize_count 1;
      }
      else d

  -- The loop of compare-and-exchange on `_maxSize` ends with the larger of the two.
  unfoldable pub append : Deque A → A → Deque A
  append d item = record d {
    cells = put d.cells d.size d.bottom (some item);
    bottom = add_size d.bottom 1;
    max_size =
        let current = add_size (sub_size d.bottom d.top) 1 in
        if ltb d.max_size current then current else d.max_size;
  }

  unfoldable pub push : A → Deque A → Deque A
  push item d = append (grow d) item

  -- The result of `pop`, the element that it writes to `result`, and the deque afterwards.
  unfoldable pub pop : Deque A → Bool × Option A × Deque A
  pop d =
      let bottom = sub_size d.bottom 1 in
      if leb d.top bottom
      then if d.top == bottom
        then (
          true,
          get d.cells d.size bottom,
          record d { top = add_size d.top 1; bottom = add_size bottom 1 },
        )
        else (true, get d.cells d.size bottom, record d { bottom = bottom })
      else (false, none, record d { bottom = add_size bottom 1 })

  unfoldable pub steal : Deque A → Bool × Option A × Deque A
  steal d =
      if ltb d.top d.bottom
      then (true, get d.cells d.size d.top, record d { top = add_size d.top 1 })
      else (false, none, d)

  unfoldable pub empty : Deque A → Bool
  empty d = leb d.bottom d.top

  unfoldable pub size : Deque A → ℕ
  size d = if leb d.top d.bottom then sub_size d.bottom d.top else 0
