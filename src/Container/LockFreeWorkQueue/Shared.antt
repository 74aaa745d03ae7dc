-- ===== src/Container/LockFreeWorkQueue/Shared.antt =====
-- `LockFreeWorkQueue<T>` of common/include/common/container/LockFreeWorkQueue.hpp, shared by its owner
-- and any number of thieves: each access to `_top`, `_bottom`, `_array` or an element is a step, and
-- the steps of all threads interleave in one order. What the owner reads of its own writes is no step.
-- The code is repaired as Container/LockFreeWorkQueue says, since it does not compile.
pub mod Invariant
pub mod Steals
pub mod Pushes
pub mod Places
pub mod Pops
pub mod Reached
pub mod Linear
mod Tests
use common_lib.Common.{
  ℕ, suc, ◌+◌, ◌-◌, ◌*◌, ◌/◌, ◌^◌, Bool, true, false, Option, none, some, List, [], ◌∷◌,
  if◌then◌else◌, ltb, leb, ◌==◌,
}
use common_lib.Container.LockFreeWorkQueue.{
  Cells, get, put, add_size, sub_size, mul_size, resize, next_power_of_2,
}

-- `CircularArray`.
pub record Buffer {ℓ} (A : Type ℓ) : Type ℓ where
  pub size : ℕ
  pub cells : Cells A

-- Where the owner is: outside; in `push`, with the value that it loaded of `_top`, before it grows the
-- array, before it writes the element, and before it stores `_bottom`; in `pop`, once `_bottom` is
-- stored; before its compare-and-exchange, with what it loaded of `_top` and of the element; and
-- before it stores `_bottom` again.
pub data Owner {ℓ} (A : Type ℓ) : Type ℓ where
  idle popping restoring : Owner A
  growing placing placed : A → ℕ → Owner A
  racing : ℕ → Option A → Owner A

-- Where a thief is in `steal`: outside; with what it loaded of `_top`, before it loads `_bottom`, and
-- after; with the array that it loaded; and with the element, before its compare-and-exchange.
pub data Thief {ℓ} (A : Type ℓ) : Type ℓ where
  away : Thief A
  loaded checked : ℕ → Thief A
  holding : ℕ → ℕ → Thief A
  taken : ℕ → Option A → Thief A

-- A push, a `pop` or a `steal` that returned this element, a `pop` that returned false.
pub data Event {ℓ} (A : Type ℓ) : Type ℓ where
  pushed : A → Event A
  popped stolen : Option A → Event A
  found_empty : Event A

-- The arrays are numbered; `current` is that of `_array`, and the earlier ones live on for the thieves
-- that hold them. The log has its latest event first.
pub record Shared {ℓ} (A : Type ℓ) : Type ℓ where
  pub top : ℕ
  pub bottom : ℕ
  pub arrays : ℕ → Buffer A
  pub current : ℕ
  pub resize_count : ℕ
  pub max_size : ℕ
  pub owner : Owner A
  pub thieves : ℕ → Thief A
  pub log : List (Event A)

abbrev pub set {ℓ} : {B : Type ℓ} → (ℕ → B) → ℕ → B → ℕ → B
set f i x j = if j == i then x else f j

module _ {ℓ} {A : Type ℓ} where
  -- `get` of the array of this number.
  abbrev pub get_in : Shared A → ℕ → ℕ → Option A
  get_in s g index = get (s.arrays g).cells (s.arrays g).size index

  unfoldable pub create : ℕ → Shared A
  create initial = record {
    top = 0;
    bottom = 0;
    arrays = λ g. record { size = next_power_of_2 initial; cells = λ j. none };
    current = 0;
    resize_count = 0;
    max_size = 0;
    owner = idle;
    thieves = λ i. away;
    log = [];
  }

  -- The test of three quarters, and the array twice as large.
  unfoldable pub grow : ℕ → Shared A → Shared A
  grow top s =
      let old : Buffer A = s.arrays s.current in
      if leb (mul_size old.size 3 / 4) (sub_size s.bottom top)
      then record s {
        arrays =
            set s.arrays (suc s.current) (record {
              size = mul_size old.size 2;
              cells = resize old.cells old.size s.bottom top;
            });
        current = suc s.current;
        resize_count = add_size s.resize_count 1;
      }
      else s

  unfoldable pub place : A → Shared A → Shared A
  place item s =
      let array : Buffer A = s.arrays s.current in
      record s {
        arrays =
            set s.arrays s.current
              (record array { cells = put array.cells array.size s.bottom (some item) });
      }

  -- The store of `_bottom`, and the statistics.
  unfoldable pub publish : A → ℕ → Shared A → Shared A
  publish item top s = record s {
    bottom = add_size s.bottom 1;
    max_size =
        let size = add_size (sub_size s.bottom top) 1 in
        if ltb s.max_size size then size else s.max_size;
    log = pushed item ∷ s.log;
    owner = idle;
  }

  -- The load of `_top` in `pop`.
  unfoldable pub look : Shared A → Shared A
  look s =
      if leb s.top s.bottom
      then if s.top == s.bottom
        then record s { owner = racing s.top (get_in s s.current s.bottom) }
        else record s { owner = idle; log = popped (get_in s s.current s.bottom) ∷ s.log }
      else record s { owner = restoring; log = found_empty ∷ s.log }

  -- The compare-and-exchange of `pop`.
  unfoldable pub race : ℕ → Option A → Shared A → Shared A
  race top item s =
      if s.top == top
      then record s { top = add_size top 1; owner = restoring; log = popped item ∷ s.log }
      else record s { owner = restoring; log = found_empty ∷ s.log }

  -- The next step of the owner inside a call.
  unfoldable pub own_step : Owner A → Shared A → Option (Shared A)
  own_step idle s = none
  own_step (growing item top) s = some (record (grow top s) { owner = placing item top })
  own_step (placing item top) s = some (record (place item s) { owner = placed item top })
  own_step (placed item top) s = some (publish item top s)
  own_step popping s = some (look s)
  own_step (racing top item) s = some (race top item s)
  own_step restoring s = some (record s { bottom = add_size s.bottom 1; owner = idle })

  -- The first step of a call: `push` loads `_top`, and `pop` stores `_bottom`.
  unfoldable pub push : Owner A → A → Shared A → Option (Shared A)
  push idle item s = some (record s { owner = growing item s.top })
  push _ item s = none

  unfoldable pub pop : Owner A → Shared A → Option (Shared A)
  pop idle s = some (record s { bottom = sub_size s.bottom 1; owner = popping })
  pop _ s = none

  -- The compare-and-exchange of `steal`.
  unfoldable pub compare_exchange : ℕ → ℕ → Option A → Shared A → Shared A
  compare_exchange i top item s =
      if s.top == top
      then record s {
        top = add_size top 1;
        thieves = set s.thieves i away;
        log = stolen item ∷ s.log;
      }
      else record s { thieves = set s.thieves i away }

  -- The next step of thief `i`, who is here in `steal`.
  unfoldable pub steal_step : ℕ → Thief A → Shared A → Shared A
  steal_step i away s = record s { thieves = set s.thieves i (loaded s.top) }
  steal_step i (loaded top) s = record s {
    thieves = set s.thieves i (if ltb top s.bottom then checked top else away);
  }
  steal_step i (checked top) s = record s { thieves = set s.thieves i (holding top s.current) }
  steal_step i (holding top g) s = record s {
    thieves = set s.thieves i (taken top (get_in s g top));
  }
  steal_step i (taken top item) s = compare_exchange i top item s

pub data Move {ℓ} (A : Type ℓ) : Type ℓ where
  pushes : A → Move A
  pops owner_goes : Move A
  thief_goes : ℕ → Move A

unfoldable pub step {ℓ} : {A : Type ℓ} → Move A → Shared A → Option (Shared A)
step (pushes item) s = push s.owner item s
step pops s = pop s.owner s
step owner_goes s = own_step s.owner s
step (thief_goes i) s = some (steal_step i (s.thieves i) s)
