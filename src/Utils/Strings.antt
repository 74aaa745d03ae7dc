-- ===== src/Utils/Strings.antt =====
-- `string_to_hex` of common/src/utils/String.cpp. A character is its code.
pub mod Laws
mod Tests
use common_lib.Common.{ℕ, ◌+◌, ◌/◌, ◌%◌, List, [], ◌∷◌, ltb, if◌then◌else◌}

-- `std::hex` and `std::uppercase` on one digit: `0` is 48, `A` is 65.
unfoldable pub hex_digit : ℕ → ℕ
hex_digit n = if ltb n 10 then 48 + n else 55 + n

-- The loop: `0x`, two digits, and a blank.
unfoldable pub hex_bytes : List ℕ → List ℕ
hex_bytes [] = []
hex_bytes (c ∷ str) = 48 ∷ 120 ∷ hex_digit (c / 16) ∷ hex_digit (c % 16) ∷ 32 ∷ hex_bytes str

-- `pop_back`, where there is something.
unfoldable pub pop_last : List ℕ → List ℕ
pop_last [] = []
pop_last (x ∷ []) = []
pop_last (x ∷ y ∷ xs) = x ∷ pop_last (y ∷ xs)

unfoldable pub string_to_hex : List ℕ → List ℕ
string_to_hex str = pop_last (hex_bytes str)
