-- ===== src/Utils/Strings/Tests.antt =====
-- Tests of common/src/utils/String.cpp.
use common_lib.Common.{◌≡◌, refl, [], ◌∷◌}
use common_lib.Utils.Strings.{hex_digit, hex_bytes, pop_last, string_to_hex}

-- `\n` and `~` are `0x0A 0x7E`.
newline_tilde : string_to_hex (10 ∷ 126 ∷ []) ≡ 48 ∷ 120 ∷ 48 ∷ 65 ∷ 32 ∷ 48 ∷ 120 ∷ 55 ∷ 69 ∷ []
unfolding string_to_hex hex_bytes hex_digit pop_last
newline_tilde = refl
