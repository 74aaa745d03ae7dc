-- ===== src/Utils/Strings/Laws.antt =====
-- The hexadecimal text can be read back.
use common_lib.Common.{
  ℕ, ◌+◌, ◌-◌, ◌*◌, ◌/◌, ◌%◌, ◌<◌, ◌≡◌, refl, ap, ap₂, arith, List, [], ◌∷◌, ltb, if◌then◌else◌,
  All,
}
use common_lib.Utils.Strings.{hex_digit, hex_bytes, pop_last, string_to_hex}

unfoldable pub digit_value : ℕ → ℕ
digit_value c = if ltb c 58 then c - 48 else c - 55

-- A reader of `0x` and two digits, with one character between two of them.
unfoldable pub read_hex : List ℕ → List ℕ
read_hex (prefix ∷ x ∷ high ∷ low ∷ blank ∷ rest) =
    (digit_value high * 16 + digit_value low) ∷ read_hex rest
read_hex (prefix ∷ x ∷ high ∷ low ∷ []) = (digit_value high * 16 + digit_value low) ∷ []
read_hex _ = []

digit_value-hex_digit : (n : ℕ) → n < 16 → digit_value (hex_digit n) ≡ n
unfolding digit_value hex_digit
digit_value-hex_digit n h = ground arith

byte_value :
    (c : ℕ) → c < 256 → digit_value (hex_digit (c / 16)) * 16 + digit_value (hex_digit (c % 16)) ≡ c
byte_value c h = omega (
  arith,
  digit_value-hex_digit (c / 16) (omega arith),
  digit_value-hex_digit (c % 16) (omega arith),
)

-- From the text of any bytes a reader of pairs of hexadecimal digits gets the bytes back.
pub read_hex-string_to_hex :
    (str : List ℕ) → All (λ c. c < 256) str → read_hex (string_to_hex str) ≡ str
unfolding string_to_hex hex_bytes pop_last read_hex
read_hex-string_to_hex [] h = refl
read_hex-string_to_hex (c ∷ []) h = ap (λ b. b ∷ []) (byte_value c h.0)
read_hex-string_to_hex (c ∷ d ∷ str) h =
    ap₂ (λ b l. b ∷ l) (byte_value c h.0) (read_hex-string_to_hex (d ∷ str) h.1)
