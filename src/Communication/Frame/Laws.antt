-- ===== src/Communication/Frame/Laws.antt =====
-- Parsing and serialising a frame.
use common_lib.Common.{
  ℕ, ◌+◌, ◌*◌, ◌/◌, ◌%◌, ◌^◌, ◌≤◌, ◌<◌, ◌≡◌, ◌↔◌, refl, ap, ◌∙◌, arith, bit_or, bit_and, bit_or_low,
  bit_and_mask, none, some, List, [], ◌∷◌, length, All,
}
use common_lib.Communication.Frame.{
  FrameType, regist, unregist, data_frame, ack, other, to_byte, of_byte, Frame, parse, make,
}

-- A value that some byte is cast to.
abbrev pub IsFrameType : FrameType → Type 0
IsFrameType (other n) = (4 ≤ n) × (n < 256)
IsFrameType _ = Unit

abbrev pub IsByte : ℕ → Type 0
IsByte n = n < 256

of_byte-to_byte : (t : FrameType) → IsFrameType t → of_byte (to_byte t % 2 ^ 8) ≡ t
unfolding of_byte to_byte
of_byte-to_byte regist h = refl
of_byte-to_byte unregist h = refl
of_byte-to_byte data_frame h = refl
of_byte-to_byte ack h = refl
of_byte-to_byte (other n) h = ground arith

to_byte-of_byte : (n : ℕ) → n < 256 → to_byte (of_byte n) % 2 ^ 8 ≡ n
unfolding of_byte to_byte
to_byte-of_byte n h = ground arith

join_bytes : (hi lo : ℕ) → hi < 256 → lo < 256 → bit_or (hi * 2 ^ 8 % 2 ^ 16) lo ≡ hi * 2 ^ 8 + lo
join_bytes hi lo h l = ap (λ t. bit_or t lo) (omega arith) ∙ bit_or_low 8 hi lo l

low_byte : (n : ℕ) → bit_and n 0xFF % 2 ^ 8 ≡ n % 2 ^ 8
low_byte n = omega (arith, bit_and_mask 8 n)

-- What is serialised from a 16-bit topic and a type that some byte stands for is parsed back.
pub parse-make :
    (topic : ℕ) (type : FrameType) (payload : List ℕ)
    → topic < 2 ^ 16
    → IsFrameType type
    → parse (make topic type payload)
      ≡ some (record { topic = topic; type = type; payload = payload })
unfolding parse make
parse-make topic type payload h t = ground (
  arith,
  low_byte topic,
  join_bytes (topic / 2 ^ 8 % 2 ^ 8) (topic % 2 ^ 8) (omega arith) (omega arith),
  of_byte-to_byte type t,
)

-- Bytes that parse are the serialisation of the frame they parse to.
pub make-parse :
    (raw : List ℕ) (f : Frame)
    → All IsByte raw
    → parse raw ≡ some f
    → make f.topic f.type f.payload ≡ raw
unfolding parse make
make-parse [] f h e = cc
make-parse (a ∷ []) f h e = cc
make-parse (a ∷ b ∷ []) f h e = cc
make-parse (hi ∷ lo ∷ code ∷ rest) f h e =
    ground
      (arith, join_bytes hi lo h.0 h.1.0, low_byte (hi * 2 ^ 8 + lo), to_byte-of_byte code h.1.1.0)

-- Parsing is refused exactly below three bytes.
pub parse-none_iff : (raw : List ℕ) → (parse raw ≡ none) ↔ (length raw < 3)
unfolding parse
parse-none_iff [] = (λ _. omega arith, λ _. refl)
parse-none_iff (a ∷ []) = (λ _. omega arith, λ _. refl)
parse-none_iff (a ∷ b ∷ []) = (λ _. omega arith, λ _. refl)
parse-none_iff (a ∷ b ∷ c ∷ rest) = (λ e. cc, λ h. absurd (omega arith))
