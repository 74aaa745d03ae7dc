-- ===== src/Communication/Frame.antt =====
-- `struct Frame` of common/include/common/communication/EventFrame.hpp. A byte is a number below 256.
pub mod Laws
mod Tests
use common_lib.Common.{
  ℕ, zero, suc, ◌*◌, ◌/◌, ◌%◌, ◌^◌, ◌<◌, bit_or, bit_and, Option, none, some, List, [], ◌∷◌, ◌++◌,
  if◌then◌else◌, ◌==◌,
}

-- `enum type : uint8_t`. The underlying type is fixed, so a cast from any byte is a value; `other`
-- stands for those that have no name.
pub data FrameType : Type 0 where
  regist unregist data_frame ack : FrameType
  other : ℕ → FrameType

-- `static_cast<uint8_t>(type)`.
unfoldable pub to_byte : FrameType → ℕ
to_byte regist = 0
to_byte unregist = 1
to_byte data_frame = 2
to_byte ack = 3
to_byte (other n) = n

-- `static_cast<Frame::type>(raw[2])`.
unfoldable pub of_byte : ℕ → FrameType
of_byte n =
    if n == 0
    then regist
    else if n == 1
    then unregist
    else if n == 2
    then data_frame
    else if n == 3
    then ack
    else other n

pub record Frame : Type 0 where
  pub topic : ℕ
  pub type : FrameType
  pub payload : List ℕ

-- `none` is the failed assertion `raw.size() >= 3`.
unfoldable pub parse : List ℕ → Option Frame
unfolding of_byte
parse (hi ∷ lo ∷ code ∷ rest) =
    some (record { topic = bit_or (hi * 2 ^ 8 % 2 ^ 16) lo; type = of_byte code; payload = rest })
parse _ = none

unfoldable pub make : ℕ → FrameType → List ℕ → List ℕ
unfolding to_byte
make topic type payload =
    topic / 2 ^ 8 % 2 ^ 8 ∷ bit_and topic 0xFF % 2 ^ 8 ∷ to_byte type % 2 ^ 8 ∷ payload
