-- ===== src/Asio/Tcp.antt =====
-- The message framing of `AsyncSocketImpl` in common/src/asio/AsyncTcp.cpp: `send` and `receive`.
-- Bytes are numbers below 256. asio is the environment: `async_write` writes the whole buffer while no
-- other write is under way, and `async_read` fills its buffer, or reports why the stream ended first. So
-- a stream holds whole messages where each `send` waits for the end of the one before, which is up to
-- the user: two writes under way on one socket may mix.
pub mod Laws
mod Tests
use common_lib.Common.{
  ℕ, zero, suc, ◌+◌, ◌*◌, ◌/◌, ◌%◌, ◌^◌, List, [], ◌∷◌, ◌++◌, length, take, drop, if◌then◌else◌,
  ltb, Bool, true, false, ◌||◌,
}

-- The byte order of the host, in which `std::memcpy` copies a `uint32_t`.
pub data Endian : Type 0 where
  little big : Endian

-- `enum type : uint8_t` of common/include/common/ErrorCode.hpp.
pub data ErrorCode : Type 0 where
  unknown connection_lost receive_failure send_failure end_of_file : ErrorCode

-- Why asio could not fill a buffer, by the values that `receive` tells apart.
pub data StreamEnd : Type 0 where
  eof connection_reset other : StreamEnd

unfoldable pub size_bytes : Endian → ℕ → List ℕ
size_bytes little n = n % 256 ∷ n / 2 ^ 8 % 256 ∷ n / 2 ^ 16 % 256 ∷ n / 2 ^ 24 % 256 ∷ []
size_bytes big n = n / 2 ^ 24 % 256 ∷ n / 2 ^ 16 % 256 ∷ n / 2 ^ 8 % 256 ∷ n % 256 ∷ []

-- `std::memcpy(&payloadSize, header->data(), 4)`; the header holds four bytes.
unfoldable pub read_size : Endian → List ℕ → ℕ
read_size little (a ∷ b ∷ c ∷ d ∷ _) = a + b * 2 ^ 8 + c * 2 ^ 16 + d * 2 ^ 24
read_size big (a ∷ b ∷ c ∷ d ∷ _) = d + c * 2 ^ 8 + b * 2 ^ 16 + a * 2 ^ 24
read_size _ _ = 0

-- The buffer that `send` hands to `async_write`.
unfoldable pub send : Endian → List ℕ → List ℕ
send e payload = size_bytes e (length payload % 2 ^ 32) ++ payload

-- The completion of `async_write`: what `send` calls back with, the number of bytes or an error.
pub data SendEvent : Type 0 where
  on_send : ℕ → SendEvent
  send_error : ErrorCode → SendEvent

-- `onSendHandler` and `onErrorHandler` may each be null.
unfoldable pub send_done : Bool → Bool → Bool → ℕ → List SendEvent
send_done failed has_send has_error bytes =
    if failed
    then if has_error then send_error send_failure ∷ [] else []
    else if has_send
    then on_send bytes ∷ []
    else []

-- What `receive` does, in order.
pub data Event : Type 0 where
  on_receive : List ℕ → Event
  disconnect : Event
  on_error : ErrorCode → Event

unfoldable pub report : Bool → ErrorCode → List Event
report has_error code = if has_error then on_error code ∷ [] else []

-- The first `async_read`, of the header, fails.
unfoldable pub header_failed : Bool → StreamEnd → List Event
unfolding report
header_failed has_error eof = disconnect ∷ report has_error connection_lost
header_failed has_error connection_reset = disconnect ∷ report has_error connection_lost
header_failed has_error other = report has_error receive_failure

module _ (e : Endian) (has_error : Bool) (end : StreamEnd) where
  -- `receive` on the bytes that still arrive before the stream ends. Each round takes four bytes at
  -- least, so fuel above the number of bytes is enough.
  unfoldable pub receive : ℕ → List ℕ → List Event
  unfolding header_failed report
  receive zero stream = []
  receive (suc fuel) stream =
      let size = read_size e (take 4 stream) in
      let rest = drop 4 stream in
      let next = receive fuel (drop size rest) in
      if ltb (length stream) 4
      then header_failed has_error end
      else if ltb (length rest) size
      then report has_error receive_failure
      else on_receive (take size rest) ∷ next
