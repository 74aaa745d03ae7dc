-- ===== src/Communication/Uart.antt =====
-- `Baudrate` of common/include/common/communication/serial/Uart.hpp and `UartImpl` of
-- common/src/communication/serial/Uart.cpp, in its Linux build. `Port` is what `SerialHandler` and
-- the system do.
pub mod Line
pub mod Laws
pub mod Descriptor
mod Tests
use common_lib.Communication.Uart.Line.{EscapeSequence, readline}
use common_lib.Common.{
  ℕ, ◌<◌, Bool, true, false, not, ◌&&◌, Option, none, some, List, [], ◌∷◌, ◌++◌, if◌then◌else◌, ltb,
  ◌==◌, bit_and,
}

-- `enum type : uint8_t` of `Baudrate`.
pub data Baudrate : Type 0 where
  b9600 b19200 b38400 b57600 b115200 : Baudrate

-- `Baudrate(const uint32_t value)`.
unfoldable pub of_uint32 : ℕ → Baudrate
of_uint32 value =
    if value == 9600
    then b9600
    else if value == 19200
    then b19200
    else if value == 38400
    then b38400
    else if value == 57600
    then b57600
    else if value == 115200
    then b115200
    else b9600

-- `Baudrate::uint32_t()`.
unfoldable pub to_uint32 : Baudrate → ℕ
to_uint32 b9600 = 9600
to_uint32 b19200 = 19200
to_uint32 b38400 = 38400
to_uint32 b57600 = 57600
to_uint32 b115200 = 115200

-- `operator=(const uint32_t value)` of an object: what the object holds afterwards, and the result.
unfoldable pub assign_uint32 : Baudrate → ℕ → Baudrate × Baudrate
assign_uint32 this value = (this, of_uint32 value)

-- What `open` passes to the system: `O_RDONLY`, `O_WRONLY` or `O_RDWR`.
pub data Access : Type 0 where
  read_only write_only read_write : Access

-- The bits `SERIAL_READ` and `SERIAL_WRITE` of the mode.
unfoldable pub access : ℕ → Access
access mode =
    if bit_and mode 0x01 == 0x01 && not (bit_and mode 0x02 == 0x02)
    then read_only
    else if not (bit_and mode 0x01 == 0x01) && bit_and mode 0x02 == 0x02
    then write_only
    else read_write

-- `Wrapper_Open`: the descriptor, or `none` for -1.
abbrev pub Port : Type 0
Port = Access → Option ℕ

-- The calls that reach the system, in order.
pub data Call : Type 0 where
  opens : Access → Call
  configures : ℕ → Baudrate → Call
  closes : ℕ → Call

-- `_fd` has no value before the first `open`; -1 is `none` as well.
pub record Uart : Type 0 where
  pub baudrate : Baudrate
  pub mode : ℕ
  pub is_open : Bool
  pub fd : Option ℕ

-- A failed assertion of the strict build stops the program.
pub data Outcome {ℓ} (A : Type ℓ) : Type ℓ where
  done : A → Outcome A
  aborted : Outcome A

-- The members after the attempt, what `open` returns, and its calls.
unfoldable pub try_open : Port → Uart → Uart × Bool × List Call
try_open port u = elim (port (access u.mode)) [
  | none ↦ (record u { fd = none }, u.is_open, opens (access u.mode) ∷ [])
  | some fd ↦ (
    record u { fd = some fd; is_open = true },
    true,
    opens (access u.mode) ∷ configures fd u.baudrate ∷ [],
  )
]

unfoldable pub open_uart : Bool → Port → Uart → Outcome (Uart × Bool × List Call)
open_uart strict port u =
    if u.is_open then if strict then aborted else done (u, false, []) else done (try_open port u)

unfoldable pub close_call : Option ℕ → List Call
close_call none = []
close_call (some fd) = closes fd ∷ []

unfoldable pub close : Uart → Uart × List Call
unfolding close_call
close u = if u.is_open then (record u { is_open = false }, close_call u.fd) else (u, [])

-- `read` and `write`: whether the system moved any byte. The strict build wants an open port.
unfoldable pub transfer : Bool → Uart → ℕ → Outcome Bool
transfer strict u moved = if strict && not u.is_open then aborted else done (ltb 0 moved)

-- `readline` of an object: its check, and the loop.
unfoldable pub readline_uart :
    Bool → Uart → EscapeSequence → List (List ℕ) → Outcome (List ℕ × List (List ℕ))
readline_uart strict u e chunks =
    if strict && not u.is_open then aborted else done (readline e chunks)

-- `~UartImpl`.
unfoldable pub destroy : Bool → Uart → Outcome (Unit {0})
destroy strict u = if strict && u.is_open then aborted else done tt
