-- ===== src/Ch341/I2c.antt =====
-- `I2C` of extension/ch341/src/CH341.cpp. `Commands` holds the constants of the vendor's header, and
-- `Device` what the vendor's library answers.
pub mod Laws
mod Tests
use common_lib.Common.{
  ℕ, ◌*◌, ◌%◌, ◌^◌, Bool, true, false, not, ◌&&◌, Option, none, some, List, [], ◌∷◌, ◌++◌,
  if◌then◌else◌, ◌==◌, bit_or, bit_and,
}

pub record Commands : Type 0 where
  pub stream : ℕ
  pub start : ℕ
  pub stop : ℕ
  pub out : ℕ
  pub end : ℕ

-- The calls of the library.
pub data Call : Type 0 where
  opens closes : ℕ → Call
  sets_stream : ℕ → ℕ → Call
  writes : List ℕ → Call
  writes_reads : List ℕ → Call
  streams : List ℕ → ℕ → Call

-- Whether CH341OpenDevice gives a handle, and what the other functions answer; `writes_reads` gives
-- the bytes read.
pub record Device : Type 0 where
  pub opens : Bool
  pub sets_stream : ℕ → Bool
  pub writes : List ℕ → Bool
  pub writes_reads : List ℕ → Option (List ℕ)
  pub streams : List ℕ → ℕ → Bool

pub record Info : Type 0 where
  pub speed : ℕ
  pub dev_index : ℕ
  pub dev_addr : ℕ
  pub reg_addr : ℕ

-- `_handle` has no value before the first `open`.
pub data Handle : Type 0 where
  uninitialised invalid valid : Handle

pub record I2c : Type 0 where
  pub is_open : Bool
  pub handle : Handle
  pub info : Info

unfoldable pub create : Info → I2c
create info = record { is_open = false; handle = uninitialised; info = info }

-- `close` with the handle that it finds.
unfoldable pub close_handle : Handle → I2c → I2c × List Call
close_handle invalid d = (d, [])
close_handle _ d = (record d { handle = invalid }, closes d.info.dev_index ∷ [])

unfoldable pub close : I2c → I2c × List Call
close d = close_handle d.handle d

-- `speedMode`.
unfoldable pub speed_mode : ℕ → ℕ
speed_mode speed = bit_or speed 0x03

unfoldable pub open_i2c : Device → I2c → I2c × Bool × List Call
open_i2c device d =
    if device.opens
    then if device.sets_stream (speed_mode d.info.speed)
      then (
        record d { handle = valid },
        true,
        opens d.info.dev_index ∷ sets_stream d.info.dev_index (speed_mode d.info.speed) ∷ [],
      )
      else (
        (close (record d { handle = valid })).0,
        false,
        opens d.info.dev_index
            ∷ sets_stream d.info.dev_index (speed_mode d.info.speed)
            ∷ (close (record d { handle = valid })).1,
      )
    else (record d { handle = invalid }, false, opens d.info.dev_index ∷ [])

unfoldable pub last_byte : ℕ → List ℕ → ℕ
last_byte b [] = b
last_byte b (c ∷ cs) = last_byte c cs

-- The bytes that answer a command hold an acknowledgement: bit 7 of the last one is clear.
unfoldable pub is_ack : Option (List ℕ) → Bool
is_ack none = false
is_ack (some []) = false
is_ack (some (b ∷ bs)) = bit_and (last_byte b bs) 0x80 == 0

module _ (cmd : Commands) (device : Device) where
  unfoldable pub start_packet : List ℕ
  start_packet = cmd.stream ∷ cmd.start ∷ cmd.end ∷ []

  unfoldable pub stop_packet : List ℕ
  stop_packet = cmd.stream ∷ cmd.stop ∷ cmd.end ∷ []

  unfoldable pub out_packet : ℕ → List ℕ
  out_packet byte = cmd.stream ∷ cmd.out ∷ byte ∷ cmd.end ∷ []

  unfoldable pub issue_start : Bool × List Call
  issue_start = (device.writes start_packet, writes start_packet ∷ [])

  unfoldable pub issue_stop : Bool × List Call
  issue_stop = (device.writes stop_packet, writes stop_packet ∷ [])

  unfoldable pub check_ack : ℕ → Bool × List Call
  check_ack byte =
      (is_ack (device.writes_reads (out_packet byte)), writes_reads (out_packet byte) ∷ [])

  -- `_devAddr << 1` as a byte.
  abbrev pub shifted : I2c → ℕ
  shifted d = d.info.dev_addr * 2 % 2 ^ 8

  unfoldable pub check_dev : I2c → Bool × List Call
  check_dev d =
      if issue_start.0
      then ((check_ack (shifted d)).0, issue_start.1 ++ (check_ack (shifted d)).1 ++ issue_stop.1)
      else (false, issue_start.1)

  -- What `read` sends: the address and the register.
  abbrev pub command : I2c → List ℕ
  command d = shifted d ∷ d.info.reg_addr ∷ []

  -- `read` of the build without strict mode: its answer, and its calls.
  unfoldable pub read : I2c → ℕ → Bool × List Call
  read d size =
      if (check_dev d).0
      then (device.streams (command d) size, (check_dev d).1 ++ streams (command d) size ∷ [])
      else (false, (check_dev d).1)

  -- `read` of the strict build, or `none` where its assertion fails.
  unfoldable pub read_strict : I2c → ℕ → Option (Bool × List Call)
  read_strict d size = if d.is_open then some (read d size) else none
