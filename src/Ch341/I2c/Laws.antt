-- ===== src/Ch341/I2c/Laws.antt =====
-- What a read of a device comes to on the bus, and what `open` leaves out.
use common_lib.Common.{
  ℕ, zero, suc, ◌<◌, ◌≡◌, ◌⊎◌, inl, inr, refl, ap, ap₂, arith, Bool, true, false, List, [], ◌∷◌,
  ◌++◌, if◌then◌else◌, Bool-cases,
}
use common_lib.Ch341.I2c.{
  Commands, Call, writes, writes_reads, streams, Device, Handle, uninitialised, invalid, valid, I2c,
  close_handle, close, speed_mode, open_i2c, is_ack, start_packet, stop_packet, out_packet,
  issue_start, issue_stop, check_ack, shifted, check_dev, command, read,
}

module _ (cmd : Commands) (device : Device) (d : I2c) (size : ℕ) where
  -- The start, the address and the stop.
  abbrev pub probe : List Call
  probe =
      writes (start_packet cmd device)
      ∷ writes_reads (out_packet cmd device (shifted cmd device d))
      ∷ writes (stop_packet cmd device)
      ∷ []

  abbrev pub acknowledges : Bool
  acknowledges = is_ack (device.writes_reads (out_packet cmd device (shifted cmd device d)))

  -- `read`, with the answers to the start and to the address.
  reads : Bool → Bool → Bool × List Call
  reads starts acks =
      let checked : Bool × List Call =
        if starts then (acks, probe) else (false, writes (start_packet cmd device) ∷ []) in
      if checked.0
      then (
        device.streams (command cmd device d) size,
        checked.1 ++ streams (command cmd device d) size ∷ [],
      )
      else (false, checked.1)

  -- The start is refused; the device does not acknowledge; or it does.
  abbrev pub IsRead : Bool × List Call → Type 0
  IsRead r =
      ((device.writes (start_packet cmd device) ≡ false)
        × (r ≡ (false, writes (start_packet cmd device) ∷ [])))
      ⊎ (((device.writes (start_packet cmd device) ≡ true)
            × (acknowledges ≡ false)
            × (r ≡ (false, probe)))
          ⊎ ((device.writes (start_packet cmd device) ≡ true)
              × (acknowledges ≡ true)
              × (r ≡ (
                device.streams (command cmd device d) size,
                probe ++ streams (command cmd device d) size ∷ [],
              ))))

  -- A `read` is one of three. If the start is refused, nothing else is sent, and it fails. Otherwise
  -- the address and the stop follow whether the device acknowledges or not, so that the bus is
  -- released; without an acknowledgement it fails, and with one the transfer comes last, after the
  -- stop, and its answer is that of `read`.
  pub read_branches : IsRead (read cmd device d size)
  unfolding read check_dev issue_start issue_stop check_ack reads
  read_branches = elim (Bool-cases (device.writes (start_packet cmd device))) [
    | inr a ↦ inl (a, ap (λ b. reads b acknowledges) a)
    | inl a ↦ elim (Bool-cases acknowledges) [
      | inr b ↦ inr (inl (a, b, ap₂ reads a b))
      | inl b ↦ inr (inr (a, b, ap₂ reads a b))
    ]
  ]

-- The speeds of the enumeration all come to the same mode.
pub speed_mode-same : (speed : ℕ) → speed < 4 → speed_mode speed ≡ 3
unfolding speed_mode
speed_mode-same zero h = refl
speed_mode-same (suc zero) h = refl
speed_mode-same (suc (suc zero)) h = refl
speed_mode-same (suc (suc (suc zero))) h = refl
speed_mode-same (suc (suc (suc (suc n)))) h = absurd (omega arith)

-- Neither `open` nor `close` changes `_isOpen`, whatever the library answers.
pub open_i2c-is_open :
    (device : Device) (d : I2c)
    → ((open_i2c device d).0.is_open ≡ d.is_open) × ((close d).0.is_open ≡ d.is_open)
unfolding open_i2c close close_handle
open_i2c-is_open device d = (opened, closed d.handle)
  where
    closed : (h : Handle) → (close_handle h d).0.is_open ≡ d.is_open
    closed uninitialised = refl
    closed invalid = refl
    closed valid = refl

    opened : (open_i2c device d).0.is_open ≡ d.is_open
    opened = elim (Bool-cases device.opens) [
      | inr a ↦ rw a refl
      | inl a ↦ rw a (elim (Bool-cases (device.sets_stream (speed_mode d.info.speed))) [
        | inl b ↦ rw b refl
        | inr b ↦ rw b refl
      ])
    ]
