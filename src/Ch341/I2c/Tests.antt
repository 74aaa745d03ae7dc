-- ===== src/Ch341/I2c/Tests.antt =====
-- Runs of extension/ch341/src/CH341.cpp.
use common_lib.Common.{◌≡◌, refl, true, false, none, some, [], ◌∷◌}
use common_lib.Ch341.I2c.{Commands, Device, valid, I2c, read_strict}

abbrev commands : Commands
commands = record { stream = 170; start = 116; stop = 117; out = 128; end = 0 }

-- A device that acknowledges.
abbrev present : Device
present = record {
  opens = true;
  sets_stream = λ mode. true;
  writes = λ packet. true;
  writes_reads = λ packet. some (0 ∷ []);
  streams = λ bytes size. true;
}

abbrev sensor : I2c
sensor = record {
  is_open = false;
  handle = valid;
  info = record { speed = 1; dev_index = 0; dev_addr = 104; reg_addr = 59 };
}

-- The strict build refuses to read from a device that is open.
read_refused : read_strict commands present sensor 6 ≡ none
unfolding read_strict
read_refused = refl
