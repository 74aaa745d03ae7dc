-- ===== src/Ch341.antt =====
-- extension/ch341, the driver over the library of the vendor.
pub mod I2c
