-- ===== src/Math.antt =====
-- extension/math.
pub mod Result
pub mod Matrix
pub mod Kalman
pub mod Ring
pub mod Angle
pub mod Filter
pub mod ModTwo
