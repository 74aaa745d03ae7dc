-- ===== src/Utils.antt =====
-- The helpers of common/src/utils and common/include/common/utils.
pub mod Misc
pub mod Strings
