-- ===== src/Lifecycle.antt =====
-- common/include/common/lifecycle.
pub mod Resource
pub mod Application
