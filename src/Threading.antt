-- ===== src/Threading.antt =====
-- common/include/common/threading.
pub mod TaskExecutor
pub mod ActiveRunnable
pub mod Thread
pub mod Timer
pub mod Manager
pub mod Runnable
