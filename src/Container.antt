-- ===== src/Container.antt =====
-- common/include/common/container.
pub mod SizedQueue
pub mod LockFreeWorkQueue
pub mod WorkQueue
