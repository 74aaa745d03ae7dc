-- ===== src/Communication.antt =====
-- common/include/common/communication and common/src/communication.
pub mod Frame
pub mod Uart
pub mod Socket
pub mod Event
