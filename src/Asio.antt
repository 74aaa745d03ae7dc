-- ===== src/Asio.antt =====
-- common/include/common/asio and common/src/asio.
pub mod Tcp
pub mod Registry
pub mod Broker
pub mod Transport
pub mod Context
pub mod Udp
pub mod Listener
pub mod Connect
pub mod Server
