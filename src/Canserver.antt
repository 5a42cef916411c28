-- ===== src/Canserver.antt =====
-- bin/canserver.rs and thread_manager_async.rs: the server between a driver and its clients.
pub mod Names
pub mod Bridge
pub mod Init
pub mod Pipes
pub mod Shutdown
mod Tests
