-- ===== src/Slcan.antt =====
-- drivers/slcan.rs: lines and the driver.
pub mod Lines
pub mod Driver
mod Tests
