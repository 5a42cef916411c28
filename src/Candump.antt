-- ===== src/Candump.antt =====
-- bin/candump.rs: the filters of an interface specification, the time stamps and the printed lines.
pub mod Filter
pub mod Stamps
pub mod Output
