-- ===== src/GsUsb.antt =====
-- The driver for gs_usb adapters: drivers/gs_usb/.
pub mod Constants
pub mod Frames
pub mod EventLoop
pub mod Encode
pub mod Requests
pub mod Commands
pub mod Driver
pub mod BitTiming
pub mod Discovery
pub mod Setup
pub mod Context
pub mod Run
