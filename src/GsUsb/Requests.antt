-- ===== src/GsUsb/Requests.antt =====
-- The requests that drivers/gs_usb/driver.rs makes of a device handle, in the order they are made.
use win_can_utils.Base.{ℕ, List, ◌++◌}
use win_can_utils.Base.Bytes.{to_le_bytes}
use win_can_utils.Io.{IoResult}

pub data Request : Type 0 where
  control_out : ℕ → ℕ → ℕ → ℕ → List ℕ → Request
  control_in : ℕ → ℕ → ℕ → ℕ → ℕ → Request
  bulk_write : ℕ → List ℕ → Request
  clear_halt : ℕ → Request

-- A device answers a request by all that was asked before, the request itself last: with a number of
-- bytes, and for `control_in` with the buffer. Timeouts are a matter of the device.
pub record Device : Type 0 where
  pub answer : List Request → IoResult ℕ
  pub filled : List Request → List ℕ

-- `encode_mode` of bit_timing.rs
unfoldable pub encode_mode : ℕ → ℕ → List ℕ
encode_mode mode flags = to_le_bytes 4 mode ++ to_le_bytes 4 flags
