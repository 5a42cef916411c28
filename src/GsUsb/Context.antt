-- ===== src/GsUsb/Context.antt =====
-- drivers/gs_usb/context.rs and the timeout of constants.rs: what transfers of libusb result in, and the
-- memory that they use (Transfers). A code of libusb below zero is given by its size.
pub mod Transfers
pub mod Memory
pub mod Timeouts
mod Tests
use win_can_utils.Base.{
  ℕ, zero, suc, ◌+◌, ◌-◌, ◌/◌, ◌^◌, ◌==◌, ltb, if◌then◌else◌, Bool, true, false, List, [], ◌∷◌,
  ◌++◌, take, Option, none, some,
}
use win_can_utils.Io.{
  IoResult, ok, err, ErrorKind, would_block, broken_pipe, not_connected, not_found, interrupted,
  other,
}

-- What a call of libusb returns: at least zero, or an error's code.
pub data Rc : Type 0 where
  done : ℕ → Rc
  failed : ℕ → Rc

unfoldable pub map_libusb_error : ℕ → ErrorKind
map_libusb_error code =
    if code == 7
    then would_block
    else if code == 9
    then broken_pipe
    else if code == 4
    then not_connected
    else if code == 5
    then not_found
    else if code == 10
    then interrupted
    else other

-- The transfer's states in libusb's order, `LIBUSB_TRANSFER_COMPLETED` being 0.
unfoldable pub map_transfer_status : ℕ → ErrorKind
map_transfer_status status =
    if status == 2
    then would_block
    else if status == 4
    then broken_pipe
    else if status == 5
    then not_connected
    else if status == 3
    then interrupted
    else other

-- `duration_to_timeout`, of a duration in nanoseconds
unfoldable pub duration_to_timeout : ℕ → ℕ
duration_to_timeout nanos =
    let millis = nanos / 1_000_000 in
    if nanos == 0
    then 0
    else if millis == 0
    then 1
    else if ltb (2 ^ 32 - 1) millis
    then 2 ^ 32 - 1
    else millis

-- `claim_interface`, `clear_halt` and the like
unfoldable pub unit_result : Rc → IoResult {0} Unit
unit_result (failed code) = err (map_libusb_error code)
unit_result (done n) = ok tt

-- LIBUSB_ERROR_NOT_SUPPORTED is no error here.
unfoldable pub set_auto_detach_kernel_driver : Rc → IoResult {0} Unit
set_auto_detach_kernel_driver (failed code) =
    if code == 12 then ok tt else err (map_libusb_error code)
set_auto_detach_kernel_driver (done n) = ok tt

-- `bulk_write_blocking`, with the number of bytes transferred
unfoldable pub bulk_write_blocking : Rc → ℕ → IoResult ℕ
bulk_write_blocking (failed code) transferred = err (map_libusb_error code)
bulk_write_blocking (done n) transferred = ok transferred

unfoldable pub bulk_read_blocking : Rc → ℕ → List ℕ → IoResult (List ℕ)
bulk_read_blocking (failed code) transferred buffer = err (map_libusb_error code)
bulk_read_blocking (done n) transferred buffer = ok (take transferred buffer)

-- `control_out_blocking` and `control_in_blocking`
unfoldable pub control_blocking : Rc → IoResult ℕ
control_blocking (failed code) = err (map_libusb_error code)
control_blocking (done n) = ok n

-- `bulk_write_callback` and `control_callback`, what they send
unfoldable pub count_result : ℕ → ℕ → IoResult ℕ
count_result status actual = if status == 0 then ok actual else err (map_transfer_status status)

-- `bulk_read_callback`, what it sends; the buffer is taken here only.
unfoldable pub read_result : ℕ → ℕ → List ℕ → IoResult (List ℕ)
read_result status actual buffer =
    if status == 0 then ok (take actual buffer) else err (map_transfer_status status)

-- The bytes that `loop_read_callback` hands on.
unfoldable pub loop_read_bytes : ℕ → ℕ → List ℕ → Option (List ℕ)
loop_read_bytes status actual buffer =
    if status == 0 then if ltb 0 actual then some (take actual buffer) else none else none
