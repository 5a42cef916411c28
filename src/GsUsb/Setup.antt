-- ===== src/GsUsb/Setup.antt =====
-- drivers/gs_usb/driver.rs, `GsUsbDriver::open` from the handshake on, and the bitrate. A command to
-- the event loop is the request that it passes on; what the loop keeps of it is its own state.
pub mod Open
pub mod Quiet
pub mod Opened
pub mod Whole
pub mod Channel
pub mod Session
pub mod Steps
pub mod InStep
pub mod Agreement
pub mod Tests
use win_can_utils.Base.{
  ℕ, ◌-◌, ◌==◌, not, leb, ltb, if◌then◌else◌, bit_and, bit_or, Bool, false, List, [], ◌∷◌, ◌++◌,
  length, take, replicate, Option, none, some, Outcome, value, ◌>>=◌, slice,
}
use win_can_utils.Base.Bytes.{to_le_bytes, from_le_bytes}
use win_can_utils.Can.{CanApi}
use win_can_utils.Io.{IoResult, ok, err, other, invalid_input}
use win_can_utils.GsUsb.Constants.{
  gs_usb_breq_host_format, gs_usb_breq_bittiming, gs_usb_breq_bt_const, gs_usb_breq_device_config,
  gs_usb_breq_bt_const_ext, gs_can_mode_reset, gs_can_mode_start, gs_can_mode_listen_only,
  gs_can_feature_pad_pkts, request_type_out, request_type_in,
}
use win_can_utils.GsUsb.Requests.{Request, control_out, control_in, bulk_write, clear_halt, Device}
use win_can_utils.GsUsb.EventLoop.{UsbEventLoop}
use win_can_utils.GsUsb.Commands.{
  update_config, note_mode, note_timestamp, read_buffer, handle_command, Handled,
}
use win_can_utils.GsUsb.BitTiming.{
  GsBtConst, GsDeviceBitTiming, Scores, parse_bt_const, to_bytes, calc_bit_timing,
}
use win_can_utils.GsUsb.Driver.{GsUsbDriver, Log, Driven, mode_request, mode_flags, request_unit}
use win_can_utils.GsUsb.Discovery.{InterfaceInfo}

-- `GsUsbDriver { .. }` in `open`
unfoldable pub new_driver : InterfaceInfo → GsUsbDriver
new_driver info = record {
  interface_number = info.interface_number;
  out_ep = info.out_ep;
  channel_index = 0;
  bt_const = none;
  configured_bitrate = none;
  timestamp_enabled = false;
  tx_counter = 0;
  features = 0;
  out_wmax = info.out_wmax;
  pad_pkts = false;
}

abbrev pub Asked : Type 0 → Type 0
Asked A = IoResult A × Log

unfoldable pub wants_padding : ℕ → Bool
wants_padding features = not (bit_and features gs_can_feature_pad_pkts == 0)

module _ (device : Device) where
  -- The event loop's state after it has passed on requests.
  unfoldable pub note_request : Request → UsbEventLoop → UsbEventLoop
  note_request (control_out request_type request word index bytes) s =
      note_timestamp device request bytes (note_mode device request word s)
  note_request (control_in request_type request word index len) s = s
  note_request (bulk_write endpoint bytes) s = s
  note_request (clear_halt endpoint) s = s

  unfoldable pub note_requests : Log → UsbEventLoop → UsbEventLoop
  unfolding note_request
  note_requests [] s = s
  note_requests (r ∷ rs) s = note_requests rs (note_request r s)

  unfoldable pub cmd_control_out : ℕ → ℕ → ℕ → ℕ → List ℕ → Log → Asked ℕ
  cmd_control_out request_type request word index bytes log =
      let log' = log ++ (control_out request_type request word index bytes ∷ []) in
      (device.answer log', log')

  unfoldable pub cmd_control_in : ℕ → ℕ → ℕ → ℕ → ℕ → Log → Asked (List ℕ)
  cmd_control_in request_type request word index len log =
      let log' = log ++ (control_in request_type request word index len ∷ []) in
      (read_buffer device log', log')

  unfoldable pub whole_write : ℕ → Asked ℕ → Asked Unit
  whole_write size (err kind, log) = (err kind, log)
  whole_write size (ok written, log) = (if written == size then ok tt else err other, log)

  unfoldable pub send_host_format : GsUsbDriver → Log → Asked Unit
  unfolding cmd_control_out whole_write
  send_host_format d log = whole_write 4 (
      cmd_control_out request_type_out gs_usb_breq_host_format 1 d.interface_number
        (to_le_bytes 4 0xBEEF) log)

  unfoldable pub send_control : ℕ → List ℕ → Log → Asked Unit
  unfolding cmd_control_out whole_write
  send_control request bytes log =
      whole_write (length bytes) (cmd_control_out request_type_out request 0 0 bytes log)

  -- At most eight bytes, and zeros behind them.
  unfoldable pub to_config : Asked (List ℕ) → Asked (List ℕ)
  to_config (err kind, log) = (err kind, log)
  to_config (ok buf, log) = (
    if ltb (length buf) 4 then err other else ok (take 8 buf ++ replicate (8 - length buf) 0),
    log,
  )

  unfoldable pub read_device_config : GsUsbDriver → Log → Asked (List ℕ)
  unfolding cmd_control_in to_config
  read_device_config d log =
      to_config
        (cmd_control_in request_type_in gs_usb_breq_device_config 1 d.interface_number 8 log)

  unfoldable pub parse_front : List ℕ → Log → Outcome (Asked GsBtConst)
  parse_front buf log = do front ← slice buf 0 40; caps ← parse_bt_const front; value (ok caps, log)

  unfoldable pub whole_limits : Asked (List ℕ) → Outcome (Asked GsBtConst)
  whole_limits (err kind, log) = value (err kind, log)
  whole_limits (ok buf, log) =
      if ltb (length buf) 40 then value (err other, log) else parse_front buf log

  unfoldable pub read_plain : GsUsbDriver → Log → Outcome (Asked GsBtConst)
  unfolding cmd_control_in whole_limits
  read_plain d log =
      whole_limits (cmd_control_in request_type_in gs_usb_breq_bt_const 0 d.interface_number 40 log)

  -- The extended limits, or else the plain ones.
  unfoldable pub or_plain : GsUsbDriver → Asked (List ℕ) → Outcome (Asked GsBtConst)
  or_plain d (err kind, log) = read_plain d log
  or_plain d (ok buf, log) = if leb 40 (length buf) then parse_front buf log else read_plain d log

  unfoldable pub read_bt_const : GsUsbDriver → Log → Outcome (Asked GsBtConst)
  unfolding cmd_control_in or_plain
  read_bt_const d log =
      or_plain d
        (cmd_control_in request_type_in gs_usb_breq_bt_const_ext 0 d.interface_number 52 log)

  unfoldable pub whole_word : Asked (List ℕ) → Asked ℕ
  whole_word (err kind, log) = (err kind, log)
  whole_word (ok b, log) = (if not (length b == 4) then err other else ok (from_le_bytes b), log)

  unfoldable pub plain_features : GsUsbDriver → Log → Outcome (Asked ℕ)
  unfolding cmd_control_in whole_word
  plain_features d log =
      value (
        whole_word (cmd_control_in request_type_in gs_usb_breq_bt_const 0 d.interface_number 4 log))

  unfoldable pub or_plain_features : GsUsbDriver → Asked (List ℕ) → Outcome (Asked ℕ)
  or_plain_features d (err kind, log) = plain_features d log
  or_plain_features d (ok buf, log) =
      if leb 4 (length buf)
      then (do word ← slice buf 0 4; value (ok (from_le_bytes word), log))
      else plain_features d log

  unfoldable pub read_features : GsUsbDriver → Log → Outcome (Asked ℕ)
  unfolding cmd_control_in or_plain_features
  read_features d log =
      or_plain_features d
        (cmd_control_in request_type_in gs_usb_breq_bt_const_ext 0 d.interface_number 52 log)
