-- ===== src/GsUsb/Commands.antt =====
-- drivers/gs_usb/driver.rs, `UsbEventLoop`: the commands of the driver, and failed transfers.
-- Each function takes the requests made so far and gives them with its own behind.
pub mod Recovery
mod Tests
use win_can_utils.Base.{
  ℕ, ◌%◌, ◌==◌, not, if◌then◌else◌, Bool, true, false, List, [], ◌∷◌, ◌++◌, take, Option, none,
  some,
}
use win_can_utils.Can.{CanApi}
use win_can_utils.Io.{
  IoResult, ok, err, ErrorKind, would_block, broken_pipe, not_connected, not_found, interrupted,
  other, invalid_input, invalid_data, timed_out, unexpected_eof,
}
use win_can_utils.GsUsb.Constants.{
  gs_usb_breq_mode, gs_usb_breq_timestamp, gs_can_mode_reset, gs_can_mode_start, request_type_out,
}
use win_can_utils.GsUsb.Requests.{
  Request, control_out, control_in, bulk_write, clear_halt, Device, encode_mode,
}
use win_can_utils.GsUsb.EventLoop.{UsbEventLoop}

abbrev pub Log : Type 0
Log = List Request

pub data UsbCommand : Type 0 where
  do_control_out : ℕ → ℕ → ℕ → ℕ → List ℕ → UsbCommand
  do_control_in : ℕ → ℕ → ℕ → ℕ → ℕ → UsbCommand
  do_bulk_write : ℕ → List ℕ → UsbCommand
  shutdown : UsbCommand
  update_config : ℕ → Bool → UsbCommand

-- What is sent on the command's reply channel.
pub data Reply : Type 0 where
  no_reply : Reply
  count : IoResult ℕ → Reply
  buffer : IoResult (List ℕ) → Reply

module _ (device : Device) where
  abbrev pub mode_request : UsbEventLoop → ℕ → Request
  mode_request s mode =
      control_out request_type_out gs_usb_breq_mode s.channel_index s.iface (encode_mode mode 0)

  -- RESET and START; the first failure ends it.
  pub recover_after_stall : UsbEventLoop → Log → IoResult {0} Unit × Log
  recover_after_stall s log =
      let reset = log ++ (mode_request s gs_can_mode_reset ∷ []) in
      elim (device.answer reset) [
        | err kind ↦ (err kind, reset)
        | ok _ ↦
            let start = reset ++ (mode_request s gs_can_mode_start ∷ []) in
            elim (device.answer start) [ err kind ↦ (err kind, start) | ok _ ↦ (ok tt, start) ]
      ]

  -- An error of the recovery takes the place of the write's.
  pub stall_result : IoResult {0} Unit × Log → IoResult ℕ × Log
  stall_result (err kind, log) = (err kind, log)
  stall_result (ok _, log) = (err broken_pipe, log)

  pub after_stall : UsbEventLoop → Log → IoResult ℕ × Log
  unfolding stall_result
  after_stall s log = stall_result (recover_after_stall s log)

  pub handle_write_error : UsbEventLoop → ℕ → ErrorKind → Log → IoResult ℕ × Log
  handle_write_error s endpoint would_block log =
      (err would_block, log ++ (clear_halt endpoint ∷ []))
  handle_write_error s endpoint broken_pipe log = after_stall s (log ++ (clear_halt endpoint ∷ []))
  handle_write_error s endpoint not_connected log = (err not_connected, log)
  handle_write_error s endpoint not_found log = (err not_found, log)
  handle_write_error s endpoint interrupted log = (err interrupted, log)
  handle_write_error s endpoint other log = (err other, log)
  handle_write_error s endpoint invalid_input log = (err invalid_input, log)
  handle_write_error s endpoint invalid_data log = (err invalid_data, log)
  handle_write_error s endpoint timed_out log = (err timed_out, log)
  handle_write_error s endpoint unexpected_eof log = (err unexpected_eof, log)

  -- `UsbEventLoop::bulk_write`
  pub write_bulk : UsbEventLoop → ℕ → List ℕ → Log → IoResult ℕ × Log
  write_bulk s endpoint bytes log =
      let written = log ++ (bulk_write endpoint bytes ∷ []) in
      elim (device.answer written) [
        | ok n ↦ (ok n, written)
        | err kind ↦ handle_write_error s endpoint kind written
      ]

  -- `data.first().map(|b| *b != 0).unwrap_or(false)`
  unfoldable pub first_is_set : List ℕ → Bool
  first_is_set [] = false
  first_is_set (b ∷ bs) = not (b == 0)

  unfoldable pub note_mode : ℕ → ℕ → UsbEventLoop → UsbEventLoop
  note_mode request value s =
      if request == gs_usb_breq_mode then record s { channel_index = value % 256 } else s

  unfoldable pub note_timestamp : ℕ → List ℕ → UsbEventLoop → UsbEventLoop
  note_timestamp request bytes s =
      if request == gs_usb_breq_timestamp
      then record s { timestamp_enabled = first_is_set bytes }
      else s

  pub record Handled : Type 0 where
    pub running : Bool
    pub state : UsbEventLoop
    pub requests : Log
    pub reply : Reply

  unfoldable pub read_buffer : Log → IoResult (List ℕ)
  read_buffer log = elim (device.answer log) [
    | err kind ↦ err kind
    | ok written ↦ ok (take written (device.filled log))
  ]

  unfoldable pub handle_command : UsbEventLoop → Log → UsbCommand → Handled
  handle_command s log (do_control_out request_type request value index bytes) =
      let log' = log ++ (control_out request_type request value index bytes ∷ []) in
      record {
        running = true;
        state = note_timestamp request bytes (note_mode request value s);
        requests = log';
        reply = count (device.answer log');
      }
  handle_command s log (do_control_in request_type request value index len) =
      let log' = log ++ (control_in request_type request value index len ∷ []) in
      record { running = true; state = s; requests = log'; reply = buffer (read_buffer log') }
  handle_command s log (update_config out_wmax pad) = record {
    running = true;
    state = record s { out_wmax = out_wmax; pad_pkts_enabled = pad };
    requests = log;
    reply = no_reply;
  }
  handle_command s log (do_bulk_write endpoint bytes) =
      let (result, log') = write_bulk s endpoint bytes log in
      record { running = true; state = s; requests = log'; reply = count result }
  handle_command s log shutdown = record {
    running = false;
    state = s;
    requests = log;
    reply = no_reply;
  }
