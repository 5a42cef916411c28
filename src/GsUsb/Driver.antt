-- ===== src/GsUsb/Driver.antt =====
-- drivers/gs_usb/driver.rs, `GsUsbDriver`: sending frames, and the requests that open and close the
-- channel. A command to the event loop is the request that it passes on; the answer is the device's.
pub mod Sent
pub mod Channel
mod Tests
use win_can_utils.Base.{
  ℕ, ◌==◌, not, ◌&&◌, if◌then◌else◌, bit_and, bit_or, Bool, true, false, List, [], ◌∷◌, ◌++◌,
  length, Option, none, some,
}
use win_can_utils.Base.Bytes.{to_le_bytes}
use win_can_utils.Can.{CanApi}
use win_can_utils.Io.{IoResult, ok, err, ErrorKind, broken_pipe, other, invalid_input}
use win_can_utils.GsUsb.Constants.{
  gs_usb_breq_mode, gs_usb_breq_timestamp, gs_can_mode_reset, gs_can_mode_start,
  gs_can_mode_hw_timestamp, gs_can_mode_pad_pkts, gs_can_feature_fd, request_type_out,
}
use win_can_utils.GsUsb.Requests.{Request, control_out, bulk_write, Device, encode_mode}
use win_can_utils.GsUsb.BitTiming.{GsBtConst}
use win_can_utils.GsUsb.Encode.{
  next_counter, maybe_pad_tx, encode_frame_tx_76, encode_frame_minimal,
}

-- The fields that sending, opening and closing use.
pub record GsUsbDriver : Type 0 where
  pub interface_number : ℕ
  pub out_ep : ℕ
  pub channel_index : ℕ
  pub bt_const : Option GsBtConst
  pub configured_bitrate : Option ℕ
  pub timestamp_enabled : Bool
  pub tx_counter : ℕ
  pub features : ℕ
  pub out_wmax : ℕ
  pub pad_pkts : Bool

abbrev pub Log : Type 0
Log = List Request

-- `e.kind() == io::ErrorKind::BrokenPipe`
pub is_broken_pipe : ErrorKind → Bool
is_broken_pipe broken_pipe = true
is_broken_pipe _ = false

module _ (can : CanApi) (device : Device) where
  open can use {CanFrame}

  abbrev pub Driven : Type 0
  Driven = IoResult {0} Unit × GsUsbDriver × Log

  -- The host frame for the device's format, with the counter's echo identifier.
  pub encode : GsUsbDriver → CanFrame → List ℕ
  encode d frame =
      if not (bit_and d.features gs_can_feature_fd == 0)
      then encode_frame_tx_76 can d.tx_counter d.channel_index frame
      else encode_frame_minimal can d.tx_counter d.channel_index frame

  pub count_up : GsUsbDriver → GsUsbDriver
  count_up d = record d { tx_counter = next_counter d.tx_counter }

  -- A write of another length is incomplete.
  pub judge_write : GsUsbDriver → List ℕ → ℕ → Log → Driven
  judge_write d buf written log = (if written == length buf then ok tt else err other, d, log)

  pub write_again : GsUsbDriver → List ℕ → Log → Driven
  write_again d buf log =
      let log' = log ++ (bulk_write d.out_ep buf ∷ []) in
      elim (device.answer log') [
        | ok written ↦ judge_write d buf written log'
        | err kind ↦ (err kind, d, log')
      ]

  -- Padding is given up, and the frame is encoded anew.
  pub fall_back : GsUsbDriver → CanFrame → Log → Driven
  fall_back d frame log =
      write_again (count_up (record d { pad_pkts = false })) (encode d frame) log

  pub try_tx : GsUsbDriver → CanFrame → List ℕ → Log → Driven
  try_tx d frame buf log =
      let log' = log ++ (bulk_write d.out_ep buf ∷ []) in
      elim (device.answer log') [
        | ok written ↦ judge_write d buf written log'
        | err kind ↦
            if is_broken_pipe kind && d.pad_pkts
            then fall_back d frame log'
            else (err kind, d, log')
      ]

  -- `GsUsbDriver::send_frame`
  pub transmit : GsUsbDriver → CanFrame → Log → Driven
  transmit d frame log =
      try_tx (count_up d) frame (maybe_pad_tx d.pad_pkts d.out_wmax (encode d frame)) log

  unfoldable pub mode_request : GsUsbDriver → ℕ → ℕ → Request
  mode_request d mode flags =
      control_out request_type_out gs_usb_breq_mode d.channel_index d.interface_number
        (encode_mode mode flags)

  unfoldable pub mode_flags : GsUsbDriver → ℕ
  mode_flags d =
      let stamped = if d.timestamp_enabled then bit_or 0 gs_can_mode_hw_timestamp else 0 in
      if d.pad_pkts then bit_or stamped gs_can_mode_pad_pkts else stamped

  unfoldable pub request_unit : GsUsbDriver → Request → Log → Driven
  request_unit d request log =
      let log' = log ++ (request ∷ []) in
      elim (device.answer log') [ err kind ↦ (err kind, d, log') | ok _ ↦ (ok tt, d, log') ]

  unfoldable pub open_channel_inner : GsUsbDriver → Log → Driven
  open_channel_inner d log =
      let reset = log ++ (mode_request d gs_can_mode_reset 0 ∷ []) in
      elim (device.answer reset) [
        | err kind ↦ (err kind, d, reset)
        | ok _ ↦ request_unit d (mode_request d gs_can_mode_start (mode_flags d)) reset
      ]

  unfoldable pub open_if : Option ℕ → GsUsbDriver → Log → Driven
  open_if none d log = (err invalid_input, d, log)
  open_if (some bitrate) d log = open_channel_inner d log

  unfoldable pub open_channel : GsUsbDriver → Log → Driven
  unfolding open_if
  open_channel d log = open_if d.configured_bitrate d log

  unfoldable pub close_channel_inner : GsUsbDriver → Log → Driven
  close_channel_inner d log = request_unit d (mode_request d gs_can_mode_reset 0) log

  -- Whatever the device answers, the mode's flag is used from here on.
  unfoldable pub enable_timestamp : GsUsbDriver → Log → Driven
  enable_timestamp d log = (
    ok tt,
    record d { timestamp_enabled = true },
    log
        ++ (control_out request_type_out gs_usb_breq_timestamp d.channel_index d.interface_number
              (to_le_bytes 4 1)
            ∷ []),
  )
