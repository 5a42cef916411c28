-- ===== src/GsUsb/Setup/Channel.antt =====
-- drivers/gs_usb/driver.rs: the bitrate, and opening to listen only.
use win_can_utils.Base.{ℕ, ◌∷◌, [], ◌++◌, bit_or, Option, none, some}
use win_can_utils.Can.{CanApi}
use win_can_utils.Io.{ok, err, other, invalid_input}
use win_can_utils.GsUsb.Constants.{
  gs_usb_breq_bittiming, gs_can_mode_reset, gs_can_mode_start, gs_can_mode_listen_only,
  request_type_out,
}
use win_can_utils.GsUsb.Requests.{Request, control_out, Device}
use win_can_utils.GsUsb.BitTiming.{GsBtConst, GsDeviceBitTiming, Scores, to_bytes, calc_bit_timing}
use win_can_utils.GsUsb.Driver.{GsUsbDriver, Log, Driven, mode_request, mode_flags, request_unit}

module _ (can : CanApi) (device : Device) where
  unfoldable pub timing_request : GsUsbDriver → GsDeviceBitTiming → Request
  timing_request d timing =
      control_out request_type_out gs_usb_breq_bittiming d.channel_index d.interface_number
        (to_bytes timing)

  -- A RESET and the timing; the rate is kept once both are accepted.
  unfoldable pub send_timing : ℕ → GsDeviceBitTiming → GsUsbDriver → Log → Driven can device
  send_timing bitrate timing d log =
      let log' = log ++ (timing_request d timing ∷ []) in
      elim (device.answer log') [
        | err kind ↦ (err kind, d, log')
        | ok _ ↦ (ok tt, record d { configured_bitrate = some bitrate }, log')
      ]

  unfoldable pub program : ℕ → GsDeviceBitTiming → GsUsbDriver → Log → Driven can device
  program bitrate timing d log =
      let reset = log ++ (mode_request can device d gs_can_mode_reset 0 ∷ []) in
      elim (device.answer reset) [
        | err kind ↦ (err kind, d, reset)
        | ok _ ↦ send_timing bitrate timing d reset
      ]

  unfoldable pub program_if : ℕ → Option GsDeviceBitTiming → GsUsbDriver → Log → Driven can device
  program_if bitrate none d log = (err invalid_input, d, log)
  program_if bitrate (some timing) d log = program bitrate timing d log

  unfoldable pub set_bitrate_if :
      Scores → ℕ → Option GsBtConst → GsUsbDriver → Log → Driven can device
  unfolding program_if
  set_bitrate_if scores bitrate none d log = (err other, d, log)
  set_bitrate_if scores bitrate (some caps) d log =
      program_if bitrate (calc_bit_timing scores bitrate caps) d log

  unfoldable pub set_bitrate : Scores → ℕ → GsUsbDriver → Log → Driven can device
  unfolding set_bitrate_if
  set_bitrate scores bitrate d log = set_bitrate_if scores bitrate d.bt_const d log

  unfoldable pub get_bitrate : GsUsbDriver → Option ℕ
  get_bitrate d = d.configured_bitrate

  unfoldable pub with_extra : Option ℕ → ℕ → ℕ
  with_extra none flags = flags
  with_extra (some f) flags = bit_or flags f

  unfoldable pub open_channel_with_flags : Option ℕ → GsUsbDriver → Log → Driven can device
  open_channel_with_flags extra d log =
      let reset = log ++ (mode_request can device d gs_can_mode_reset 0 ∷ []) in
      elim (device.answer reset) [
        | err kind ↦ (err kind, d, reset)
        | ok _ ↦
            request_unit can device d
              (mode_request can device d gs_can_mode_start
                (with_extra extra (mode_flags can device d)))
              reset
      ]

  unfoldable pub listen_if : Option ℕ → GsUsbDriver → Log → Driven can device
  listen_if none d log = (err invalid_input, d, log)
  listen_if (some bitrate) d log = open_channel_with_flags (some gs_can_mode_listen_only) d log

  unfoldable pub open_listen_only : GsUsbDriver → Log → Driven can device
  unfolding listen_if
  open_listen_only d log = listen_if d.configured_bitrate d log
