-- ===== src/GsUsb/Setup/Session.antt =====
-- drivers/gs_usb/driver.rs: what a driver asks for while a channel is set up, as steps.
use win_can_utils.Base.{
  ℕ, ◌==◌, if◌then◌else◌, ◌≡◌, Bool, true, false, List, [], ◌∷◌, ◌++◌, Option, none, some,
}
use win_can_utils.Base.Bytes.{to_le_bytes}
use win_can_utils.Can.{CanApi}
use win_can_utils.Io.{IoResult, ok, err, ErrorKind}
use win_can_utils.GsUsb.Constants.{
  gs_usb_breq_bittiming, gs_usb_breq_mode, gs_usb_breq_timestamp, gs_can_mode_reset,
  gs_can_mode_start, request_type_out,
}
use win_can_utils.GsUsb.Requests.{Request, control_out, control_in, bulk_write, clear_halt, Device}
use win_can_utils.GsUsb.BitTiming.{GsBtConst, GsDeviceBitTiming, Scores, calc_bit_timing}
use win_can_utils.GsUsb.Driver.{
  GsUsbDriver, Log, Driven, mode_request, open_channel, close_channel_inner, enable_timestamp,
}
use win_can_utils.GsUsb.Setup.Channel.{timing_request, set_bitrate, open_listen_only}

abbrev pub Situation : Type 0
Situation = GsUsbDriver × Log

-- The calls of a driver's owner that set a channel up.
pub data Call : Type 0 where
  call_set_bitrate : ℕ → Call
  call_enable_timestamp call_open_channel call_open_listen_only call_close_channel : Call

-- What the device has been told: the last timing that it accepted, and whether the last mode that it
-- accepted is START.
pub record Adapter : Type 0 where
  pub timing : Option (List ℕ)
  pub running : Bool

abbrev pub fresh : Adapter
fresh = record { timing = none; running = false }

-- The lowest byte of the mode
unfoldable pub is_start : List ℕ → Bool
is_start [] = false
is_start (b ∷ bs) = b == gs_can_mode_start

unfoldable pub told : ℕ → List ℕ → Adapter → Adapter
told request bytes a =
    if request == gs_usb_breq_bittiming
    then record a { timing = some bytes }
    else if request == gs_usb_breq_mode
    then record a { running = is_start bytes }
    else a

unfoldable pub hear : IoResult ℕ → Request → Adapter → Adapter
hear (err kind) r a = a
hear (ok n) (control_out request_type request word index bytes) a = told request bytes a
hear (ok n) (control_in request_type request word index len) a = a
hear (ok n) (bulk_write endpoint bytes) a = a
hear (ok n) (clear_halt endpoint) a = a

unfoldable pub hear_all : Device → Log → Log → Adapter → Adapter
unfolding hear
hear_all device before [] a = a
hear_all device before (r ∷ rs) a =
    hear_all device (before ++ (r ∷ [])) rs (hear (device.answer (before ++ (r ∷ []))) r a)

unfoldable pub adapter_at : Device → Log → Adapter
adapter_at device log = hear_all device [] log fresh

module _ (can : CanApi) (device : Device) (scores : Scores) where
  unfoldable pub perform : Call → GsUsbDriver → Log → Driven can device
  perform (call_set_bitrate bitrate) d log = set_bitrate can device scores bitrate d log
  perform call_enable_timestamp d log = enable_timestamp can device d log
  perform call_open_channel d log = open_channel can device d log
  perform call_open_listen_only d log = open_listen_only can device d log
  perform call_close_channel d log = close_channel_inner can device d log

  unfoldable pub situation : Driven can device → Situation
  situation (result, d, log) = (d, log)

  -- The calls one after the other, whatever each of them results in.
  unfoldable pub session : List Call → Situation → Situation
  unfolding perform situation
  session [] s = s
  session (call ∷ calls) (d, log) = session calls (situation (perform call d log))

  -- One request, and what it changes in the driver.
  pub data Step : Situation → Situation → Type 0 where
    resets :
        (d : GsUsbDriver) (log : Log)
        → Step (d, log) (d, log ++ (mode_request can device d gs_can_mode_reset 0 ∷ []))
    starts :
        (d : GsUsbDriver) (log : Log) (bitrate flags : ℕ)
        → d.configured_bitrate ≡ some bitrate
        → Step (d, log) (d, log ++ (mode_request can device d gs_can_mode_start flags ∷ []))
    refuses :
        (d : GsUsbDriver) (log : Log) (timing : GsDeviceBitTiming) (kind : ErrorKind)
        → device.answer (log ++ (timing_request can device d timing ∷ [])) ≡ err kind
        → Step (d, log) (d, log ++ (timing_request can device d timing ∷ []))
    programs :
        (d : GsUsbDriver) (log : Log) (caps : GsBtConst) (timing : GsDeviceBitTiming)
        (bitrate n : ℕ)
        → d.bt_const ≡ some caps
        → calc_bit_timing scores bitrate caps ≡ some timing
        → device.answer (log ++ (timing_request can device d timing ∷ [])) ≡ ok n
        → Step
            (d, log)
            (
              record d { configured_bitrate = some bitrate },
              log ++ (timing_request can device d timing ∷ []),
            )
    stamps :
        (d : GsUsbDriver) (log : Log)
        → Step
            (d, log)
            (
              record d { timestamp_enabled = true },
              log
                  ++ (control_out request_type_out gs_usb_breq_timestamp d.channel_index
                        d.interface_number
                        (to_le_bytes 4 1)
                      ∷ []),
            )

  pub data Reach (s : Situation) : Situation → Type 0 where
    here : Reach s s
    next : {t u : Situation} → Reach s t → Step t u → Reach s u
