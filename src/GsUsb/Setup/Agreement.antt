-- ===== src/GsUsb/Setup/Agreement.antt =====
-- The event loop against the driver while a channel is set up: how the loop reads what arrives.
use win_can_utils.Base.{ℕ, ◌%◌, ◌≡◌, refl, sym, true, List, [], ◌∷◌, ◌++◌, some}
use mathlib.Core.Path.{subst}
use win_can_utils.Base.Bytes.{to_le_bytes}
use win_can_utils.Can.{CanApi}
use win_can_utils.GsUsb.Constants.{
  gs_can_mode_reset, gs_can_mode_start, gs_usb_breq_timestamp, request_type_out,
}
use win_can_utils.GsUsb.Requests.{Request, control_out, Device}
use win_can_utils.GsUsb.BitTiming.{Scores}
use win_can_utils.GsUsb.EventLoop.{UsbEventLoop}
use win_can_utils.GsUsb.Commands.{note_mode, note_timestamp, first_is_set}
use win_can_utils.GsUsb.Driver.{GsUsbDriver, Log, mode_request}
use win_can_utils.GsUsb.Setup.{note_request, note_requests}
use win_can_utils.GsUsb.Setup.Channel.{timing_request}
use win_can_utils.GsUsb.Setup.Session.{
  Situation, Call, session, Step, resets, starts, refuses, programs, stamps, Reach, here, next,
}
use win_can_utils.GsUsb.Setup.Steps.{session-Reach}

-- The loop parses as the driver has set the device up.
pub record Agrees (d : GsUsbDriver) (s : UsbEventLoop) : Type 0 where
  pub same_interface : s.iface ≡ d.interface_number
  pub same_channel : s.channel_index ≡ d.channel_index % 256
  pub same_timestamps : s.timestamp_enabled ≡ d.timestamp_enabled
  pub same_packets : s.out_wmax ≡ d.out_wmax
  pub same_padding : s.pad_pkts_enabled ≡ d.pad_pkts

module _ (can : CanApi) (device : Device) (scores : Scores) (start : UsbEventLoop) where
  note_requests-append :
      (log : Log) (r : Request) (s : UsbEventLoop)
      → note_requests device (log ++ (r ∷ [])) s
        ≡ note_request device r (note_requests device log s)
  unfolding note_requests
  note_requests-append [] r s = refl
  note_requests-append (x ∷ log) r s = note_requests-append log r (note_request device x s)

  abbrev pub Agree : Situation → Type 0
  Agree (d, log) = Agrees d (note_requests device log start)

  after_note :
      (d : GsUsbDriver) (log : Log) (r : Request)
      → Agrees d (note_request device r (note_requests device log start))
      → Agree (d, log ++ (r ∷ []))
  after_note d log r h = subst (Agrees d) (sym (note_requests-append log r start)) h

  mode-Agrees :
      (d : GsUsbDriver) (mode flags : ℕ) (s : UsbEventLoop)
      → Agrees d s
      → Agrees d (note_request device (mode_request can device d mode flags) s)
  unfolding note_request note_mode note_timestamp mode_request
  mode-Agrees d mode flags s h = record {
    same_interface = h.same_interface;
    same_channel = refl;
    same_timestamps = h.same_timestamps;
    same_packets = h.same_packets;
    same_padding = h.same_padding;
  }

  Step-Agree : {s t : Situation} → Step can device scores s t → Agree s → Agree t
  unfolding note_request note_mode note_timestamp timing_request first_is_set to_le_bytes
  Step-Agree (resets d log) h =
      after_note d log (mode_request can device d gs_can_mode_reset 0)
        (mode-Agrees d gs_can_mode_reset 0 (note_requests device log start) h)
  Step-Agree (starts d log bitrate flags set) h =
      after_note d log (mode_request can device d gs_can_mode_start flags)
        (mode-Agrees d gs_can_mode_start flags (note_requests device log start) h)
  Step-Agree (refuses d log timing kind e) h =
      after_note d log (timing_request can device d timing) h
  Step-Agree (programs d log caps timing bitrate n known found e) h =
      let h' : Agrees (record d { configured_bitrate = some bitrate })
          (note_requests device log start) =
        record {
          same_interface = h.same_interface;
          same_channel = h.same_channel;
          same_timestamps = h.same_timestamps;
          same_packets = h.same_packets;
          same_padding = h.same_padding;
        } in
      after_note (record d { configured_bitrate = some bitrate }) log
        (timing_request can device d timing) h'
  Step-Agree (stamps d log) h =
      after_note (record d { timestamp_enabled = true }) log
        (control_out request_type_out gs_usb_breq_timestamp d.channel_index d.interface_number
          (to_le_bytes 4 1))
        (record {
          same_interface = h.same_interface;
          same_channel = h.same_channel;
          same_timestamps = refl;
          same_packets = h.same_packets;
          same_padding = h.same_padding;
        })

  Reach-Agree : {s t : Situation} → Reach can device scores s t → Agree s → Agree t
  Reach-Agree here h = h
  Reach-Agree (next r step) h = Step-Agree step (Reach-Agree r h)

  pub session-Agree :
      (calls : List Call) (s : Situation) → Agree s → Agree (session can device scores calls s)
  session-Agree calls s h = Reach-Agree (session-Reach can device scores calls s) h
