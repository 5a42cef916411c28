-- ===== src/GsUsb/Setup/Opened.antt =====
-- The handshake of the gs_usb driver: that it does not panic, and what the driver and the event loop
-- are left with.
use win_can_utils.Base.{
  ℕ, ◌≡◌, refl, sym, ap, Bool, false, List, [], none, Outcome, value, panic, ◌>>=◌,
}
use mathlib.Core.Path.{subst}
use win_can_utils.Base.Bytes.{to_le_bytes}
use win_can_utils.Io.{IoResult, ok, err}
use win_can_utils.GsUsb.Constants.{
  gs_usb_breq_host_format, gs_usb_breq_device_config, request_type_in, request_type_out,
}
use win_can_utils.GsUsb.Requests.{Device}
use win_can_utils.GsUsb.BitTiming.{GsBtConst}
use win_can_utils.GsUsb.Discovery.{InterfaceInfo, Selection}
use win_can_utils.GsUsb.Context.{Rc, done, failed}
use win_can_utils.GsUsb.EventLoop.{UsbEventLoop, new_event_loop}
use win_can_utils.GsUsb.Commands.{update_config, handle_command}
use win_can_utils.GsUsb.Driver.{GsUsbDriver, Log}
use win_can_utils.GsUsb.Setup.{
  Asked, new_driver, note_requests, wants_padding, cmd_control_in, cmd_control_out, read_bt_const,
  read_device_config, to_config, read_features, send_host_format, whole_write,
}
use win_can_utils.GsUsb.Setup.Agreement.{Agrees}
use win_can_utils.GsUsb.Setup.Open.{
  Opening, or_no_features, with_features, after_config, with_limits, after_limits, after_format,
  negotiate, open_selected,
}
use win_can_utils.GsUsb.Setup.Quiet.{
  IsHandshake, AreHandshake, IsQuiet, after_read, read_bt_const-IsQuiet, read_features-IsQuiet,
  note_handshake,
}

-- The call returns; if it gives a driver, only handshake requests have been made, the driver has no
-- bitrate yet, and the event loop parses as the driver expects.
pub record IsReady (device : Device) (d : GsUsbDriver) (s : UsbEventLoop) (log : Log) : Type 0 where
  pub handshake_only : AreHandshake log
  pub no_rate : d.configured_bitrate ≡ none
  pub agrees : Agrees d s
  pub nothing_read : (s.rx_buffer ≡ []) × (s.last_timestamp64 ≡ none)

unfoldable pub IsOpened : Device → Opening → Type 0
IsOpened device panic = ⊥
IsOpened device (value (err kind, log)) = Unit
IsOpened device (value (ok (d, s), log)) = IsReady device d s log

quiet_then :
    {A : Type 0} (device : Device) (read : Outcome (Asked A)) (next : Asked A → Opening)
    → IsQuiet read
    → ((asked : Asked A) → AreHandshake asked.1 → IsOpened device (next asked))
    → IsOpened device (read >>= next)
unfolding IsQuiet
quiet_then device panic next quiet ends = absurd quiet
quiet_then device (value asked) next quiet ends = ends asked quiet

module _ (device : Device) (info : InterfaceInfo) where
  abbrev pub started : UsbEventLoop
  started = new_event_loop info.interface_number info.in_ep info.out_wmax false

  module _ (caps : GsBtConst) where
    abbrev limited : GsUsbDriver
    limited = with_limits device info started (new_driver info) caps

    configured-Agrees :
        (read : IoResult ℕ) (log : Log) (s : UsbEventLoop)
        → started ≡ s
        → Agrees
            (record limited {
              features = or_no_features read;
              out_wmax = info.out_wmax;
              pad_pkts = wants_padding (or_no_features read);
            })
            (handle_command device s log
              (update_config info.out_wmax (wants_padding (or_no_features read)))).state
    unfolding handle_command with_limits new_driver new_event_loop
    configured-Agrees read log s same =
        subst
          (λ t.
            Agrees
              (record limited {
                features = or_no_features read;
                out_wmax = info.out_wmax;
                pad_pkts = wants_padding (or_no_features read);
              })
              (handle_command device t log
                (update_config info.out_wmax (wants_padding (or_no_features read)))).state)
          same
          (record {
            same_interface = refl;
            same_channel = refl;
            same_timestamps = refl;
            same_packets = refl;
            same_padding = refl;
          })

    nothing_read_yet :
        (pad : Bool) (log : Log) (s : UsbEventLoop)
        → started ≡ s
        → ((handle_command device s log (update_config info.out_wmax pad)).state.rx_buffer ≡ [])
          × ((handle_command device s log (update_config info.out_wmax pad)).state.last_timestamp64
              ≡ none)
    unfolding handle_command new_event_loop
    nothing_read_yet pad log s same =
        (ap (λ t. t.rx_buffer) (sym same), ap (λ t. t.last_timestamp64) (sym same))

    with_features-IsOpened :
        (asked : Asked ℕ)
        → AreHandshake asked.1
        → IsOpened device (value (with_features device info started limited asked))
    unfolding IsOpened with_features with_limits new_driver
    with_features-IsOpened (read, log) quiet = record {
      handshake_only = quiet;
      no_rate = refl;
      agrees =
          configured-Agrees read log (note_requests device log started)
            (sym (note_handshake device log started quiet));
      nothing_read =
          nothing_read_yet (wants_padding (or_no_features read)) log
            (note_requests device log started) (sym (note_handshake device log started quiet));
    }

    after_config-IsOpened :
        (asked : Asked (List ℕ))
        → AreHandshake asked.1
        → IsOpened device (after_config device info started limited asked)
    unfolding IsOpened after_config
    after_config-IsOpened (err kind, log) quiet = tt
    after_config-IsOpened (ok config, log) quiet =
        quiet_then device (read_features device limited log)
          (λ read. value (with_features device info started limited read))
          (read_features-IsQuiet device limited log quiet) with_features-IsOpened

    config-AreHandshake :
        (asked : Asked (List ℕ)) → AreHandshake asked.1 → AreHandshake (to_config device asked).1
    unfolding to_config
    config-AreHandshake (err kind, log) quiet = quiet
    config-AreHandshake (ok buf, log) quiet = quiet

  after_limits-IsOpened :
      (asked : Asked GsBtConst)
      → AreHandshake asked.1
      → IsOpened device (after_limits device info started (new_driver info) asked)
  unfolding IsOpened after_limits read_device_config cmd_control_in new_driver
  after_limits-IsOpened (err kind, log) quiet = tt
  after_limits-IsOpened (ok caps, log) quiet =
      after_config-IsOpened caps (read_device_config device (limited caps) log) (
        config-AreHandshake caps
          (cmd_control_in device request_type_in gs_usb_breq_device_config 1 info.interface_number 8
            log)
          (after_read device log quiet gs_usb_breq_device_config 1 info.interface_number 8))

  after_format-IsOpened :
      (asked : Asked Unit)
      → AreHandshake asked.1
      → IsOpened device (after_format device info started (new_driver info) asked)
  unfolding IsOpened after_format
  after_format-IsOpened (err kind, log) quiet = tt
  after_format-IsOpened (ok _, log) quiet =
      quiet_then device (read_bt_const device (new_driver info) log)
        (after_limits device info started (new_driver info))
        (read_bt_const-IsQuiet device (new_driver info) log quiet) after_limits-IsOpened

  written-AreHandshake :
      (asked : Asked ℕ) → AreHandshake asked.1 → AreHandshake (whole_write device 4 asked).1
  unfolding whole_write
  written-AreHandshake (err kind, log) quiet = quiet
  written-AreHandshake (ok written, log) quiet = quiet

  format-AreHandshake : AreHandshake (send_host_format device (new_driver info) []).1
  unfolding send_host_format cmd_control_out IsHandshake
  format-AreHandshake =
      written-AreHandshake
        (cmd_control_out device request_type_out gs_usb_breq_host_format 1
          (new_driver info).interface_number (to_le_bytes 4 0xBEEF) [])
        (refl, tt)

  -- Whatever the device answers, the handshake does not panic. If it gives a driver, only the host
  -- format has been sent and the rest was reading, no bitrate is set yet, and the event loop has the
  -- driver's interface, channel, packet size, and padding and timestamp modes.
  pub negotiate-IsOpened : IsOpened device (negotiate device info started [])
  unfolding negotiate
  negotiate-IsOpened =
      after_format-IsOpened (send_host_format device (new_driver info) []) format-AreHandshake

-- The same of a device that is selected, claimed and set, whatever these result in.
open_selected-IsOpened :
    (device : Device) (selected : IoResult Selection) (claimed : IoResult {0} Unit) (alternate : Rc)
    → IsOpened device (open_selected device selected claimed alternate)
unfolding IsOpened open_selected
open_selected-IsOpened device (err kind) claimed alternate = tt
open_selected-IsOpened device (ok selection) (err kind) alternate = tt
open_selected-IsOpened device (ok selection) (ok _) (failed code) = tt
open_selected-IsOpened device (ok selection) (ok _) (done n) =
    negotiate-IsOpened device selection.info
