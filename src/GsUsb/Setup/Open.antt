-- ===== src/GsUsb/Setup/Open.antt =====
-- drivers/gs_usb/driver.rs, the handshake of `GsUsbDriver::open`, once the interface is claimed.
use win_can_utils.Base.{ℕ, List, [], Bool, true, false, some, Outcome, value, ◌>>=◌}
use win_can_utils.Io.{IoResult, ok, err}
use win_can_utils.GsUsb.Context.{Rc, done, failed, map_libusb_error}
use win_can_utils.GsUsb.Requests.{Device}
use win_can_utils.GsUsb.EventLoop.{UsbEventLoop, new_event_loop}
use win_can_utils.GsUsb.Commands.{update_config, handle_command}
use win_can_utils.GsUsb.BitTiming.{GsBtConst}
use win_can_utils.GsUsb.Discovery.{InterfaceInfo, Selection}
use win_can_utils.GsUsb.Driver.{GsUsbDriver, Log}
use win_can_utils.GsUsb.Setup.{
  Asked, new_driver, note_requests, wants_padding, send_host_format, read_bt_const,
  read_device_config, read_features,
}

-- `unwrap_or(0)`
unfoldable pub or_no_features : IoResult ℕ → ℕ
or_no_features (ok features) = features
or_no_features (err kind) = 0

-- The driver, and the event loop's state at that time.
abbrev pub Opening : Type 0
Opening = Outcome (Asked (GsUsbDriver × UsbEventLoop))

module _ (device : Device) (info : InterfaceInfo) (start : UsbEventLoop) where
  unfoldable pub with_features : GsUsbDriver → Asked ℕ → Asked (GsUsbDriver × UsbEventLoop)
  unfolding or_no_features
  with_features d (read, log) =
      let features = or_no_features read in
      (
        ok (
          record d {
            features = features;
            out_wmax = info.out_wmax;
            pad_pkts = wants_padding features;
          },
          (handle_command device (note_requests device log start) log
              (update_config info.out_wmax (wants_padding features))).state,
        ),
        log,
      )

  unfoldable pub after_config : GsUsbDriver → Asked (List ℕ) → Opening
  after_config d (err kind, log) = value (err kind, log)
  after_config d (ok _, log) = do read ← read_features device d log; value (with_features d read)

  unfoldable pub with_limits : GsUsbDriver → GsBtConst → GsUsbDriver
  with_limits d caps = record d {
    features = caps.feature;
    bt_const = some caps;
    out_wmax = info.out_wmax;
  }

  unfoldable pub after_limits : GsUsbDriver → Asked GsBtConst → Opening
  unfolding after_config with_limits
  after_limits d (err kind, log) = value (err kind, log)
  after_limits d (ok caps, log) =
      let d' = with_limits d caps in after_config d' (read_device_config device d' log)

  unfoldable pub after_format : GsUsbDriver → Asked Unit → Opening
  unfolding after_limits
  after_format d (err kind, log) = value (err kind, log)
  after_format d (ok _, log) = do read ← read_bt_const device d log; after_limits d read

  -- The handshake of `GsUsbDriver::open`.
  unfoldable pub negotiate : Log → Opening
  unfolding after_format
  negotiate log = let d = new_driver info in after_format d (send_host_format device d log)

-- `GsUsbDriver::open`, with the device that is selected and what claiming its interface and setting the
-- alternate setting result in.
unfoldable pub open_selected : Device → IoResult Selection → IoResult {0} Unit → Rc → Opening
open_selected device (err kind) claimed alternate = value (err kind, [])
open_selected device (ok selection) (err kind) alternate = value (err kind, [])
open_selected device (ok selection) (ok _) (failed code) = value (err (map_libusb_error code), [])
open_selected device (ok selection) (ok _) (done n) =
    let info = selection.info in
    negotiate device info (new_event_loop info.interface_number info.in_ep info.out_wmax false) []

-- `GsUsbDriver::read_frames`: all the frames that wait in the channel, in order, and the channel
-- behind. A poisoned lock gives none.
unfoldable pub read_frames :
    {Frame : Type 0} → Bool → List Frame → IoResult (List Frame) × List Frame
read_frames true waiting = (ok waiting, [])
read_frames false waiting = (ok [], waiting)
