-- ===== src/GsUsb/Setup/Tests.antt =====
-- A board with padding that accepts everything, from the handshake to the open channel.
use win_can_utils.Base.{
  ℕ, ◌≡◌, refl, ◌==◌, if◌then◌else◌, true, false, arith, List, [], ◌∷◌, length, none, some, value,
  slice, ◌++◌,
}
use win_can_utils.Base.Bytes.{to_le_bytes, from_le_bytes}
use win_can_utils.Can.Plain.{plain_can}
use win_can_utils.Io.{ok, err, other, invalid_input}
use win_can_utils.GsUsb.Requests.{control_out, control_in, Device}
use win_can_utils.GsUsb.BitTiming.{
  GsBtConst, to_bytes, parse_bt_const, le32, calc_bit_timing, search, for_range, for_each, consider,
  better, segments, first_phase,
}
use win_can_utils.GsUsb.BitTiming.Layout.{bt_const_bytes, IsWords, parse_bt_const-bytes}
use win_can_utils.GsUsb.BitTiming.Tests.{exact, caps, timing}
use win_can_utils.GsUsb.Discovery.{InterfaceInfo}
use win_can_utils.GsUsb.EventLoop.{UsbEventLoop, new_event_loop}
use win_can_utils.GsUsb.Commands.{handle_command, read_buffer, note_mode, note_timestamp}
use win_can_utils.GsUsb.Driver.{
  GsUsbDriver, Log, mode_request, mode_flags, enable_timestamp, open_channel, open_if,
  open_channel_inner, request_unit,
}
use win_can_utils.GsUsb.Setup.{
  new_driver, note_request, note_requests, wants_padding, cmd_control_out, cmd_control_in,
  whole_write, send_host_format, send_control, to_config, read_device_config, parse_front, or_plain,
  read_bt_const, or_plain_features, read_features,
}
use win_can_utils.GsUsb.Setup.Open.{
  or_no_features, with_features, after_config, with_limits, after_limits, after_format, negotiate,
  open_selected, read_frames,
}
use win_can_utils.GsUsb.Context.{done}
use win_can_utils.GsUsb.Setup.Opened.{IsOpened, started, negotiate-IsOpened}
use win_can_utils.GsUsb.Setup.Channel.{
  get_bitrate, open_channel_with_flags, with_extra, open_listen_only, listen_if, set_bitrate,
  set_bitrate_if, program_if, program, send_timing, timing_request,
}
use win_can_utils.GsUsb.Setup.Session.{
  Call, call_set_bitrate, call_enable_timestamp, call_open_channel, session, perform, situation,
  Reach,
}
use win_can_utils.GsUsb.Setup.Steps.{session-Reach}
use win_can_utils.GsUsb.Setup.Whole.{IsWhole, session-IsWhole}

abbrev padded_caps : GsBtConst
padded_caps = record caps { feature = 0x80 }

caps-IsWords : IsWords padded_caps
caps-IsWords = record {
  feature_lt = omega arith;
  fclk_can_lt = omega arith;
  tseg1_min_lt = omega arith;
  tseg1_max_lt = omega arith;
  tseg2_min_lt = omega arith;
  tseg2_max_lt = omega arith;
  sjw_max_lt = omega arith;
  brp_min_lt = omega arith;
  brp_max_lt = omega arith;
  brp_inc_lt = omega arith;
}

limits_read_back : parse_bt_const (bt_const_bytes padded_caps) ≡ value padded_caps
limits_read_back = parse_bt_const-bytes padded_caps caps-IsWords

abbrev pub board : Device
board = record {
  answer = λ log. if length log == 1 then ok 4 else ok 40;
  filled = λ log. bt_const_bytes padded_caps;
}

abbrev pub info : InterfaceInfo
info = record {
  interface_number = 0;
  alt_setting = 0;
  in_ep = 0x81;
  out_ep = 2;
  int_ep = none;
  out_wmax = 32;
}

negotiate-IsOpened_example : IsOpened board (negotiate board info (started board info) [])
negotiate-IsOpened_example = negotiate-IsOpened board info

abbrev pub opened_driver : GsUsbDriver
opened_driver = record {
  interface_number = 0;
  out_ep = 2;
  channel_index = 0;
  bt_const = some padded_caps;
  configured_bitrate = none;
  timestamp_enabled = false;
  tx_counter = 0;
  features = 0x80;
  out_wmax = 32;
  pad_pkts = true;
}

abbrev pub opened_loop : UsbEventLoop
opened_loop = record {
  iface = 0;
  in_ep = 0x81;
  rx_buffer = [];
  last_timestamp64 = none;
  channel_index = 0;
  timestamp_enabled = false;
  out_wmax = 32;
  pad_pkts_enabled = true;
}

abbrev pub handshake : Log
handshake =
    control_out 0x41 0 1 0 (0xEF ∷ 0xBE ∷ 0 ∷ 0 ∷ [])
    ∷ control_in 0xC1 0x0B 0 0 52
    ∷ control_in 0xC1 5 1 0 8
    ∷ control_in 0xC1 0x0B 0 0 52
    ∷ []

pub opened :
    negotiate board info (started board info) []
    ≡ value (ok (opened_driver, opened_loop), handshake)
unfolding negotiate after_format after_limits after_config with_features with_limits or_no_features
    send_host_format whole_write cmd_control_out cmd_control_in read_bt_const or_plain parse_front
    read_device_config to_config read_features or_plain_features read_buffer wants_padding
    new_driver new_event_loop note_requests note_request note_mode note_timestamp handle_command
    parse_bt_const le32 slice to_le_bytes from_le_bytes
opened = refl

abbrev calls : List Call
calls = call_set_bitrate 500_000 ∷ call_enable_timestamp ∷ call_open_channel ∷ []

session-Reach_example :
    Reach plain_can board exact
      (opened_driver, handshake)
      (session plain_can board exact calls (opened_driver, handshake))
session-Reach_example = session-Reach plain_can board exact calls (opened_driver, handshake)

session-IsWhole_example :
    IsWhole board exact opened_loop (session plain_can board exact calls (opened_driver, handshake))
session-IsWhole_example =
    session-IsWhole plain_can board exact info calls opened_driver opened_loop handshake opened

abbrev running_driver : GsUsbDriver
running_driver = record opened_driver {
  configured_bitrate = some 500_000;
  timestamp_enabled = true;
}

all_set : session plain_can board exact calls (opened_driver, handshake) ≡ (
  running_driver,
  handshake
      ++ (mode_request plain_can board opened_driver 0 0
          ∷ control_out 0x41 1 0 0 (to_bytes timing)
          ∷ control_out 0x41 6 0 0 (1 ∷ 0 ∷ 0 ∷ 0 ∷ [])
          ∷ mode_request plain_can board opened_driver 0 0
          ∷ mode_request plain_can board opened_driver 1 0x90
          ∷ []),
)
unfolding session perform situation set_bitrate set_bitrate_if program_if program send_timing
    timing_request enable_timestamp open_channel open_if open_channel_inner request_unit
    mode_request mode_flags to_le_bytes calc_bit_timing search for_range for_each consider better
    segments first_phase
all_set = refl

no_limits :
    set_bitrate plain_can board exact 500_000 (new_driver info) []
    ≡ (err other, new_driver info, [])
unfolding set_bitrate set_bitrate_if new_driver
no_limits = refl

listens_later :
    open_listen_only plain_can board opened_driver [] ≡ (err invalid_input, opened_driver, [])
unfolding open_listen_only listen_if
listens_later = refl

listens : open_listen_only plain_can board running_driver handshake ≡ (
  ok tt,
  running_driver,
  handshake
      ++ (mode_request plain_can board running_driver 0 0
          ∷ mode_request plain_can board running_driver 1 0x91
          ∷ []),
)
unfolding open_listen_only listen_if open_channel_with_flags with_extra request_unit mode_flags
    mode_request
listens = refl

kept : get_bitrate plain_can board running_driver ≡ some 500_000
unfolding get_bitrate
kept = refl

-- A write of fewer bytes than the data has is an error.
short_control : (send_control board 0 (1 ∷ 2 ∷ []) []).0 ≡ err other
unfolding send_control cmd_control_out whole_write
short_control = refl

-- No right to the interface: nothing has been asked of the device.
not_claimed :
    open_selected board (ok (record { place = 0; info = info; label = [] })) (err other) (done 0)
    ≡ value (err other, [])
unfolding open_selected
not_claimed = refl

drained : read_frames {Frame = ℕ} true (1 ∷ 2 ∷ []) ≡ (ok (1 ∷ 2 ∷ []), [])
unfolding read_frames
drained = refl
