-- ===== src/Canserver/Tests.antt =====
-- Names of channels, and the set-up of the drivers.
use mathlib.Core.List.{flatten}
use win_can_utils.Base.{
  value, ℕ, zero, suc, ◌<◌, ◌≡◌, refl, ◌||◌, if◌then◌else◌, Bool, true, false, List, [], ◌∷◌, ◌++◌,
  none, some, arith,
}
use win_can_utils.Base.Text.{
  Text, codes, text_eq, format_decimal, to_ascii_lower, eq_ignore_ascii_case, strip_prefix,
}
use win_can_utils.Can.Plain.{plain_can, PlainFrame}
use win_can_utils.Io.{IoResult, ok, err, other, not_found}
use win_can_utils.Canserver.Names.{
  candidate, pipe_path, auto_loop, next_auto_channel, next_auto_channel-first,
}
use win_can_utils.Canserver.Init.{
  CanDriver, and_call, bring_up, bring_up_if, init_gsusb, init_pcan, ignoring, slcan_bitrate,
  bring_up_at, with_version, init_slcan, first_open, or_not_found, or_other, open_pcan, open_ports,
  open_slcan, gsusb, driver_kind,
}
use win_can_utils.Canserver.Init.Live.{gs_usb, as_call, IsLive, init_gsusb-IsLive}
use win_can_utils.GsUsb.BitTiming.{
  calc_bit_timing, search, for_range, for_each, consider, better, segments, first_phase,
}
use win_can_utils.GsUsb.BitTiming.Tests.{exact}
use win_can_utils.GsUsb.Driver.{
  mode_request, mode_flags, request_unit, open_channel, open_if, open_channel_inner,
  close_channel_inner, enable_timestamp,
}
use win_can_utils.GsUsb.Setup.Channel.{
  timing_request, send_timing, program, program_if, set_bitrate_if, set_bitrate,
}
use win_can_utils.GsUsb.Setup.Session.{Situation}
use win_can_utils.GsUsb.Setup.Tests.{board, info, opened_driver, opened_loop, handshake, opened}
use win_can_utils.Canserver.Init.Stream.{init_gsusb-stream}
use win_can_utils.GsUsb.EventLoop.{UsbEventLoop, process_rx_chunk}
use win_can_utils.GsUsb.EventLoop.Tests.{first_part, second_part}
use win_can_utils.GsUsb.Run.{start_run, run_events}
use win_can_utils.GsUsb.Run.Frames.{Reads, read_events, buffers, outcome}
use win_can_utils.GsUsb.Setup.{note_requests}
use win_can_utils.GsUsb.Setup.Whole.{IsWhole}

-- The first two names are taken.
abbrev two_used : Text → Bool
two_used path =
    text_eq path (codes "\\\\.\\pipe\\can_can0_in")
    || text_eq path (codes "\\\\.\\pipe\\can_can1_in")

abbrev base : Text
base = codes "can"

taken_below : (j : ℕ) → j < 2 → two_used (pipe_path (candidate base j)) ≡ true
unfolding pipe_path candidate format_decimal text_eq
taken_below zero h = refl
taken_below (suc zero) h = refl
taken_below (suc (suc j)) h = absurd (omega arith)

next_free : two_used (pipe_path (candidate base 2)) ≡ false
unfolding pipe_path candidate format_decimal text_eq
next_free = refl

next_auto_channel-first_example : next_auto_channel two_used base 3 ≡ some (candidate base 2)
next_auto_channel-first_example =
    next_auto_channel-first two_used base 2 3 taken_below next_free (omega arith)

third : next_auto_channel two_used base 3 ≡ some (codes "can2")
unfolding next_auto_channel auto_loop pipe_path candidate format_decimal text_eq
third = refl

-- A frame in two reads.
abbrev reads : Reads
reads = (7, ok first_part) ∷ (0, ok second_part) ∷ []

abbrev ended : IoResult {0} Unit × Situation
ended = init_gsusb (gs_usb plain_can board exact) (some 500_000) (opened_driver, handshake)

comes_up :
    init_gsusb (gs_usb plain_can board exact) (some 500_000) (opened_driver, handshake)
    ≡ (ok tt, ended.1)
unfolding init_gsusb and_call bring_up_if bring_up as_call set_bitrate set_bitrate_if program_if
    program send_timing timing_request enable_timestamp open_channel open_if open_channel_inner
    close_channel_inner request_unit mode_request mode_flags calc_bit_timing search for_range
    for_each consider better segments first_phase
comes_up = refl

init_gsusb-IsLive_example :
    IsLive plain_can board exact (some 500_000) ended.1 × IsWhole board exact opened_loop ended.1
init_gsusb-IsLive_example =
    init_gsusb-IsLive plain_can board exact info opened_driver opened_loop handshake (some 500_000)
      ended.1 opened comes_up

init_gsusb-stream_example :
    (loop : UsbEventLoop) × (loop ≡ note_requests board ended.1.1 opened_loop)
    × (loop' : UsbEventLoop) × (frames : List PlainFrame) × (process_rx_chunk plain_can loop
          (flatten (buffers reads))
        ≡ some (value (loop', frames)))
    × (outcome plain_can board
          (run_events plain_can board (read_events reads) (start_run plain_can board loop))
        ≡ some (value (loop', frames)))
init_gsusb-stream_example =
    init_gsusb-stream plain_can board exact info opened_driver opened_loop handshake (some 500_000)
      ended.1 reads opened comes_up (omega arith, (omega arith, tt))

-- A driver whose state is the list of the calls on it, by numbers, and that cannot be closed.
abbrev recording : CanDriver (List ℕ)
recording = record {
  close_channel = λ d. (err other, d ++ (0 ∷ []));
  set_bitrate = λ bitrate d. (ok tt, d ++ (1 ∷ bitrate ∷ []));
  enable_timestamp = λ d. (ok tt, d ++ (2 ∷ []));
  open_channel = λ d. (ok tt, d ++ (3 ∷ []));
}

pcan_goes_on : init_pcan recording (some 500) [] ≡ (ok tt, 0 ∷ 1 ∷ 500 ∷ 2 ∷ 3 ∷ [])
unfolding init_pcan ignoring bring_up_if bring_up and_call
pcan_goes_on = refl

slcan_stops : init_slcan recording (some 500) (ok (codes "V1")) (ok 0) [] ≡ (err other, 0 ∷ [])
unfolding init_slcan and_call
slcan_stops = refl

measured : slcan_bitrate recording none (codes "CYDER-CANABLE 2") (ok 250) ≡ ok 250
unfolding slcan_bitrate strip_prefix
measured = refl

not_measured : with_version recording none (ok (codes "V1013")) (ok 250) [] ≡ (err other, [])
unfolding with_version bring_up_at slcan_bitrate strip_prefix
not_measured = refl

abbrev tried : Text → IoResult Text
tried name = if text_eq name (codes "PCIBUS1") then ok name else err not_found

second_bus : open_pcan tried (codes "auto") ≡ ok (codes "PCIBUS1")
unfolding open_pcan first_open or_not_found text_eq eq_ignore_ascii_case to_ascii_lower
second_bus = refl

no_port : open_slcan tried tried (ok []) (codes "Auto") ≡ err other
unfolding open_slcan open_ports first_open or_not_found text_eq eq_ignore_ascii_case to_ascii_lower
no_port = refl

this_port : open_slcan tried tried (ok []) (codes "COM3") ≡ err other
unfolding open_slcan or_other text_eq eq_ignore_ascii_case to_ascii_lower
this_port = refl

by_name : driver_kind (codes "GS_USB") ≡ gsusb
unfolding driver_kind text_eq eq_ignore_ascii_case to_ascii_lower
by_name = refl
