-- ===== src/Canserver/Init/Stream.antt =====
-- A gs_usb adapter that canserver has set up: the frames of the bytes that it sends from then on.
use mathlib.Core.List.{flatten}
use mathlib.Core.Path.{subst}
use win_can_utils.Base.{
  ℕ, ◌<◌, ◌≡◌, inl, refl, sym, ap, arith, ◌∙◌, true, none, some, List, [], ◌∷◌, All, Option, value,
}
use win_can_utils.Can.{CanApi}
use win_can_utils.Io.{ok}
use win_can_utils.Canserver.Init.{init_gsusb}
use win_can_utils.Canserver.Init.Live.{gs_usb, init_gsusb-IsLive}
use win_can_utils.GsUsb.BitTiming.{Scores}
use win_can_utils.GsUsb.Commands.{note_mode, note_timestamp}
use win_can_utils.GsUsb.Discovery.{InterfaceInfo}
use win_can_utils.GsUsb.Driver.{GsUsbDriver, Log}
use win_can_utils.GsUsb.EventLoop.{UsbEventLoop, process_rx_chunk}
use win_can_utils.GsUsb.EventLoop.Chunks.{
  IsSettled, process_rx_chunks-flatten, process_rx_chunk-IsSettled,
}
use win_can_utils.GsUsb.Frames.Waiting.{parse_short}
use win_can_utils.GsUsb.Requests.{Request, control_out, control_in, bulk_write, clear_halt, Device}
use win_can_utils.GsUsb.Run.{start_run, run_events}
use win_can_utils.GsUsb.Run.Frames.{Reads, read_events, buffers, outcome, run_events-buffers}
use win_can_utils.GsUsb.Setup.{note_request, note_requests}
use win_can_utils.GsUsb.Setup.Open.{negotiate}
use win_can_utils.GsUsb.Setup.Opened.{IsOpened, IsReady, started, negotiate-IsOpened}
use win_can_utils.GsUsb.Setup.Session.{Situation}

-- The buffer and the last time of the event loop.
abbrev kept : UsbEventLoop → List ℕ × Option ℕ
kept s = (s.rx_buffer, s.last_timestamp64)

unread : (s : UsbEventLoop) → s.rx_buffer ≡ [] → s.last_timestamp64 ≡ none → kept s ≡ ([], none)
unread s no_bytes no_time = ap (λ b. (b, s.last_timestamp64)) no_bytes ∙ ap (λ t. ([], t)) no_time

module _ (device : Device) where
  note_request-kept : (r : Request) (s : UsbEventLoop) → kept (note_request device r s) ≡ kept s
  unfolding note_request note_mode note_timestamp
  note_request-kept (control_out request_type request word index bytes) s = ground arith
  note_request-kept (control_in request_type request word index len) s = refl
  note_request-kept (bulk_write endpoint bytes) s = refl
  note_request-kept (clear_halt endpoint) s = refl

  note_requests-kept : (log : Log) (s : UsbEventLoop) → kept (note_requests device log s) ≡ kept s
  unfolding note_requests
  note_requests-kept [] s = refl
  note_requests-kept (r ∷ log) s =
      note_requests-kept log (note_request device r s) ∙ note_request-kept r s

module _ (can : CanApi) (device : Device) (scores : Scores) where
  -- An empty buffer is no whole frame.
  empty-IsSettled :
      (s : UsbEventLoop) → kept s ≡ ([], none) → IsSettled can s s.rx_buffer s.last_timestamp64
  empty-IsSettled s h =
      subst (λ k. IsSettled can s k.0 k.1) (sym h)
        (parse_short can [] s.timestamp_enabled none s.channel_index s.out_wmax s.pad_pkts_enabled
          refl)

  -- After a set-up by canserver that ended well, with nothing read before, and while no command comes:
  -- the event loop ends each read without a panic, and the frames that it sends are those of the bytes
  -- read, however they are cut into reads and whatever slots these were in.
  pub init_gsusb-stream :
      (info : InterfaceInfo) (d : GsUsbDriver) (s : UsbEventLoop) (log : Log) (bitrate : Option ℕ)
      (t : Situation) (reads : Reads)
      → negotiate device info (started device info) [] ≡ value (ok (d, s), log)
      → init_gsusb (gs_usb can device scores) bitrate (d, log) ≡ (ok tt, t)
      → All (λ read. read.0 < 8) reads
      → (loop : UsbEventLoop) × (loop ≡ note_requests device t.1 s)
        × (loop' : UsbEventLoop) × (frames : List can.CanFrame) × (process_rx_chunk can loop
              (flatten (buffers reads))
            ≡ some (value (loop', frames)))
        × (outcome can device
              (run_events can device (read_events reads) (start_run can device loop))
            ≡ some (value (loop', frames)))
  unfolding IsOpened
  init_gsusb-stream info d s log bitrate t reads opened ended within =
      let (live, (in_step, agrees)) =
        init_gsusb-IsLive can device scores info d s log bitrate t opened ended in
      let ready : IsReady device d s log =
        subst (IsOpened device) opened (negotiate-IsOpened device info) in
      let loop = note_requests device t.1 s in
      let stamped : loop.timestamp_enabled ≡ true = agrees.same_timestamps ∙ live.stamped in
      let fresh : kept loop ≡ ([], none) =
        note_requests-kept device t.1 s ∙ unread s ready.nothing_read.0 ready.nothing_read.1 in
      let settled = empty-IsSettled loop fresh in
      let (rest, final, frames, ends, _, _) =
        process_rx_chunk-IsSettled can loop (flatten (buffers reads)) (inl stamped) settled in
      (
        loop,
        refl,
        record loop { rx_buffer = rest; last_timestamp64 = final },
        frames,
        ends,
        run_events-buffers can device reads loop within
            ∙ process_rx_chunks-flatten can loop (buffers reads) (inl stamped) settled
            ∙ ends,
      )
