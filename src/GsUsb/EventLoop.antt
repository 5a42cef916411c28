-- ===== src/GsUsb/EventLoop.antt =====
-- drivers/gs_usb/driver.rs, `UsbEventLoop`: the bytes of the bulk-in transfers become frames.
-- The frames that are sent on `frame_tx` are a list, in order; a closed channel is ignored there.
pub mod Drains
pub mod Loop
pub mod Chunks
pub mod Stalls
pub mod Tests
use win_can_utils.Base.{
  ℕ, zero, suc, ◌+◌, ltb, if◌then◌else◌, Bool, false, List, [], ◌∷◌, ◌++◌, length, drop, Option,
  none, some, Outcome, value, panic, slice,
}
use win_can_utils.Can.{CanApi}
use win_can_utils.GsUsb.Constants.{gs_header_len}
use win_can_utils.GsUsb.Frames.{parse_host_frame_at}

-- The fields that the event loop reads and writes; the handle and the channels are arguments.
pub record UsbEventLoop : Type 0 where
  pub iface : ℕ
  pub in_ep : ℕ
  pub rx_buffer : List ℕ
  pub last_timestamp64 : Option ℕ
  pub channel_index : ℕ
  pub timestamp_enabled : Bool
  pub out_wmax : ℕ
  pub pad_pkts_enabled : Bool

-- `UsbEventLoop::new`
unfoldable pub new_event_loop : ℕ → ℕ → ℕ → Bool → UsbEventLoop
new_event_loop iface in_ep out_wmax pad_pkts_enabled = record {
  iface = iface;
  in_ep = in_ep;
  rx_buffer = [];
  last_timestamp64 = none;
  channel_index = 0;
  timestamp_enabled = false;
  out_wmax = out_wmax;
  pad_pkts_enabled = pad_pkts_enabled;
}

-- `rx_buffer.drain(..offset)`, which is left out at 0
unfoldable pub drain_front : List ℕ → ℕ → Outcome (List ℕ)
drain_front buffer offset =
    if ltb 0 offset then slice buffer offset (length buffer) else value buffer

module _ (can : CanApi) where
  open can use {CanFrame}

  abbrev pub emit : Option CanFrame → List CanFrame
  emit none = []
  emit (some frame) = frame ∷ []

  pub record RxLoop : Type 0 where
    pub offset : ℕ
    pub last : Option ℕ
    pub sent : List CanFrame

  -- The `while` loop of `process_rx_chunk`; `none` if the fuel does not suffice.
  unfoldable pub rx_loop : UsbEventLoop → List ℕ → ℕ → RxLoop → Option (Outcome RxLoop)
  rx_loop s buffer zero r = none
  rx_loop s buffer (suc fuel) r =
      if ltb (length buffer) (r.offset + gs_header_len)
      then some (value r)
      else elim (parse_host_frame_at can (drop r.offset buffer) s.channel_index s.timestamp_enabled
          r.last s.out_wmax s.pad_pkts_enabled) [
            | panic ↦ some panic
            | value (none, last) ↦ some (value (record r { last = last }))
            | value (some (maybe_frame, consumed), last) ↦ rx_loop s buffer fuel (record {
              offset = r.offset + consumed;
              last = last;
              sent = r.sent ++ emit maybe_frame;
            })
          ]

  unfoldable pub finish_rx : UsbEventLoop → List ℕ → RxLoop → Outcome (UsbEventLoop × List CanFrame)
  finish_rx s buffer r = elim (drain_front buffer r.offset) [
    | panic ↦ panic
    | value rest ↦ value (record s { rx_buffer = rest; last_timestamp64 = r.last }, r.sent)
  ]

  -- Each round drops a byte at least, so one more round than there are bytes is enough.
  unfoldable pub process_rx_chunk :
      UsbEventLoop → List ℕ → Option (Outcome (UsbEventLoop × List CanFrame))
  unfolding finish_rx
  process_rx_chunk s [] = some (value (s, []))
  process_rx_chunk s (b ∷ bs) =
      let buffer = s.rx_buffer ++ (b ∷ bs) in
      elim (rx_loop s buffer (suc (length buffer))
        (record { offset = 0; last = s.last_timestamp64; sent = [] })) [
          | none ↦ none
          | some panic ↦ some panic
          | some (value r) ↦ some (finish_rx s buffer r)
        ]

  unfoldable pub and_then :
      UsbEventLoop × List CanFrame
      → Option (Outcome (UsbEventLoop × List CanFrame))
      → Option (Outcome (UsbEventLoop × List CanFrame))
  and_then (s, sent) none = none
  and_then (s, sent) (some panic) = some panic
  and_then (s, sent) (some (value (s', sent'))) = some (value (s', sent ++ sent'))

  -- Transfers that complete one after the other, as in `run`.
  unfoldable pub process_rx_chunks :
      UsbEventLoop → List (List ℕ) → Option (Outcome (UsbEventLoop × List CanFrame))
  unfolding and_then
  process_rx_chunks s [] = some (value (s, []))
  process_rx_chunks s (chunk ∷ chunks) = elim (process_rx_chunk s chunk) [
    | none ↦ none
    | some panic ↦ some panic
    | some (value (s', sent)) ↦ and_then (s', sent) (process_rx_chunks s' chunks)
  ]
