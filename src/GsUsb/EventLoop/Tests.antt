-- ===== src/GsUsb/EventLoop/Tests.antt =====
-- The theorems about the receive path of the event loop, at concrete chunks.
use win_can_utils.Base.{
  ℕ, ◌≤◌, ◌≡◌, refl, inl, true, false, List, [], ◌∷◌, ◌++◌, length, Option, none, some, value,
}
use mathlib.Core.List.{flatten}
use win_can_utils.Can.Plain.{plain_can, PlainFrame}
use win_can_utils.GsUsb.Frames.Waiting.{parse_short}
use win_can_utils.GsUsb.Frames.Refused.{IsRefused}
use win_can_utils.GsUsb.Frames.Tests.{fd_frame, fd_frame-IsRefused}
use win_can_utils.GsUsb.EventLoop.{UsbEventLoop, process_rx_chunk, process_rx_chunks}
use win_can_utils.GsUsb.EventLoop.Chunks.{
  IsSettled, process_rx_chunks-flatten, process_rx_chunk-IsSettled,
}
use win_can_utils.GsUsb.EventLoop.Stalls.{process_rx_chunk_stalls}

abbrev pub stamping : List ℕ → UsbEventLoop
stamping buffer = record {
  iface = 0;
  in_ep = 0x81;
  rx_buffer = buffer;
  last_timestamp64 = none;
  channel_index = 0;
  timestamp_enabled = true;
  out_wmax = 64;
  pad_pkts_enabled = false;
}

-- The frame 0x123 with the data AB CD, cut behind its tenth byte.
abbrev pub first_part : List ℕ
first_part = 0xFF ∷ 0xFF ∷ 0xFF ∷ 0xFF ∷ 0x23 ∷ 0x01 ∷ 0 ∷ 0 ∷ 2 ∷ 0 ∷ []

abbrev pub second_part : List ℕ
second_part = 0 ∷ 0 ∷ 0xAB ∷ 0xCD ∷ 0 ∷ 0 ∷ 0 ∷ 0 ∷ 0 ∷ 0 ∷ 7 ∷ 0 ∷ 0 ∷ 0 ∷ []

empty-IsSettled : IsSettled plain_can (stamping []) [] none
empty-IsSettled = parse_short plain_can [] true none 0 64 false refl

process_rx_chunks-flatten_example :
    process_rx_chunks plain_can (stamping []) (first_part ∷ second_part ∷ [])
    ≡ process_rx_chunk plain_can (stamping []) (flatten (first_part ∷ second_part ∷ []))
process_rx_chunks-flatten_example =
    process_rx_chunks-flatten plain_can (stamping []) (first_part ∷ second_part ∷ []) (inl refl)
      empty-IsSettled

process_rx_chunk-IsSettled_example :
    (rest : List ℕ) × (final : Option ℕ) × (sent : List PlainFrame) × (process_rx_chunk plain_can
        (stamping [])
        first_part
      ≡ some (value (record (stamping []) { rx_buffer = rest; last_timestamp64 = final }, sent)))
    × IsSettled plain_can (stamping []) rest final
    × (length rest ≤ 10)
process_rx_chunk-IsSettled_example =
    process_rx_chunk-IsSettled plain_can (stamping []) first_part (inl refl) empty-IsSettled

process_rx_chunk_stalls_example :
    (process_rx_chunk plain_can (stamping fd_frame) first_part
      ≡ some (value (stamping (fd_frame ++ first_part), [])))
    × IsRefused plain_can 0 true 64 false (fd_frame ++ first_part)
process_rx_chunk_stalls_example =
    process_rx_chunk_stalls plain_can (stamping fd_frame) first_part fd_frame-IsRefused
