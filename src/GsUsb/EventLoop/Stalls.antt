-- ===== src/GsUsb/EventLoop/Stalls.antt =====
-- A frame that has arrived whole and that its `CanFrame` constructor refuses stops the reception.
use win_can_utils.Base.{ℕ, ◌≡◌, refl, List, [], ◌∷◌, ◌++◌, append-nil, some, value, arith}
use win_can_utils.Can.{CanApi}
use win_can_utils.GsUsb.Frames.Refused.{IsRefused, IsRefused-append, parse_refused}
use win_can_utils.GsUsb.EventLoop.{UsbEventLoop, process_rx_chunk}
use win_can_utils.GsUsb.EventLoop.Loop.{process_rx_chunk_ends, rx_stop}

module _ (can : CanApi) (s : UsbEventLoop) where
  abbrev pub IsRefusedBy : List ℕ → Type 0
  IsRefusedBy = IsRefused can s.channel_index s.timestamp_enabled s.out_wmax s.pad_pkts_enabled

  IsRefusedBy-append : (bytes more : List ℕ) → IsRefusedBy bytes → IsRefusedBy (bytes ++ more)
  IsRefusedBy-append =
      IsRefused-append can s.channel_index s.timestamp_enabled s.out_wmax s.pad_pkts_enabled

  stalls :
      (chunk : List ℕ)
      → IsRefusedBy s.rx_buffer
      → process_rx_chunk can s chunk
        ≡ some (value (record s { rx_buffer = s.rx_buffer ++ chunk }, []))
  stalls [] r = rw append-nil (unfold process_rx_chunk in refl)
  stalls (b ∷ bs) r =
      process_rx_chunk_ends can s b bs _
        (rx_stop can s (s.rx_buffer ++ (b ∷ bs)) _ _ (
          parse_refused can s.channel_index s.timestamp_enabled s.out_wmax s.pad_pkts_enabled
            (s.rx_buffer ++ (b ∷ bs)) s.last_timestamp64
            (IsRefusedBy-append s.rx_buffer (b ∷ bs) r)))
        (omega arith)

  -- Behind a whole frame for this channel that the constructor refuses nothing is read any more:
  -- each further chunk hands on no frame and makes the buffer longer by all its bytes, and the
  -- refused frame stays at the front.
  pub process_rx_chunk_stalls :
      (chunk : List ℕ)
      → IsRefusedBy s.rx_buffer
      → (process_rx_chunk can s chunk
          ≡ some (value (record s { rx_buffer = s.rx_buffer ++ chunk }, [])))
        × IsRefusedBy (s.rx_buffer ++ chunk)
  process_rx_chunk_stalls chunk r = (stalls chunk r, IsRefusedBy-append s.rx_buffer chunk r)
