-- ===== src/GsUsb/EventLoop/Chunks.antt =====
-- How the device cuts its bytes into transfers does not matter.
use win_can_utils.Base.{
  ℕ, ◌+◌, ◌≤◌, ◌≡◌, refl, sym, ◌∙◌, List, [], ◌∷◌, ◌++◌, append-nil, append_assoc, length,
  length-append, length-drop, Option, none, some, Outcome, value, arith,
}
use mathlib.Core.List.{flatten}
use win_can_utils.Can.{CanApi}
use win_can_utils.GsUsb.EventLoop.{UsbEventLoop, process_rx_chunk, process_rx_chunks, and_then}
use win_can_utils.GsUsb.EventLoop.Drains.{
  IsCheckedLoop, Drains, stop, step, parse, Drains-append, Drains-unique, Drains-config,
}
use win_can_utils.GsUsb.EventLoop.Loop.{Reads, process_rx_chunk_lem}

module _ (can : CanApi) where
  -- The front of the buffer is not a whole frame.
  abbrev pub IsSettled : UsbEventLoop → List ℕ → Option ℕ → Type 0
  IsSettled s bytes last = parse can s bytes last ≡ value (none, last)

  Drains-IsSettled :
      (s : UsbEventLoop) {bytes : List ℕ} {last : Option ℕ} {sent : List can.CanFrame}
      {rest : List ℕ} {final : Option ℕ}
      → Drains can s bytes last sent rest final
      → IsSettled s rest final
  Drains-IsSettled s (stop e) = e
  Drains-IsSettled s (step frame n next fits e d all) = Drains-IsSettled s d

  Drains-length :
      (s : UsbEventLoop) {bytes : List ℕ} {last : Option ℕ} {sent : List can.CanFrame}
      {rest : List ℕ} {final : Option ℕ}
      → Drains can s bytes last sent rest final
      → length rest ≤ length bytes
  Drains-length s (stop e) = omega arith
  Drains-length s (step {bytes = b} frame n next fits e d all) =
      omega (arith, length-drop n b, Drains-length s d)

  -- A call that read `bytes`, and calls that read `more` behind what it left.
  Reads-and_then :
      (s : UsbEventLoop) (chunk : List ℕ) (chunks : List (List ℕ)) (more : List ℕ)
      (first : Reads can s (s.rx_buffer ++ chunk) (process_rx_chunk can s chunk))
      → (let s' = record s { rx_buffer = first.rest; last_timestamp64 = first.final } in
          Reads can s' (first.rest ++ more) (process_rx_chunks can s' chunks))
      → Reads can s ((s.rx_buffer ++ chunk) ++ more) (process_rx_chunks can s (chunk ∷ chunks))
  unfolding process_rx_chunks
  Reads-and_then s chunk chunks more first later = record {
    rest = later.rest;
    final = later.final;
    sent = first.sent ++ later.sent;
    ends = rw (first.ends, process_rx_chunks) (rw (later.ends, and_then));
    reads =
        Drains-append can s more first.reads
          (Drains-config can s first.rest first.final later.reads);
  }

  -- One transfer, the empty one included.
  chunk_read :
      (chunk : List ℕ) (s : UsbEventLoop)
      → IsCheckedLoop s
      → IsSettled s s.rx_buffer s.last_timestamp64
      → Reads can s (s.rx_buffer ++ chunk) (process_rx_chunk can s chunk)
  chunk_read [] s checked settled = record {
    rest = s.rx_buffer;
    final = s.last_timestamp64;
    sent = [];
    ends = unfold process_rx_chunk in refl;
    reads = rw append-nil (stop settled);
  }
  chunk_read (b ∷ bs) s checked settled = process_rx_chunk_lem can s b bs checked

  chunks_read :
      (chunks : List (List ℕ)) (s : UsbEventLoop)
      → IsCheckedLoop s
      → IsSettled s s.rx_buffer s.last_timestamp64
      → Reads can s (s.rx_buffer ++ flatten chunks) (process_rx_chunks can s chunks)
  unfolding flatten
  chunks_read [] s checked settled = record {
    rest = s.rx_buffer;
    final = s.last_timestamp64;
    sent = [];
    ends = unfold process_rx_chunks in refl;
    reads = rw append-nil (stop settled);
  }
  chunks_read (chunk ∷ chunks) s checked settled =
      let first = chunk_read chunk s checked settled in
      let s' = record s { rx_buffer = first.rest; last_timestamp64 = first.final } in
      let later = chunks_read chunks s' checked (Drains-IsSettled s first.reads) in
      rw (← append_assoc) (Reads-and_then s chunk chunks (flatten chunks) first later)

  Reads-unique :
      (s : UsbEventLoop) (bytes : List ℕ)
      {r r' : Option (Outcome (UsbEventLoop × List can.CanFrame))}
      → Reads can s bytes r
      → Reads can s bytes r'
      → r ≡ r'
  Reads-unique s bytes a b =
      let (sent_eq, rest_eq, final_eq) = Drains-unique can s a.reads b.reads in
      a.ends ∙ rw (sent_eq, rest_eq, final_eq) (sym b.ends)

  -- While the parser's length checks are on and the buffer's front is not a whole frame, transfers
  -- give the same frames in the same order, and the same state, as one transfer of all their bytes:
  -- frames may be cut anywhere, and share a transfer.
  pub process_rx_chunks-flatten :
      (s : UsbEventLoop) (chunks : List (List ℕ))
      → IsCheckedLoop s
      → IsSettled s s.rx_buffer s.last_timestamp64
      → process_rx_chunks can s chunks ≡ process_rx_chunk can s (flatten chunks)
  process_rx_chunks-flatten s chunks checked settled =
      Reads-unique s (s.rx_buffer ++ flatten chunks) (chunks_read chunks s checked settled)
        (chunk_read (flatten chunks) s checked settled)

  -- A call of `process_rx_chunk` while the length checks are on and the buffer's front is not a whole
  -- frame: its loop ends, nothing panics, the new buffer's front is not a whole frame either, the
  -- buffer holds no more than before and the chunk, and only the buffer and the timestamp change.
  pub process_rx_chunk-IsSettled :
      (s : UsbEventLoop) (chunk : List ℕ)
      → IsCheckedLoop s
      → IsSettled s s.rx_buffer s.last_timestamp64
      → (rest : List ℕ) × (final : Option ℕ) × (sent : List can.CanFrame) × (process_rx_chunk can s
            chunk
          ≡ some (value (record s { rx_buffer = rest; last_timestamp64 = final }, sent)))
        × IsSettled s rest final
        × (length rest ≤ length s.rx_buffer + length chunk)
  process_rx_chunk-IsSettled s chunk checked settled =
      let r = chunk_read chunk s checked settled in
      (
        r.rest,
        r.final,
        r.sent,
        r.ends,
        Drains-IsSettled s r.reads,
        omega (arith, length-append s.rx_buffer chunk, Drains-length s r.reads),
      )
