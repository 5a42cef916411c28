-- ===== src/GsUsb/Run/Frames.antt =====
-- The frames of the event loop against those of the buffers that it reads, one after the other.
use win_can_utils.Base.{
  ℕ, zero, suc, ◌<◌, ◌≡◌, inl, inr, refl, sym, ap, ◌∙◌, true, List, [], ◌∷◌, ◌++◌, append-nil,
  append_assoc, All, length, length-append, Option, none, some, Option-cases, Outcome, value, panic,
  Outcome-cases, arith,
}
use win_can_utils.Can.{CanApi}
use win_can_utils.Io.{IoResult, ok, err}
use win_can_utils.GsUsb.Requests.{Device}
use win_can_utils.GsUsb.EventLoop.{UsbEventLoop, process_rx_chunk, and_then, process_rx_chunks}
use win_can_utils.GsUsb.Run.{
  take_slot, RunEvent, completed, Run, start_run, received, receive, resubmit, complete_slot,
  run_step, while_running, and_run, run_events,
}

-- Completed reads: the place among those in flight, and the result.
abbrev pub Reads : Type 0
Reads = List (ℕ × IoResult (List ℕ))

abbrev pub read_events : Reads → List RunEvent
read_events [] = []
read_events ((k, result) ∷ reads) = completed k result ∷ read_events reads

-- The buffers of the reads that succeeded.
abbrev pub buffers : Reads → List (List ℕ)
buffers [] = []
buffers ((k, ok chunk) ∷ reads) = chunk ∷ buffers reads
buffers ((k, err kind) ∷ reads) = buffers reads

take_slot-some :
    (k : ℕ) (slots : List ℕ)
    → k < length slots
    → (idx : ℕ) × (others : List ℕ) × (take_slot k slots ≡ some (idx, others))
      × (suc (length others) ≡ length slots)
unfolding take_slot
take_slot-some k [] h = absurd (omega arith)
take_slot-some zero (s ∷ slots) h = (s, slots, refl, refl)
take_slot-some (suc k) (s ∷ slots) h =
    let (idx, others, found, size) = take_slot-some k slots (omega arith) in
    (idx, s ∷ others, rw (found, take_slot) refl, ap suc size)

module _ (can : CanApi) (device : Device) where
  -- What a run leaves: the loop's state and the frames that it sent.
  pub outcome :
      Option (Outcome (Run can device)) → Option (Outcome (UsbEventLoop × List can.CanFrame))
  outcome none = none
  outcome (some panic) = some panic
  outcome (some (value r)) = some (value (r.loop, r.sent))

  and_then-and_then :
      (s s' : UsbEventLoop) (sent frames : List can.CanFrame)
      (result : Option (Outcome (UsbEventLoop × List can.CanFrame)))
      → and_then can (s, sent) (and_then can (s', frames) result)
        ≡ and_then can (s', sent ++ frames) result
  unfolding and_then
  and_then-and_then s s' sent frames none = refl
  and_then-and_then s s' sent frames (some panic) = refl
  and_then-and_then s s' sent frames (some (value (s'', more))) =
      ap (λ l. some (value (s'', l))) (sym (append_assoc sent frames more))

  -- A round whose read has a place among those in flight.
  completed_step :
      (k idx : ℕ) (others : List ℕ) (result : IoResult (List ℕ)) (events : List RunEvent)
      (r : Run can device)
      → take_slot k r.in_flight ≡ some (idx, others)
      → r.running ≡ true
      → run_events can device (completed k result ∷ events) r
        ≡ and_run can device
            (resubmit can device idx others (receive can device result r))
            (run_events can device events)
  unfolding run_events while_running run_step complete_slot resubmit
  completed_step k idx others result events r found running =
      ap
        (λ w.
          and_run can device (while_running can device w (completed k result) r)
            (run_events can device events))
        running
      ∙ ap
          (λ f.
            and_run can device (complete_slot can device f result r) (run_events can device events))
          found

  nothing_before :
      (loop : UsbEventLoop) (result : Option (Outcome (UsbEventLoop × List can.CanFrame)))
      → and_then can (loop, []) result ≡ result
  unfolding and_then
  nothing_before loop none = refl
  nothing_before loop (some panic) = refl
  nothing_before loop (some (value (s, frames))) = refl

  module _ (s : UsbEventLoop) (chunk : List ℕ) (chunks : List (List ℕ)) where
    chunks_none :
        process_rx_chunk can s chunk ≡ none → process_rx_chunks can s (chunk ∷ chunks) ≡ none
    unfolding process_rx_chunks
    chunks_none e = rw (e, process_rx_chunks) refl

    chunks_panic :
        process_rx_chunk can s chunk ≡ some panic
        → process_rx_chunks can s (chunk ∷ chunks) ≡ some panic
    unfolding process_rx_chunks
    chunks_panic e = rw (e, process_rx_chunks) refl

  chunks_value :
      (s s' : UsbEventLoop) (chunk : List ℕ) (frames : List can.CanFrame) (chunks : List (List ℕ))
      → process_rx_chunk can s chunk ≡ some (value (s', frames))
      → process_rx_chunks can s (chunk ∷ chunks)
        ≡ and_then can (s', frames) (process_rx_chunks can s' chunks)
  unfolding process_rx_chunks
  chunks_value s s' chunk frames chunks e = rw (e, process_rx_chunks) refl

  -- What a round with a buffer's frames goes on to.
  chunk_end :
      ℕ
      → List ℕ
      → List RunEvent
      → Run can device
      → Option (Outcome (UsbEventLoop × List can.CanFrame))
      → Option (Outcome (UsbEventLoop × List can.CanFrame))
  chunk_end idx others events r found = outcome (
      and_run can device (resubmit can device idx others (received can device found r))
        (run_events can device events))

  -- The rounds behind the first, once its read is known.
  run_reads :
      (reads : Reads) (r : Run can device)
      → All (λ read. read.0 < 8) reads
      → length r.in_flight ≡ 8
      → r.running ≡ true
      → outcome (run_events can device (read_events reads) r)
        ≡ and_then can (r.loop, r.sent) (process_rx_chunks can r.loop (buffers reads))
  unfolding outcome run_events and_then process_rx_chunks resubmit receive received and_run
      chunk_end
  run_reads [] r within size running = ap (λ l. some (value (r.loop, l))) (sym (append-nil r.sent))
  run_reads ((k, err kind) ∷ reads) r (low, within) size running =
      let (idx, others, found, fewer) = take_slot-some k r.in_flight (omega arith) in
      let r' = record r { in_flight = others ++ (idx ∷ []) } in
      let size' : length (others ++ (idx ∷ [])) ≡ 8 =
        omega (arith, length-append others (idx ∷ [])) in
      ap outcome (completed_step k idx others (err kind) (read_events reads) r found running)
      ∙ run_reads reads r' within size' running
  run_reads ((k, ok chunk) ∷ reads) r (low, within) size running =
      let (idx, others, found, fewer) = take_slot-some k r.in_flight (omega arith) in
      let size' : length (others ++ (idx ∷ [])) ≡ 8 =
        omega (arith, length-append others (idx ∷ [])) in
      ap outcome (completed_step k idx others (ok chunk) (read_events reads) r found running)
      ∙ elim (Option-cases (process_rx_chunk can r.loop chunk)) [
        | inl short ↦
            ap (chunk_end idx others (read_events reads) r) short
            ∙ sym (
                ap (and_then can (r.loop, r.sent)) (chunks_none r.loop chunk (buffers reads) short))
        | inr (o, some_outcome) ↦ elim (Outcome-cases o) [
          | inl crashed ↦
              let crash = some_outcome ∙ ap some crashed in
              ap (chunk_end idx others (read_events reads) r) crash
              ∙ sym (
                  ap (and_then can (r.loop, r.sent))
                    (chunks_panic r.loop chunk (buffers reads) crash))
          | inr ((s', frames), taken) ↦
              let read = some_outcome ∙ ap some taken in
              let r' = record r {
                loop = s';
                sent = r.sent ++ frames;
                in_flight = others ++ (idx ∷ []);
              } in
              ap (chunk_end idx others (read_events reads) r) read
              ∙ run_reads reads r' within size' running
              ∙ sym (
                  and_then-and_then r.loop s' r.sent frames
                    (process_rx_chunks can s' (buffers reads)))
              ∙ sym (
                  ap (and_then can (r.loop, r.sent))
                    (chunks_value r.loop s' chunk frames (buffers reads) read))
        ]
      ]

  -- While no command comes, the state that the loop is left with and the frames that it sends are those
  -- of the buffers read, one after the other, whatever slots they were in; reads that failed do not
  -- count.
  pub run_events-buffers :
      (reads : Reads) (loop : UsbEventLoop)
      → All (λ read. read.0 < 8) reads
      → outcome (run_events can device (read_events reads) (start_run can device loop))
        ≡ process_rx_chunks can loop (buffers reads)
  unfolding start_run
  run_events-buffers reads loop within =
      run_reads reads (start_run can device loop) within (omega arith) refl
      ∙ nothing_before loop (process_rx_chunks can loop (buffers reads))
