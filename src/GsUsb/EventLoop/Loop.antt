-- ===== src/GsUsb/EventLoop/Loop.antt =====
-- `process_rx_chunk` reads the buffer as `Drains` says: it ends, without a panic.
use win_can_utils.Base.{
  ℕ, zero, suc, ◌+◌, ◌-◌, ◌≤◌, ◌<◌, ◌≡◌, refl, sym, ap, ◌∙◌, ltb, lt→ltb, true, Bool-cases, inl,
  inr, List, [], ◌∷◌, ◌++◌, append-nil, append_assoc, length, length-drop, drop, drop-drop, Option,
  none, some, Outcome, value, panic, slice_in_range, take-length, arith,
}
use win_can_utils.Can.{CanApi}
use win_can_utils.GsUsb.Frames.{Parsed}
use win_can_utils.GsUsb.Frames.Safety.{parse_host_frame_at-TakesWithin, TakesWithin}
use win_can_utils.GsUsb.Frames.Waiting.{parse_waiting_keeps, parse_short}
use win_can_utils.GsUsb.EventLoop.{
  UsbEventLoop, RxLoop, rx_loop, emit, drain_front, finish_rx, process_rx_chunk,
}
use win_can_utils.GsUsb.EventLoop.Drains.{IsCheckedLoop, Drains, stop, step, parse}

module _ (can : CanApi) (s : UsbEventLoop) (buffer : List ℕ) where
  abbrev advance : RxLoop can → Option can.CanFrame → ℕ → Option ℕ → RxLoop can
  advance r frame n last = record {
    offset = r.offset + n;
    last = last;
    sent = r.sent ++ emit can frame;
  }

  pub rx_stop :
      (fuel : ℕ) (r : RxLoop can)
      → parse can s (drop r.offset buffer) r.last ≡ value (none, r.last)
      → rx_loop can s buffer (suc fuel) r ≡ some (value r)
  unfolding rx_loop
  rx_stop fuel r e = elim (Bool-cases (ltb (length buffer) (r.offset + 12))) [
    | inl short ↦ rw short
    | inr enough ↦ rw (enough, e)
  ]

  rx_step :
      (fuel : ℕ) (r : RxLoop can) (frame : Option can.CanFrame) (n : ℕ) (last : Option ℕ)
      → parse can s (drop r.offset buffer) r.last ≡ value (some (frame, n), last)
      → r.offset ≤ length buffer
      → rx_loop can s buffer (suc fuel) r ≡ rx_loop can s buffer fuel (advance r frame n last)
  unfolding rx_loop
  rx_step fuel r frame n last e fits = elim (Bool-cases (ltb (length buffer) (r.offset + 12))) [
    | inl short ↦
        let rest_short : ltb (length (drop r.offset buffer)) 12 ≡ true =
          ground (arith, length-drop r.offset buffer) in
        cc (
          parse_short can (drop r.offset buffer) s.timestamp_enabled r.last s.channel_index
            s.out_wmax s.pad_pkts_enabled rest_short)
    | inr enough ↦ rw (enough, e)
  ]

  -- What a run of the loop from `start` ends in.
  pub record Run (start : RxLoop can) (result : Option (Outcome (RxLoop can))) : Type 0 where
    pub final : RxLoop can
    pub more : List can.CanFrame
    pub ends : result ≡ some (value final)
    pub within : final.offset ≤ length buffer
    pub sent_eq : final.sent ≡ start.sent ++ more
    pub reads :
        Drains can s
          (drop start.offset buffer)
          start.last
          more
          (drop final.offset buffer)
          final.last

  extend-Run :
      (fuel : ℕ) (r : RxLoop can) (frame : Option can.CanFrame) (n : ℕ) (last : Option ℕ)
      → parse can s (drop r.offset buffer) r.last ≡ value (some (frame, n), last)
      → r.offset + n ≤ length buffer
      → Run (advance r frame n last) (rx_loop can s buffer fuel (advance r frame n last))
      → Run r (rx_loop can s buffer (suc fuel) r)
  extend-Run fuel r frame n last e fits run = record {
    final = run.final;
    more = emit can frame ++ run.more;
    ends = rx_step fuel r frame n last e (omega arith) ∙ run.ends;
    within = run.within;
    sent_eq = run.sent_eq ∙ append_assoc r.sent (emit can frame) run.more;
    reads =
        step frame n last (omega (arith, length-drop r.offset buffer)) e
          (rw (drop-drop r.offset n buffer) run.reads) refl;
  }

  Run-round :
      (fuel : ℕ) (r : RxLoop can) (p : Outcome (Parsed can))
      → parse can s (drop r.offset buffer) r.last ≡ p
      → TakesWithin can (length (drop r.offset buffer)) p
      → r.offset ≤ length buffer
      → ((r' : RxLoop can)
          → r'.offset ≤ length buffer
          → r.offset < r'.offset
          → Run r' (rx_loop can s buffer fuel r'))
      → Run r (rx_loop can s buffer (suc fuel) r)
  Run-round fuel r panic e good fits ih = absurd good
  Run-round fuel r (value (none, last)) e good fits ih =
      let same =
        parse_waiting_keeps can (drop r.offset buffer) s.timestamp_enabled r.last s.channel_index
          s.out_wmax s.pad_pkts_enabled e in
      let waits = e ∙ ap (λ l. value (none, l)) same in
      record {
        final = r;
        more = [];
        ends = rx_stop fuel r waits;
        within = fits;
        sent_eq = sym (append-nil r.sent);
        reads = stop waits;
      }
  Run-round fuel r (value (some (frame, n), last)) e good fits ih =
      let inside : r.offset + n ≤ length buffer =
        omega (arith, length-drop r.offset buffer, good.1) in
      extend-Run fuel r frame n last e inside
        (ih (advance r frame n last) inside (omega (arith, good.0)))

  module _ (checked : IsCheckedLoop s) where
    rx_loop_runs :
        (fuel : ℕ) (r : RxLoop can)
        → r.offset ≤ length buffer
        → length buffer < fuel + r.offset
        → Run r (rx_loop can s buffer fuel r)
    rx_loop_runs zero r fits enough = absurd (omega arith)
    rx_loop_runs (suc fuel) r fits enough =
        Run-round fuel r _ refl
          (parse_host_frame_at-TakesWithin can (drop r.offset buffer) s.channel_index
            s.timestamp_enabled r.last s.out_wmax s.pad_pkts_enabled checked)
          fits (λ r' inside further. rx_loop_runs fuel r' inside (omega arith))

drain_front_lem :
    (buffer : List ℕ) (offset : ℕ)
    → offset ≤ length buffer
    → drain_front buffer offset ≡ value (drop offset buffer)
unfolding drain_front
drain_front_lem buffer zero fits = refl
drain_front_lem buffer (suc n) fits =
    let all : length buffer - suc n ≡ length (drop (suc n) buffer) =
      omega (arith, length-drop (suc n) buffer) in
    rw (
      slice_in_range buffer (suc n) (length buffer) fits (omega arith),
      all,
      take-length (drop (suc n) buffer),
      lt→ltb 0 (suc n) (omega arith),
    )

pub process_rx_chunk_ends :
    (can : CanApi) (s : UsbEventLoop) (b : ℕ) (bs : List ℕ) (r : RxLoop can)
    → let buffer = s.rx_buffer ++ (b ∷ bs) in
      rx_loop can s buffer
          (suc (length buffer))
          (record { offset = 0; last = s.last_timestamp64; sent = [] })
        ≡ some (value r)
      → r.offset ≤ length buffer
      → process_rx_chunk can s (b ∷ bs)
        ≡ some (
            value
              (record s { rx_buffer = drop r.offset buffer; last_timestamp64 = r.last }, r.sent))
unfolding process_rx_chunk finish_rx
process_rx_chunk_ends can s b bs r ran fits =
    rw (ran, process_rx_chunk)
      (rw (drain_front_lem (s.rx_buffer ++ (b ∷ bs)) r.offset fits, finish_rx))

-- A call that reads `bytes`: it ends without a panic, hands on the frames that they hold, keeps what
-- is not complete, and changes nothing else of the state.
pub record Reads (can : CanApi) (s : UsbEventLoop) (bytes : List ℕ)
    (result : Option (Outcome (UsbEventLoop × List can.CanFrame))) : Type 0 where
  pub rest : List ℕ
  pub final : Option ℕ
  pub sent : List can.CanFrame
  pub ends : result ≡ some (value (record s { rx_buffer = rest; last_timestamp64 = final }, sent))
  pub reads : Drains can s bytes s.last_timestamp64 sent rest final

pub process_rx_chunk_lem :
    (can : CanApi) (s : UsbEventLoop) (b : ℕ) (bs : List ℕ)
    → IsCheckedLoop s
    → Reads can s (s.rx_buffer ++ (b ∷ bs)) (process_rx_chunk can s (b ∷ bs))
process_rx_chunk_lem can s b bs checked = record {
  rest = drop run.final.offset buffer;
  final = run.final.last;
  sent = run.final.sent;
  ends = process_rx_chunk_ends can s b bs run.final run.ends run.within;
  reads = rw run.sent_eq run.reads;
}
  where
    buffer : List ℕ
    buffer = s.rx_buffer ++ (b ∷ bs)

    start : RxLoop can
    start = record { offset = 0; last = s.last_timestamp64; sent = [] }

    run : Run can s buffer start (rx_loop can s buffer (suc (length buffer)) start)
    run = rx_loop_runs can s buffer checked (suc (length buffer)) start (omega arith) (omega arith)
