-- ===== src/GsUsb/Frames/Safety.antt =====
-- When `parse_host_frame_at` reads and takes only bytes that have arrived, and when it panics.
use win_can_utils.Base.{
  ℕ, ◌+◌, ◌≤◌, ◌<◌, ◌≡◌, ap, ◌∙◌, inl, inr, ltb, ◌==◌, Bool, true, false, Bool-cases, if◌then◌else◌,
  Option-cases, List, length, Option, none, some, Outcome, value, panic, slice, slice_in_range,
  slice_out_of_range, arith,
}
use win_can_utils.Can.{CanApi}
use win_can_utils.GsUsb.Constants.{gs_can_echo_id_unused}
use win_can_utils.GsUsb.Frames.{
  dlc_to_len, Extent, extent_at, base_at, stamped_at, padded_at, Header, read_header,
  plausible_header, Parsed, stamp_frame, accept_frame, judge_frame, parse_fields,
  parse_host_frame_at,
}
use win_can_utils.GsUsb.Frames.Bounds.{
  IsChecked, extent_at_lem, dlc_to_len-le, aligned_payload_bounds,
}
use win_can_utils.GsUsb.Frames.Reads.{u32_at_in_range, read_header_lem, plausible_header_lem}

module _ (can : CanApi) where
  -- No panic, and the call drops at least one byte and no byte that has not arrived.
  abbrev pub TakesWithin : ℕ → Outcome (Parsed can) → Type 0
  TakesWithin have panic = ⊥
  TakesWithin have (value (none, last)) = Unit
  TakesWithin have (value (some (frame, n), last)) = (1 ≤ n) × (n ≤ have)

  module _ (bytes : List ℕ) (ts : Bool) (last : Option ℕ) where
    stamp_within :
        (e : Extent) (b : Option can.CanFrame)
        → 1 ≤ e.consumed
        → e.consumed ≤ length bytes
        → (ts ≡ true → e.ts_off + 4 ≤ e.consumed)
        → TakesWithin (length bytes) (stamp_frame can bytes ts last e b)
    unfolding stamp_frame
    stamp_within e none some_byte fits room = tt
    stamp_within e (some frame) some_byte fits room = elim (Bool-cases ts) [
      | inl stamped ↦
          let (t, read) = u32_at_in_range bytes e.ts_off (omega (arith, room stamped)) in
          rw (stamped, read, stamp_frame) (some_byte, fits)
      | inr plain ↦ rw (plain, stamp_frame) (some_byte, fits)
    ]

    accept_within :
        (raw_id dlc : ℕ) (e : Extent)
        → 12 + dlc_to_len dlc ≤ e.consumed
        → e.consumed ≤ length bytes
        → (ts ≡ true → e.ts_off + 4 ≤ e.consumed)
        → TakesWithin (length bytes) (accept_frame can bytes raw_id dlc ts last e)
    unfolding accept_frame
    accept_within raw_id dlc e payload fits room =
        rw (slice_in_range bytes 12 (12 + dlc_to_len dlc) (omega arith) (omega arith))
          (stamp_within e _ (omega arith) fits room)

    judge_within :
        (chan : ℕ) (h : Header) (e : Extent) (plausible : Bool)
        → 12 + dlc_to_len h.dlc ≤ e.consumed
        → e.consumed ≤ length bytes
        → (ts ≡ true → e.ts_off + 4 ≤ e.consumed)
        → TakesWithin (length bytes) (judge_frame can bytes chan ts last h e plausible)
    unfolding judge_frame
    judge_within chan h e plausible payload fits room =
        ground (arith, accept_within h.raw_id h.dlc e payload fits room)

    module _ (chan wmax : ℕ) (pad : Bool) (h : Header) where
      fields_within :
          IsChecked ts wmax pad
          → 12 ≤ length bytes
          → (p : Bool) → plausible_header bytes chan ≡ value p
          → TakesWithin (length bytes) (parse_fields can bytes chan ts last wmax pad h)
      unfolding parse_fields
      fields_within checked arrived p test = elim (Bool-cases (ltb 15 h.dlc)) [
        | inl wide ↦ rw wide (omega arith, omega arith)
        | inr valid ↦
            elim (Option-cases (extent_at (dlc_to_len h.dlc) (length bytes) ts wmax pad)) [
              | inl wait ↦ rw (valid, wait) tt
              | inr (e, extent) ↦
                  let (off, behind, room, fits) =
                    extent_at_lem (dlc_to_len h.dlc) (length bytes) ts wmax pad extent in
                  let (payload, _, _) =
                    aligned_payload_bounds (dlc_to_len h.dlc) (dlc_to_len-le h.dlc) in
                  rw (valid, extent, test)
                    (judge_within chan h e p (omega arith) (fits checked) room)
            ]
      ]

  -- With timestamps on, or padding on for a packet size above zero, the parser never panics on any
  -- bytes; when it asks the caller to drop bytes, it is at least one and none that has not arrived.
  pub parse_host_frame_at-TakesWithin :
      (bytes : List ℕ) (chan : ℕ) (ts : Bool) (last : Option ℕ) (wmax : ℕ) (pad : Bool)
      → IsChecked ts wmax pad
      → TakesWithin (length bytes) (parse_host_frame_at can bytes chan ts last wmax pad)
  unfolding parse_host_frame_at
  parse_host_frame_at-TakesWithin bytes chan ts last wmax pad checked =
      elim (Bool-cases (ltb (length bytes) 12)) [
        | inl short ↦ rw short tt
        | inr enough ↦
            let (h, header, test) = read_header_lem bytes (ground arith) in
            rw (enough, header)
              (fields_within bytes ts last chan wmax pad h checked (ground arith) _ (test chan))
      ]

  accept_panics :
      (bytes : List ℕ) (chan wmax : ℕ) (last : Option ℕ) (h : Header)
      → h.chan ≡ chan
      → h.echo_id ≡ gs_can_echo_id_unused
      → 0 < h.dlc
      → h.dlc ≤ 15
      → plausible_header bytes chan ≡ value true
      → slice bytes 12 (12 + dlc_to_len h.dlc) ≡ panic
      → parse_fields can bytes chan false last wmax false h ≡ panic
  unfolding parse_fields extent_at base_at stamped_at padded_at judge_frame accept_frame dlc_to_len
  accept_panics bytes chan wmax last h own host some_data valid test cut = ground arith

  -- With both off, a frame for this channel whose header has arrived and whose payload has not makes
  -- the parser panic.
  pub parse_host_frame_at-panic :
      (bytes : List ℕ) (chan : ℕ) (last : Option ℕ) (wmax : ℕ) (h : Header)
      → 12 ≤ length bytes
      → read_header bytes ≡ value h
      → h.chan ≡ chan
      → h.echo_id ≡ gs_can_echo_id_unused
      → 0 < h.dlc
      → h.dlc ≤ 15
      → length bytes < 12 + dlc_to_len h.dlc
      → parse_host_frame_at can bytes chan false last wmax false ≡ panic
  unfolding parse_host_frame_at
  parse_host_frame_at-panic bytes chan last wmax h arrived header own host some_data valid cut =
      rw (enough, header)
        (accept_panics bytes chan wmax last h own host some_data valid test
          (slice_out_of_range bytes 12 (12 + dlc_to_len h.dlc) cut))
    where
      enough : ltb (length bytes) 12 ≡ false
      enough = ground arith

      judged : (if ltb 15 h.dlc then false else h.chan == chan) ≡ true
      judged = ground arith

      test : plausible_header bytes chan ≡ value true
      test = plausible_header_lem bytes arrived h chan header ∙ ap value judged
