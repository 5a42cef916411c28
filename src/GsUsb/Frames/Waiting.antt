-- ===== src/GsUsb/Frames/Waiting.antt =====
-- A call that asks for more bytes leaves the timestamp state alone.
use win_can_utils.Base.{
  ℕ, ◌+◌, ◌≡◌, ltb, Bool, Bool-cases, Option-cases, Outcome-cases, inl, inr, List, length, Option,
  none, some, value, slice, true,
}
use win_can_utils.Base.{arith}
use win_can_utils.Can.{CanApi}
use win_can_utils.GsUsb.Frames.{
  dlc_to_len, Extent, extent_at, Header, read_header, plausible_header, build_frame, stamp_frame,
  accept_frame, judge_frame, parse_fields, parse_host_frame_at,
}

module _ (can : CanApi) (bytes : List ℕ) (ts : Bool) (last : Option ℕ) {l : Option ℕ} where
  stamp_keeps :
      (e : Extent) (b : Option can.CanFrame)
      → stamp_frame can bytes ts last e b ≡ value (none, l)
      → l ≡ last
  unfolding stamp_frame
  stamp_keeps e none h = cc
  stamp_keeps e (some f) h = ground arith

  accept_keeps :
      (raw_id dlc : ℕ) (e : Extent)
      → accept_frame can bytes raw_id dlc ts last e ≡ value (none, l)
      → l ≡ last
  unfolding accept_frame
  accept_keeps raw_id dlc e h = elim (Outcome-cases (slice bytes 12 (12 + dlc_to_len dlc))) [
    | inl out ↦ ground arith
    | inr (d, read) ↦ stamp_keeps e (build_frame can raw_id dlc d) (rw read at h)
  ]

  judge_keeps :
      (chan : ℕ) (h : Header) (e : Extent) (p : Bool)
      → judge_frame can bytes chan ts last h e p ≡ value (none, l)
      → l ≡ last
  unfolding judge_frame
  judge_keeps chan h e p eq = ground (arith, accept_keeps h.raw_id h.dlc e)

  module _ (chan wmax : ℕ) (pad : Bool) where
    fields_keeps :
        (h : Header) → parse_fields can bytes chan ts last wmax pad h ≡ value (none, l) → l ≡ last
    unfolding parse_fields
    fields_keeps h eq = elim (Bool-cases (ltb 15 h.dlc)) [
      | inl wide ↦ cc (rw wide at eq)
      | inr valid ↦ elim (Option-cases (extent_at (dlc_to_len h.dlc) (length bytes) ts wmax pad)) [
        | inl wait ↦ cc (rw (valid, wait) at eq)
        | inr (e, extent) ↦ elim (Outcome-cases (plausible_header bytes chan)) [
          | inl out ↦ cc (rw (valid, extent, out) at eq)
          | inr (p, test) ↦ judge_keeps chan h e p (rw (valid, extent, test) at eq)
        ]
      ]
    ]

    pub parse_waiting_keeps :
        parse_host_frame_at can bytes chan ts last wmax pad ≡ value (none, l) → l ≡ last
    unfolding parse_host_frame_at
    parse_waiting_keeps eq = elim (Bool-cases (ltb (length bytes) 12)) [
      | inl short ↦ cc (rw short at eq)
      | inr enough ↦ elim (Outcome-cases (read_header bytes)) [
        | inl out ↦ cc (rw (enough, out) at eq)
        | inr (h, header) ↦ fields_keeps h (rw (enough, header) at eq)
      ]
    ]

-- Nothing to do without a whole header.
pub parse_short :
    (can : CanApi) (bytes : List ℕ) (ts : Bool) (last : Option ℕ) (chan wmax : ℕ) (pad : Bool)
    → ltb (length bytes) 12 ≡ true
    → parse_host_frame_at can bytes chan ts last wmax pad ≡ value (none, last)
unfolding parse_host_frame_at
parse_short can bytes ts last chan wmax pad short = rw short
