-- ===== src/GsUsb/Frames/Append.antt =====
-- The parser's decision about the front of the buffer does not depend on what arrives behind it.
use win_can_utils.Base.{
  ℕ, ◌+◌, ◌≤◌, ◌≡◌, ap, ltb, Bool, false, Bool-cases, Option-cases, Outcome-cases, inl, inr, List,
  ◌++◌, length, length-append, Option, none, some, value, ◌>>=◌, slice-append_value, slice, arith,
}
use win_can_utils.Base.Bytes.{from_le_bytes}
use win_can_utils.Can.{CanApi}
use win_can_utils.GsUsb.Frames.{
  dlc_to_len, Extent, extent_at, Header, u32_at, stamp_frame, accept_frame, judge_frame,
  parse_fields, parse_host_frame_at, build_frame,
}
use win_can_utils.GsUsb.Frames.Bounds.{extent_at-more}
use win_can_utils.GsUsb.Frames.Reads.{read_header_lem, read_header-append, plausible_header-append}

u32_at-append_value :
    (bytes more : List ℕ) (i : ℕ) {v : ℕ}
    → u32_at bytes i ≡ value v
    → u32_at (bytes ++ more) i ≡ value v
unfolding u32_at
u32_at-append_value bytes more i h = elim (Outcome-cases (slice bytes i (i + 4))) [
  | inl out ↦ cc (ap (λ o. o >>= λ b. value (from_le_bytes b)) out)
  | inr (b, read) ↦ rw (slice-append_value bytes more i (i + 4) read) (rw read at h)
]

module _ (can : CanApi) (bytes more : List ℕ) (ts : Bool) (last : Option ℕ)
    {r : Option can.CanFrame × ℕ} {l : Option ℕ} where
  stamp_frame-append :
      (e : Extent) (b : Option can.CanFrame)
      → stamp_frame can bytes ts last e b ≡ value (some r, l)
      → stamp_frame can (bytes ++ more) ts last e b ≡ value (some r, l)
  unfolding stamp_frame
  stamp_frame-append e none h = h
  stamp_frame-append e (some frame) h = elim (Outcome-cases (u32_at bytes e.ts_off)) [
    | inl out ↦ ground arith
    | inr (t, read) ↦ ground (arith, u32_at-append_value bytes more e.ts_off read)
  ]

  accept_frame-append :
      (raw_id dlc : ℕ) (e : Extent)
      → accept_frame can bytes raw_id dlc ts last e ≡ value (some r, l)
      → accept_frame can (bytes ++ more) raw_id dlc ts last e ≡ value (some r, l)
  unfolding accept_frame
  accept_frame-append raw_id dlc e h = elim (Outcome-cases (slice bytes 12 (12 + dlc_to_len dlc))) [
    | inl out ↦ ground arith
    | inr (d, read) ↦
        rw (slice-append_value bytes more 12 (12 + dlc_to_len dlc) read)
          (stamp_frame-append e (build_frame can raw_id dlc d) (rw read at h))
  ]

  judge_frame-append :
      (chan : ℕ) (h : Header) (e : Extent) (p : Bool)
      → judge_frame can bytes chan ts last h e p ≡ value (some r, l)
      → judge_frame can (bytes ++ more) chan ts last h e p ≡ value (some r, l)
  unfolding judge_frame
  judge_frame-append chan h e p eq = ground (arith, accept_frame-append h.raw_id h.dlc e)

  module _ (chan wmax : ℕ) (pad : Bool) where
    fields-append :
        (h : Header)
        → 12 ≤ length bytes
        → parse_fields can bytes chan ts last wmax pad h ≡ value (some r, l)
        → parse_fields can (bytes ++ more) chan ts last wmax pad h ≡ value (some r, l)
    unfolding parse_fields
    fields-append h arrived eq = elim (Bool-cases (ltb 15 h.dlc)) [
      | inl wide ↦ rw wide (rw wide at eq)
      | inr valid ↦ elim (Option-cases (extent_at (dlc_to_len h.dlc) (length bytes) ts wmax pad)) [
        | inl wait ↦ cc (rw (valid, wait) at eq)
        | inr (e, extent) ↦
            let (found, header, test) = read_header_lem bytes arrived in
            let old = rw (valid, extent, test chan) at eq in
            let longer =
              extent_at-more (dlc_to_len h.dlc) (length bytes) ts wmax pad (length more) extent in
            rw
              (
                valid,
                length-append bytes more,
                longer,
                plausible_header-append bytes arrived more chan,
                test chan,
              )
              (judge_frame-append chan h e _ old)
      ]
    ]

    -- Once the parser has found what to drop, with or without a frame, bytes that arrive behind the
    -- buffer change neither that nor the timestamp state.
    pub parse_host_frame_at-append :
        parse_host_frame_at can bytes chan ts last wmax pad ≡ value (some r, l)
        → parse_host_frame_at can (bytes ++ more) chan ts last wmax pad ≡ value (some r, l)
    unfolding parse_host_frame_at
    parse_host_frame_at-append eq = elim (Bool-cases (ltb (length bytes) 12)) [
      | inl short ↦ cc (rw short at eq)
      | inr enough ↦
          let arrived : 12 ≤ length bytes = ground arith in
          let (h, header, test) = read_header_lem bytes arrived in
          let longer : ltb (length (bytes ++ more)) 12 ≡ false =
            ground (arith, length-append bytes more) in
          rw (longer, read_header-append bytes arrived more, header)
            (fields-append h arrived (rw (enough, header) at eq))
    ]
