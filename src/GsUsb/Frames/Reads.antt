-- ===== src/GsUsb/Frames/Reads.antt =====
-- The reads of a header that has arrived, and the two ways to look at it again.
use win_can_utils.Base.{
  ℕ, ◌+◌, ◌-◌, ◌≤◌, ◌≡◌, ap, ◌∙◌, ltb, ◌==◌, if◌then◌else◌, false, List, length, take, drop, ◌++◌,
  length-append, value, slice_in_range, index_in_range, index-append, slice-append, arith,
}
use win_can_utils.Base.Bytes.{from_le_bytes}
use win_can_utils.GsUsb.Frames.{Header, read_header, u32_at, plausible_header}

pub u32_at_in_range :
    (bytes : List ℕ) (i : ℕ) → i + 4 ≤ length bytes → (v : ℕ) × (u32_at bytes i ≡ value v)
unfolding u32_at
u32_at_in_range bytes i h = (
  from_le_bytes (take (i + 4 - i) (drop i bytes)),
  rw (slice_in_range bytes i (i + 4) (omega arith) h),
)

pub u32_at-append :
    (bytes more : List ℕ) (i : ℕ) → i + 4 ≤ length bytes → u32_at (bytes ++ more) i ≡ u32_at bytes i
unfolding u32_at
u32_at-append bytes more i h = rw (slice-append bytes more i (i + 4) (omega arith) h)

module _ (bytes : List ℕ) (arrived : 12 ≤ length bytes) where
  arrived_test : ltb (length bytes) 12 ≡ false
  arrived_test = ground arith

  -- The header is read without a panic, and the header test looks at the same two bytes.
  pub read_header_lem :
      (h : Header) × (read_header bytes ≡ value h)
      × ((chan : ℕ)
          → plausible_header bytes chan ≡ value (if ltb 15 h.dlc then false else h.chan == chan))
  unfolding read_header plausible_header
  read_header_lem =
      let (echo_id, e) = u32_at_in_range bytes 0 (omega arith) in
      let (raw_id, r) = u32_at_in_range bytes 4 (omega arith) in
      let (dlc, d) = index_in_range bytes 8 (omega arith) in
      let (chan, c) = index_in_range bytes 9 (omega arith) in
      (
        record { echo_id = echo_id; raw_id = raw_id; dlc = dlc; chan = chan },
        rw (e, r, d, c),
        λ expected. rw (arrived_test, d, c, plausible_header),
      )

  pub plausible_header_lem :
      (h : Header) (chan : ℕ)
      → read_header bytes ≡ value h
      → plausible_header bytes chan ≡ value (if ltb 15 h.dlc then false else h.chan == chan)
  plausible_header_lem h chan e =
      let (found, read, test) = read_header_lem in
      let same : found ≡ h = cc in
      test chan ∙ ap (λ (g : Header). value (if ltb 15 g.dlc then false else g.chan == chan)) same

  pub read_header-append : (more : List ℕ) → read_header (bytes ++ more) ≡ read_header bytes
  unfolding read_header
  read_header-append more = rw (
    u32_at-append bytes more 0 (omega arith),
    u32_at-append bytes more 4 (omega arith),
    index-append bytes more 8 (omega arith),
    index-append bytes more 9 (omega arith),
  )

  pub plausible_header-append :
      (more : List ℕ) (chan : ℕ)
      → plausible_header (bytes ++ more) chan ≡ plausible_header bytes chan
  unfolding plausible_header
  plausible_header-append more chan = rw (
    arrived_test,
    longer,
    index-append bytes more 8 (omega arith),
    index-append bytes more 9 (omega arith),
    plausible_header,
  )
    where
      longer : ltb (length (bytes ++ more)) 12 ≡ false
      longer = ground (arith, length-append bytes more)
