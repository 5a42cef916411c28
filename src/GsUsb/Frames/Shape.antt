-- ===== src/GsUsb/Frames/Shape.antt =====
-- The parser's reads of a host frame that is given by its parts.
use win_can_utils.Base.{
  ℕ, ◌+◌, ◌-◌, ◌^◌, ◌≤◌, ◌<◌, ◌≡◌, refl, sym, ap, ◌∙◌, ltb, ◌==◌, if◌then◌else◌, true, false, List,
  ◌∷◌, ◌++◌, length, length-append, take, drop, append_assoc, take-length-append,
  drop-length-append, Option, none, some, value, slice, slice_in_range, arith,
}
use win_can_utils.Base.Bytes.{to_le_bytes, from_le_bytes-to_le_bytes, length-to_le_bytes}
use win_can_utils.Can.{CanApi}
use win_can_utils.GsUsb.Constants.{gs_can_echo_id_unused}
use win_can_utils.GsUsb.Frames.{
  Extent, Header, read_header, u32_at, extent_at, base_at, stamped_at, padded_at, dlc_to_len,
  aligned_payload, plausible_header, judge_frame, accept_frame, stamp_frame, build_frame,
  parse_fields, parse_host_frame_at, unwrap_ts,
}
use win_can_utils.GsUsb.Frames.Reads.{plausible_header_lem}

abbrev pub host_frame : ℕ → ℕ → ℕ → ℕ → List ℕ → List ℕ
host_frame echo_id raw_id dlc chan rest =
    to_le_bytes 4 echo_id ++ (to_le_bytes 4 raw_id ++ (dlc ∷ chan ∷ 0 ∷ 0 ∷ rest))

module _ (echo_id raw_id dlc chan : ℕ) (rest : List ℕ) where
  abbrev bytes : List ℕ
  bytes = host_frame echo_id raw_id dlc chan rest

  length-host_frame : length bytes ≡ 12 + length rest
  unfolding to_le_bytes
  length-host_frame = omega arith

  u32_at_zero : echo_id < 2 ^ 32 → u32_at bytes 0 ≡ value echo_id
  unfolding to_le_bytes u32_at
  u32_at_zero h =
      rw (slice_in_range bytes 0 4 (omega arith) (omega arith))
        (ap value (from_le_bytes-to_le_bytes 4 echo_id h))

  u32_at_four : raw_id < 2 ^ 32 → u32_at bytes 4 ≡ value raw_id
  unfolding to_le_bytes u32_at
  u32_at_four h =
      rw (slice_in_range bytes 4 8 (omega arith) (omega arith))
        (ap value (from_le_bytes-to_le_bytes 4 raw_id h))

  pub read_header-host_frame :
      echo_id < 2 ^ 32
      → raw_id < 2 ^ 32
      → read_header bytes
        ≡ value (record { echo_id = echo_id; raw_id = raw_id; dlc = dlc; chan = chan })
  unfolding to_le_bytes read_header
  read_header-host_frame he hr = rw (u32_at_zero he, u32_at_four hr)

-- A classic frame with a timestamp takes 24 bytes.
module _ (echo_id raw_id chan : ℕ) (d pad : List ℕ) (ts32 : ℕ) where
  abbrev pub stamped_frame : List ℕ
  stamped_frame = host_frame echo_id raw_id (length d) chan ((d ++ pad) ++ to_le_bytes 4 ts32)

  module _ (classic : length d ≤ 8) (padded : length (d ++ pad) ≡ 8) (fits : ts32 < 2 ^ 32) where
    length-stamped_frame : length stamped_frame ≡ 24
    length-stamped_frame = omega (
      arith,
      length-host_frame echo_id raw_id (length d) chan ((d ++ pad) ++ to_le_bytes 4 ts32),
      length-append (d ++ pad) (to_le_bytes 4 ts32),
      length-to_le_bytes 4 ts32,
    )

    stamped_extent :
        (wmax : ℕ)
        → extent_at (dlc_to_len (length d)) (length stamped_frame) true wmax false
          ≡ some (record { ts_off = 20; consumed = 24 })
    unfolding extent_at base_at stamped_at padded_at dlc_to_len aligned_payload
    stamped_extent wmax = ground (arith, length-stamped_frame)

    own_length : dlc_to_len (length d) ≡ length d
    unfolding dlc_to_len
    own_length = ground arith

    data_first : (n : ℕ) → n ≡ length d → take (12 + n - 12) ((d ++ pad) ++ to_le_bytes 4 ts32) ≡ d
    data_first n e =
        let count : 12 + n - 12 ≡ length d = omega arith in
        rw (count, append_assoc) (take-length-append d (pad ++ to_le_bytes 4 ts32))

    stamped_payload : slice stamped_frame 12 (12 + dlc_to_len (length d)) ≡ value d
    stamped_payload =
        rw
          (slice_in_range stamped_frame 12 (12 + dlc_to_len (length d)) (omega arith)
            (omega (arith, own_length, length-stamped_frame)))
          (unfold to_le_bytes in ap value (data_first (dlc_to_len (length d)) own_length))

    stamp_last :
        (n : ℕ)
        → n ≡ length (d ++ pad)
        → take 4 (drop n ((d ++ pad) ++ to_le_bytes 4 ts32)) ≡ to_le_bytes 4 ts32
    stamp_last n e =
        rw (e, drop-length-append (d ++ pad) (to_le_bytes 4 ts32)) (unfold to_le_bytes in refl)

    last_four : slice stamped_frame 20 24 ≡ value (to_le_bytes 4 ts32)
    last_four =
        rw (slice_in_range stamped_frame 20 24 (omega arith) (omega (arith, length-stamped_frame)))
          (unfold to_le_bytes in ap value (stamp_last 8 (sym padded)))

    stamped_ts : u32_at stamped_frame 20 ≡ value ts32
    unfolding u32_at
    stamped_ts = rw last_four (ap value (from_le_bytes-to_le_bytes 4 ts32 fits))

    -- The parser's answer to such a frame: an echo is dropped, another frame is handed on.
    module _ (can : CanApi) (last : Option ℕ) (wmax : ℕ) (raw : raw_id < 2 ^ 32) where
      abbrev header : Header
      header = record { echo_id = echo_id; raw_id = raw_id; dlc = length d; chan = chan }

      abbrev extent : Extent
      extent = record { ts_off = 20; consumed = 24 }

      reads : echo_id < 2 ^ 32 → read_header stamped_frame ≡ value header
      reads he =
          read_header-host_frame echo_id raw_id (length d) chan ((d ++ pad) ++ to_le_bytes 4 ts32)
            he raw

      plausible : echo_id < 2 ^ 32 → plausible_header stamped_frame chan ≡ value true
      plausible he =
          plausible_header_lem stamped_frame (omega (arith, length-stamped_frame)) header chan
            (reads he)
          ∙ ap value judged
        where
          judged : (if ltb 15 (length d) then false else chan == chan) ≡ true
          judged = ground arith

      parse_judged :
          echo_id < 2 ^ 32
          → parse_host_frame_at can stamped_frame chan true last wmax false
            ≡ judge_frame can stamped_frame chan true last header extent true
      unfolding parse_host_frame_at parse_fields
      parse_judged he = rw (enough, reads he, valid, stamped_extent wmax, plausible he)
        where
          enough : ltb (length stamped_frame) 12 ≡ false
          enough = ground (arith, length-stamped_frame)

          valid : ltb 15 (length d) ≡ false
          valid = ground arith

      pub parse_stamped_echo :
          echo_id < gs_can_echo_id_unused
          → parse_host_frame_at can stamped_frame chan true last wmax false
            ≡ value (some (none, 24), last)
      unfolding judge_frame
      parse_stamped_echo he = parse_judged (omega arith) ∙ ground arith

      accepted :
          (frame : can.CanFrame)
          → build_frame can raw_id (length d) d ≡ some frame
          → accept_frame can stamped_frame raw_id (length d) true last extent
            ≡ value (
              some (some (can.set_timestamp frame (some (unwrap_ts last ts32))), 24),
              some (unwrap_ts last ts32),
            )
      unfolding accept_frame stamp_frame
      accepted frame built = rw (stamped_payload, built, stamped_ts)

      pub parse_stamped_host :
          (frame : can.CanFrame)
          → echo_id ≡ gs_can_echo_id_unused
          → build_frame can raw_id (length d) d ≡ some frame
          → parse_host_frame_at can stamped_frame chan true last wmax false
            ≡ value (
              some (some (can.set_timestamp frame (some (unwrap_ts last ts32))), 24),
              some (unwrap_ts last ts32),
            )
      unfolding judge_frame
      parse_stamped_host frame he built =
          parse_judged (omega arith) ∙ ground (arith, accepted frame built)
