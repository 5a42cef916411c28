-- ===== src/GsUsb/Frames/Tests.antt =====
-- Concrete frames, and the theorems about the parser at them.
use win_can_utils.Base.{
  ℕ, ◌%◌, ◌^◌, ◌≡◌, refl, inl, true, false, List, [], ◌∷◌, ◌++◌, none, some, value, panic, slice,
  arith,
}
use win_can_utils.Base.Bytes.{from_le_bytes}
use win_can_utils.Can.Plain.{plain_can, PlainFrame, data_frame}
use win_can_utils.GsUsb.Frames.{
  dlc_to_len, align_up, unwrap_ts, parse_host_frame_at, parse_fields, judge_frame, accept_frame,
  stamp_frame, extent_at, base_at, stamped_at, padded_at, aligned_payload, plausible_header,
  read_header, u32_at, build_frame, roundup8,
}
use win_can_utils.GsUsb.Frames.Safety.{
  TakesWithin, parse_host_frame_at-TakesWithin, parse_host_frame_at-panic,
}
use win_can_utils.GsUsb.Frames.Refused.{IsRefused}
use win_can_utils.GsUsb.Frames.Append.{parse_host_frame_at-append}
use win_can_utils.GsUsb.Frames.Timestamp.{unwrap_ts-mod}

-- Identifier 0x123, two data bytes on channel 0, time 7.
abbrev pub head_of : ℕ → List ℕ → List ℕ
head_of dlc rest = 0xFF ∷ 0xFF ∷ 0xFF ∷ 0xFF ∷ 0x23 ∷ 0x01 ∷ 0 ∷ 0 ∷ dlc ∷ 0 ∷ 0 ∷ 0 ∷ rest

abbrev pub two_bytes : List ℕ
two_bytes = head_of 2 (0xAB ∷ 0xCD ∷ 0 ∷ 0 ∷ 0 ∷ 0 ∷ 0 ∷ 0 ∷ 7 ∷ 0 ∷ 0 ∷ 0 ∷ [])

abbrev two_frame : PlainFrame
two_frame = record (data_frame 0x123 (0xAB ∷ 0xCD ∷ []) false) { stamp = some 7 }

two_parsed :
    parse_host_frame_at plain_can two_bytes 0 true none 64 false
    ≡ value (some (some two_frame, 24), some 7)
unfolding parse_host_frame_at parse_fields judge_frame accept_frame stamp_frame extent_at base_at
    stamped_at padded_at aligned_payload plausible_header read_header u32_at slice from_le_bytes
    dlc_to_len unwrap_ts build_frame
two_parsed = refl

align_up_example : (align_up 20 64 ≡ 64) × (align_up 128 64 ≡ 128) × (align_up 20 0 ≡ 20)
unfolding align_up
align_up_example = (refl, refl, refl)

parse_host_frame_at-TakesWithin_example :
    TakesWithin plain_can 24 (parse_host_frame_at plain_can two_bytes 0 true none 64 false)
parse_host_frame_at-TakesWithin_example =
    parse_host_frame_at-TakesWithin plain_can two_bytes 0 true none 64 false (inl refl)

cut_header :
    read_header (head_of 8 [])
    ≡ value (record { echo_id = 0xFFFF_FFFF; raw_id = 0x123; dlc = 8; chan = 0 })
unfolding read_header u32_at slice from_le_bytes
cut_header = refl

parse_host_frame_at-panic_example :
    parse_host_frame_at plain_can (head_of 8 []) 0 false none 64 false ≡ panic
parse_host_frame_at-panic_example =
    parse_host_frame_at-panic plain_can (head_of 8 []) 0 none 64
      (record { echo_id = 0xFFFF_FFFF; raw_id = 0x123; dlc = 8; chan = 0 }) (omega arith) cut_header
      refl refl (omega arith) (omega arith) (unfold dlc_to_len in omega arith)

parse_host_frame_at-append_example :
    parse_host_frame_at plain_can (two_bytes ++ (1 ∷ 2 ∷ [])) 0 true none 64 false
    ≡ value (some (some two_frame, 24), some 7)
parse_host_frame_at-append_example =
    parse_host_frame_at-append plain_can two_bytes (1 ∷ 2 ∷ []) true none 0 64 false two_parsed

unwrap_ts-mod_example : unwrap_ts (some 0xFFFF_FFFE) (0x1_0000_0003 % 2 ^ 32) ≡ 0x1_0000_0003
unwrap_ts-mod_example =
    unwrap_ts-mod 0xFFFF_FFFE 0x1_0000_0003 (omega arith) (omega arith) (omega arith)

-- A whole frame of twelve data bytes, which a classic constructor refuses.
abbrev pub fd_frame : List ℕ
fd_frame =
    head_of 9
      (1 ∷ 2 ∷ 3 ∷ 4 ∷ 5 ∷ 6 ∷ 7 ∷ 8 ∷ 9 ∷ 10 ∷ 11 ∷ 12 ∷ 0 ∷ 0 ∷ 0 ∷ 0 ∷ 7 ∷ 0 ∷ 0 ∷ 0 ∷ [])

pub fd_frame-IsRefused : IsRefused plain_can 0 true 64 false fd_frame
unfolding read_header u32_at slice from_le_bytes dlc_to_len extent_at base_at stamped_at padded_at
    aligned_payload roundup8 build_frame
fd_frame-IsRefused = record {
  h = record { echo_id = 0xFFFF_FFFF; raw_id = 0x123; dlc = 9; chan = 0 };
  e = record { ts_off = 28; consumed = 32 };
  body = 1 ∷ 2 ∷ 3 ∷ 4 ∷ 5 ∷ 6 ∷ 7 ∷ 8 ∷ 9 ∷ 10 ∷ 11 ∷ 12 ∷ [];
  arrived = omega arith;
  header = refl;
  valid = omega arith;
  own = refl;
  host = refl;
  whole = refl;
  payload = refl;
  refuses = refl;
}
