-- ===== src/GsUsb/Encode/Tests.antt =====
-- The round trip of an encoded frame, at a concrete frame.
use win_can_utils.Base.{◌≡◌, refl, true, false, [], ◌∷◌, ◌++◌, none, some, value, arith}
use win_can_utils.Base.Bytes.{to_le_bytes}
use win_can_utils.Can.{IsDataFrame}
use win_can_utils.Can.Plain.{plain_can, PlainFrame, plain_can_laws, data_frame, data_frame_fields}
use win_can_utils.GsUsb.Frames.{parse_host_frame_at, unwrap_ts}
use win_can_utils.GsUsb.Encode.{encode_frame_minimal, encode_frame, echo_id, tx_can_id}
use win_can_utils.GsUsb.Encode.RoundTrip.{
  as_received, parse_host_frame_at-echo, parse_host_frame_at-encode,
}

abbrev sample : PlainFrame
sample = data_frame 0x1ABC_DEF0 (0x11 ∷ 0x22 ∷ []) true

encoded_sample :
    encode_frame_minimal plain_can 17 0 sample
    ≡ 1 ∷ 0 ∷ 0 ∷ 0 ∷ 0xF0 ∷ 0xDE ∷ 0xBC ∷ 0x9A ∷ 2 ∷ 0 ∷ 0 ∷ 0 ∷ 0x11 ∷ 0x22 ∷ 0 ∷ 0 ∷ 0 ∷ 0 ∷ 0
      ∷ 0 ∷ []
unfolding encode_frame_minimal encode_frame echo_id tx_can_id to_le_bytes
encoded_sample = refl

parse_host_frame_at-echo_example :
    parse_host_frame_at plain_can
      (encode_frame_minimal plain_can 17 0 sample ++ to_le_bytes 4 9)
      0
      true
      (some 5)
      64
      false
    ≡ value (some (none, 24), some 5)
parse_host_frame_at-echo_example =
    parse_host_frame_at-echo plain_can sample 0x1ABC_DEF0 (0x11 ∷ 0x22 ∷ []) true
      (data_frame_fields _ _ _) (omega arith) (omega arith) 17 0 64 (some 5) 9 (omega arith)

parse_host_frame_at-encode_example :
    (g : PlainFrame) × (parse_host_frame_at plain_can
        (as_received (encode_frame_minimal plain_can 17 0 sample) 9)
        0
        true
        (some 5)
        64
        false
      ≡ value (some (some g, 24), some (unwrap_ts (some 5) 9)))
    × IsDataFrame plain_can g 0x1ABC_DEF0 (0x11 ∷ 0x22 ∷ []) true
    × (g.stamp ≡ some (unwrap_ts (some 5) 9))
parse_host_frame_at-encode_example =
    parse_host_frame_at-encode plain_can sample 0x1ABC_DEF0 (0x11 ∷ 0x22 ∷ []) true
      (data_frame_fields _ _ _) (omega arith) (omega arith) 17 0 64 (some 5) 9 (omega arith)
      plain_can_laws
