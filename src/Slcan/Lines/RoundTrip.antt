-- ===== src/Slcan/Lines/RoundTrip.antt =====
-- The lines that `send_frame` writes, read by `parse_slcan_line_bytes`.
use win_can_utils.Base.{
  ℕ, suc, ◌+◌, ◌*◌, ◌^◌, ◌≤◌, ◌<◌, ◌≡◌, refl, ap, ◌∙◌, ltb, ◌==◌, Bool, true, false, List, ◌∷◌,
  ◌++◌, append_assoc, length, Option, some, value, ◌>>=◌, arith,
}
use win_can_utils.Base.Bytes.{IsBytes}
use win_can_utils.Base.Hex.{from_str_radix, fixed_hex}
use win_can_utils.Base.Hex.Laws.{length-fixed_hex, from_str_radix-fixed_hex, format_hex_lem}
use win_can_utils.Base.Text.{format_decimal-digit}
use win_can_utils.Can.{CanApi, IsDataFrame, DataFrameLaws, max_id}
use win_can_utils.Slcan.Lines.{
  has_timestamp, has_stamped_length, parse_rest, parse_frame, parse_kind, parse_slcan_line_bytes,
  hex_bytes, frame_text, make_frame,
}
use win_can_utils.Slcan.Lines.Reads.{
  line, length-line, read_fields_lem, read_data_lem, has_stamped_length_lem, read_timestamp_lem,
  stamp_text, full_stamp, StampFits,
}

-- A line longer than its letter, by that letter.
module _ (can : CanApi) (high c : ℕ) (rest : List ℕ) {has : Bool} {r : Option can.CanFrame} where
  parse_t :
      c ≡ b't'
      → 1 < suc (length rest)
      → has_stamped_length (c ∷ rest) 4 ≡ value (some has)
      → parse_frame can high has (c ∷ rest) false 4 ≡ value r
      → parse_slcan_line_bytes can high (c ∷ rest) ≡ value (r, high)
  unfolding parse_slcan_line_bytes has_timestamp parse_kind
  parse_t kind size tested parsed =
      let long : ltb 1 (suc (length rest)) ≡ true = ground arith in
      let t : (c == b't') ≡ true = ground arith in
      rw (long, t, tested, ◌>>=◌, parse_kind, t, parsed, ◌>>=◌) refl

  parse_T :
      c ≡ b'T'
      → 1 < suc (length rest)
      → has_stamped_length (c ∷ rest) 9 ≡ value (some has)
      → parse_frame can high has (c ∷ rest) true 9 ≡ value r
      → parse_slcan_line_bytes can high (c ∷ rest) ≡ value (r, high)
  unfolding parse_slcan_line_bytes has_timestamp parse_kind
  parse_T kind size tested parsed =
      let long : ltb 1 (suc (length rest)) ≡ true = ground arith in
      let not_t : (c == b't') ≡ false = ground arith in
      let t : (c == b'T') ≡ true = ground arith in
      rw (long, not_t, t, tested, ◌>>=◌, parse_kind, not_t, t, parsed, ◌>>=◌) refl

module _ (can : CanApi) (i : ℕ) (d : List ℕ) (bytes : IsBytes d) (small : length d ≤ 8) (high : ℕ)
    (stamp : Option ℕ) (fits : StampFits stamp) where
  module _ (c : ℕ) (name : List ℕ) (reads : from_str_radix (2 ^ 32) name ≡ some i) where
    whole : List ℕ
    unfolding line
    whole = line c name d (stamp_text stamp) small

    parse_frame_lem :
        (ext : Bool)
        → parse_frame can high (length (stamp_text stamp) == 9) whole ext (suc (length name))
          ≡ value (make_frame can ext i d (full_stamp high stamp))
    unfolding parse_frame parse_rest whole
    parse_frame_lem ext =
        let long : ltb (length whole) (suc (length name) + 1 + length d * 2) ≡ false =
          ground (arith, length-line c name d (stamp_text stamp) small bytes) in
        rw
          (
            read_fields_lem c name d (stamp_text stamp) small i reads,
            ◌>>=◌,
            long,
            read_data_lem c name d (stamp_text stamp) small bytes,
            ◌>>=◌,
            read_timestamp_lem c name d bytes small high stamp fits,
          )
          refl

    -- The digit stands where the letter says.
    parse_standard :
        c ≡ b't'
        → length name ≡ 3
        → parse_slcan_line_bytes can high whole
          ≡ value (make_frame can false i d (full_stamp high stamp), high)
    unfolding whole line
    parse_standard kind three =
        let place : 4 ≡ suc (length name) = omega arith in
        let rest = name ++ ((b'0' + length d) ∷ (hex_bytes d ++ stamp_text stamp)) in
        parse_t can high c rest kind
          (omega (arith, length-line c name d (stamp_text stamp) small bytes))
          (ap (has_stamped_length whole) place
            ∙ has_stamped_length_lem c name d (stamp_text stamp) small bytes)
          (ap (parse_frame can high (length (stamp_text stamp) == 9) whole false) place
            ∙ parse_frame_lem false)

    parse_extended :
        c ≡ b'T'
        → length name ≡ 8
        → parse_slcan_line_bytes can high whole
          ≡ value (make_frame can true i d (full_stamp high stamp), high)
    unfolding whole line
    parse_extended kind eight =
        let place : 9 ≡ suc (length name) = omega arith in
        let rest = name ++ ((b'0' + length d) ∷ (hex_bytes d ++ stamp_text stamp)) in
        parse_T can high c rest kind
          (omega (arith, length-line c name d (stamp_text stamp) small bytes))
          (ap (has_stamped_length whole) place
            ∙ has_stamped_length_lem c name d (stamp_text stamp) small bytes)
          (ap (parse_frame can high (length (stamp_text stamp) == 9) whole true) place
            ∙ parse_frame_lem true)

module _ (can : CanApi) (laws : DataFrameLaws can) (i : ℕ) (d : List ℕ) (bytes : IsBytes d)
    (small : length d ≤ 8) (high : ℕ) (stamp : Option ℕ) (fits : StampFits stamp) where
  -- What the parser makes of a line with these fields.
  abbrev pub MakesFrame : Bool → List ℕ → Type 0
  MakesFrame eff text =
      (g : can.CanFrame) × (parse_slcan_line_bytes can high text ≡ value (some g, high))
      × IsDataFrame can g i d eff
      × (can.timestamp g ≡ full_stamp high stamp)

  made_standard :
      i ≤ 0x7FF → MakesFrame false (line b't' (fixed_hex 3 i) d (stamp_text stamp) small)
  unfolding whole make_frame
  made_standard h =
      let (g, made, is) = laws.new_accepts i d h small in
      let (kept, stamped) = laws.set_timestamp_keeps g (full_stamp high stamp) i d false is in
      let reads = from_str_radix-fixed_hex (2 ^ 32) 2 i (omega arith) (omega arith) in
      let parsed =
        parse_standard can i d bytes small high stamp fits b't' (fixed_hex 3 i) reads refl
          (length-fixed_hex 3 i) in
      (
        can.set_timestamp g (full_stamp high stamp),
        parsed ∙ rw (made, make_frame) refl,
        kept,
        stamped,
      )

  made_extended :
      i ≤ 0x1FFF_FFFF → MakesFrame true (line b'T' (fixed_hex 8 i) d (stamp_text stamp) small)
  unfolding whole make_frame
  made_extended h =
      let (g, made, is) = laws.new_eff_accepts i d h small in
      let (kept, stamped) = laws.set_timestamp_keeps g (full_stamp high stamp) i d true is in
      let reads = from_str_radix-fixed_hex (2 ^ 32) 7 i (omega arith) (omega arith) in
      let parsed =
        parse_extended can i d bytes small high stamp fits b'T' (fixed_hex 8 i) reads refl
          (length-fixed_hex 8 i) in
      (
        can.set_timestamp g (full_stamp high stamp),
        parsed ∙ rw (made, make_frame) refl,
        kept,
        stamped,
      )

  module _ (f : can.CanFrame) where
    text_of : Bool → List ℕ
    unfolding line
    text_of false = line b't' (fixed_hex 3 i) d (stamp_text stamp) small
    text_of true = line b'T' (fixed_hex 8 i) d (stamp_text stamp) small

    frame_text_lem :
        (eff : Bool)
        → IsDataFrame can f i d eff
        → i ≤ max_id eff
        → frame_text can f ++ stamp_text stamp ≡ text_of eff
    unfolding frame_text text_of line
    frame_text_lem false is h =
        let e = is.extended_eq in
        rw
          (
            e,
            is.id_eq,
            is.dlc_eq,
            is.payload_eq,
            format_hex_lem 2 i (omega arith) (omega arith),
            format_decimal-digit (length d) (omega arith),
          )
          (ap (λ t. b't' ∷ t)
            (append_assoc (fixed_hex 3 i) ((b'0' + length d) ∷ hex_bytes d) (stamp_text stamp)))
    frame_text_lem true is h =
        let e = is.extended_eq in
        rw
          (
            e,
            is.id_eq,
            is.dlc_eq,
            is.payload_eq,
            format_hex_lem 7 i (omega arith) (omega arith),
            format_decimal-digit (length d) (omega arith),
          )
          (ap (λ t. b'T' ∷ t)
            (append_assoc (fixed_hex 8 i) ((b'0' + length d) ∷ hex_bytes d) (stamp_text stamp)))

    -- A classic data frame that the driver writes is read back with its identifier, format and data,
    -- and `timestamp_high` stays. Without a timestamp the frame has none; with eight digits of one
    -- in front of the carriage return, it has the 64-bit time of the upper half kept and these.
    pub parse_slcan_line_bytes-frame_text :
        (eff : Bool)
        → IsDataFrame can f i d eff
        → i ≤ max_id eff
        → MakesFrame eff (frame_text can f ++ stamp_text stamp)
    unfolding text_of
    parse_slcan_line_bytes-frame_text false is h = rw (frame_text_lem false is h) (made_standard h)
    parse_slcan_line_bytes-frame_text true is h = rw (frame_text_lem true is h) (made_extended h)
