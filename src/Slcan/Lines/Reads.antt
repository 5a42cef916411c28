-- ===== src/Slcan/Lines/Reads.antt =====
-- What the steps of `parse_slcan_line_bytes` read in a line that is laid out as `send_frame` does.
use win_can_utils.Base.{
  ℕ, suc, ◌+◌, ◌*◌, ◌^◌, ◌≤◌, ◌<◌, ◌≡◌, refl, sym, ap, ◌∙◌, bit_or, ltb, leb, ◌==◌, true, false,
  List, [], ◌∷◌, ◌++◌, append_assoc, length, length-append, All, Option, none, some, value, ◌>>=◌,
  index, slice, slice-middle, index-middle, arith,
}
use win_can_utils.Base.Bytes.{IsByte}
use win_can_utils.Base.Hex.{from_str_radix, to_digit, format_hex, fixed_hex}
use win_can_utils.Base.Hex.Laws.{length-fixed_hex, from_str_radix-fixed_hex, format_hex_lem}
use win_can_utils.Slcan.Lines.{
  has_stamped_length, read_fields, read_data, read_timestamp, hex_bytes,
}

length-hex_bytes : (d : List ℕ) → All IsByte d → length (hex_bytes d) ≡ length d * 2
unfolding hex_bytes
length-hex_bytes [] all = refl
length-hex_bytes (b ∷ d) (small, all) = omega (
  arith,
  length-append (format_hex 2 b) (hex_bytes d),
  ap length (format_hex_lem 1 b (omega arith) (omega arith)),
  length-fixed_hex 2 b,
  length-hex_bytes d all,
)

read_data_step :
    (l : List ℕ) (start n : ℕ) (digits : List ℕ) (b : ℕ) (d : List ℕ)
    → slice l start (start + 2) ≡ value digits
    → from_str_radix (2 ^ 8) digits ≡ some b
    → read_data l (start + 2) n ≡ value (some d)
    → read_data l start (suc n) ≡ value (some (b ∷ d))
unfolding read_data
read_data_step l start n digits b d here reads next = rw (here, ◌>>=◌, reads, next) refl

read_data-hex_bytes :
    (pre d rest : List ℕ)
    → All IsByte d
    → read_data (pre ++ (hex_bytes d ++ rest)) (length pre) (length d) ≡ value (some d)
unfolding read_data hex_bytes
read_data-hex_bytes pre [] rest all = refl
read_data-hex_bytes pre (b ∷ d) rest (small, all) =
    let x = fixed_hex 2 b in
    let later = hex_bytes d ++ rest in
    let printed : format_hex 2 b ≡ x = format_hex_lem 1 b (omega arith) (omega arith) in
    let here : slice (pre ++ (x ++ later)) (length pre) (length pre + 2) ≡ value x =
      ap (λ k. slice (pre ++ (x ++ later)) (length pre) (length pre + k))
        (sym (length-fixed_hex 2 b))
      ∙ slice-middle pre x later in
    let count : length (pre ++ x) ≡ length pre + 2 =
      omega (arith, length-append pre x, length-fixed_hex 2 b) in
    let shift : (pre ++ x) ++ later ≡ pre ++ (x ++ later) = append_assoc pre x later in
    let next : read_data (pre ++ (x ++ later)) (length pre + 2) (length d) ≡ value (some d) =
      rw (sym shift, sym count) (read_data-hex_bytes (pre ++ x) d rest all) in
    let whole : (format_hex 2 b ++ hex_bytes d) ++ rest ≡ x ++ later =
      ap (λ t. (t ++ hex_bytes d) ++ rest) printed ∙ append_assoc x (hex_bytes d) rest in
    ap (λ t. read_data (pre ++ t) (length pre) (suc (length d))) whole
    ∙ read_data_step (pre ++ (x ++ later)) (length pre) (length d) x b d here
        (from_str_radix-fixed_hex (2 ^ 8) 1 b (omega arith) (omega arith)) next

module _ (c : ℕ) (name : List ℕ) (d : List ℕ) (tail : List ℕ) (small : length d ≤ 8) where
  -- A line: its kind, the identifier, the length digit, the data, and what is behind.
  unfoldable pub line : List ℕ
  line = c ∷ (name ++ ((b'0' + length d) ∷ (hex_bytes d ++ tail)))

  length_digit : index line (suc (length name)) ≡ value (b'0' + length d)
  unfolding line
  length_digit = index-middle (c ∷ name) (b'0' + length d) (hex_bytes d ++ tail)

  to_digit_lem : to_digit (b'0' + length d) ≡ some (length d)
  unfolding to_digit
  to_digit_lem = ground arith

  pub length-line : All IsByte d → length line ≡ suc (length name) + 1 + length d * 2 + length tail
  unfolding line
  length-line bytes = omega (
    arith,
    length-append name ((b'0' + length d) ∷ (hex_bytes d ++ tail)),
    length-append (hex_bytes d) tail,
    length-hex_bytes d bytes,
  )

  pub read_fields_lem :
      (i : ℕ)
      → from_str_radix (2 ^ 32) name ≡ some i
      → read_fields line (suc (length name)) ≡ value (some (i, length d))
  unfolding read_fields line
  read_fields_lem i reads =
      let long : ltb (length line) (suc (length name) + 1) ≡ false =
        ground (arith, length-append name ((b'0' + length d) ∷ (hex_bytes d ++ tail))) in
      let cut : slice line 1 (suc (length name)) ≡ value name =
        ap (slice line 1) (omega arith)
        ∙ slice-middle (c ∷ []) name ((b'0' + length d) ∷ (hex_bytes d ++ tail)) in
      rw (long, cut, ◌>>=◌, reads, length_digit, to_digit_lem) refl

  pub read_data_lem :
      All IsByte d → read_data line (suc (length name) + 1) (length d) ≡ value (some d)
  unfolding line
  read_data_lem bytes =
      let pre = (c ∷ name) ++ ((b'0' + length d) ∷ []) in
      let count : length pre ≡ suc (length name) + 1 =
        omega (arith, length-append (c ∷ name) ((b'0' + length d) ∷ [])) in
      let shift : pre ++ (hex_bytes d ++ tail) ≡ line =
        append_assoc (c ∷ name) ((b'0' + length d) ∷ []) (hex_bytes d ++ tail) in
      rw (sym shift, sym count) (read_data-hex_bytes pre d tail bytes)

  pub has_stamped_length_lem :
      All IsByte d → has_stamped_length line (suc (length name)) ≡ value (some (length tail == 9))
  unfolding has_stamped_length
  has_stamped_length_lem bytes =
      let same : (length line == suc (length name) + 1 + length d * 2 + 8 + 1)
          ≡ (length tail == 9) =
        ground (arith, length-line bytes) in
      rw (length_digit, to_digit_lem, same) refl

-- A timestamp in front of the carriage return, or none.
unfoldable pub stamp_text : Option ℕ → List ℕ
stamp_text none = b'\r' ∷ []
stamp_text (some ts32) = format_hex 8 ts32 ++ (b'\r' ∷ [])

-- The 64-bit time that the driver makes of it.
unfoldable pub full_stamp : ℕ → Option ℕ → Option ℕ
full_stamp high none = none
full_stamp high (some ts32) = some (bit_or (high * 2 ^ 32) ts32)

abbrev pub StampFits : Option ℕ → Type 0
StampFits none = Unit
StampFits (some ts32) = ts32 < 2 ^ 32

read_timestamp_step :
    (high : ℕ) (l : List ℕ) (start : ℕ) (digits : List ℕ) (low : ℕ)
    → leb (start + 8) (length l) ≡ true
    → slice l start (start + 8) ≡ value digits
    → from_str_radix (2 ^ 32) digits ≡ some low
    → read_timestamp high true l start ≡ value (some (bit_or (high * 2 ^ 32) low))
unfolding read_timestamp
read_timestamp_step high l start digits low room here reads = rw (room, here, ◌>>=◌, reads) refl

module _ (c : ℕ) (name : List ℕ) (d : List ℕ) (bytes : All IsByte d) (small : length d ≤ 8) where
  stamp_place :
      (tail : List ℕ)
      → line c name d tail small ≡ (c ∷ (name ++ ((b'0' + length d) ∷ hex_bytes d))) ++ tail
  unfolding line
  stamp_place tail =
      ap (λ t. c ∷ t) (sym (append_assoc name ((b'0' + length d) ∷ hex_bytes d) tail))

  front_length :
      length (c ∷ (name ++ ((b'0' + length d) ∷ hex_bytes d)))
      ≡ suc (length name) + 1 + length d * 2
  front_length =
      omega (arith, length-append name ((b'0' + length d) ∷ hex_bytes d), length-hex_bytes d bytes)

  pub read_timestamp_lem :
      (high : ℕ) (stamp : Option ℕ)
      → StampFits stamp
      → read_timestamp high
          (length (stamp_text stamp) == 9)
          (line c name d (stamp_text stamp) small)
          (suc (length name) + 1 + length d * 2)
        ≡ value (full_stamp high stamp)
  unfolding read_timestamp stamp_text full_stamp
  read_timestamp_lem high none fits = refl
  read_timestamp_lem high (some ts32) fits =
      let front = c ∷ (name ++ ((b'0' + length d) ∷ hex_bytes d)) in
      let x = fixed_hex 8 ts32 in
      let printed : format_hex 8 ts32 ≡ x = format_hex_lem 7 ts32 (omega arith) fits in
      let nine : (length (x ++ (b'\r' ∷ [])) == 9) ≡ true =
        ground (arith, length-append x (b'\r' ∷ []), length-fixed_hex 8 ts32) in
      let room : leb (length front + 8) (length (front ++ (x ++ (b'\r' ∷ [])))) ≡ true = ground (
        arith,
        length-append front (x ++ (b'\r' ∷ [])),
        length-append x (b'\r' ∷ []),
        length-fixed_hex 8 ts32,
      ) in
      let cut : slice (front ++ (x ++ (b'\r' ∷ []))) (length front) (length front + 8) ≡ value x =
        ap (λ k. slice (front ++ (x ++ (b'\r' ∷ []))) (length front) (length front + k))
          (sym (length-fixed_hex 8 ts32))
        ∙ slice-middle front x (b'\r' ∷ []) in
      rw (printed, stamp_place (x ++ (b'\r' ∷ [])), sym front_length, nine)
        (read_timestamp_step high (front ++ (x ++ (b'\r' ∷ []))) (length front) x ts32 room cut
          (from_str_radix-fixed_hex (2 ^ 32) 7 ts32 (omega arith) fits))
