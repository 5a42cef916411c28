-- ===== src/Slcan/Lines.antt =====
-- drivers/slcan.rs: the lines of the serial protocol, read and written.
-- `std::str::from_utf8` has no place of its own: a byte from 0x80 on is no digit, so the number that
-- is read next fails where the text is refused.
pub mod Panics
pub mod Reads
pub mod RoundTrip
use win_can_utils.Base.{
  ℕ, zero, suc, ◌+◌, ◌*◌, ◌%◌, ◌^◌, bit_or, ltb, leb, ◌==◌, ◌&&◌, if◌then◌else◌, Bool, true, false,
  List, [], ◌∷◌, ◌++◌, length, drop, take, Option, none, some, Outcome, value, panic, ◌>>=◌, index,
  slice,
}
use win_can_utils.Base.Hex.{from_str_radix, to_digit, format_hex}
use win_can_utils.Base.Text.{format_decimal}
use win_can_utils.Can.{CanApi}

-- Whether the line has the length of a stamped one, its length digit standing at `at`.
pub has_stamped_length : List ℕ → ℕ → Outcome (Option Bool)
has_stamped_length line at = index line at >>= λ c.
    value (elim (to_digit c) [
      | none ↦ none
      | some len ↦ some (length line == at + 1 + len * 2 + 8 + 1)
    ])

-- `none` where a `?` returns.
unfoldable pub has_timestamp : List ℕ → Outcome (Option Bool)
unfolding has_stamped_length
has_timestamp [] = value (some false)
has_timestamp (c ∷ rest) =
    if ltb 1 (length (c ∷ rest))
    then if c == b't'
      then has_stamped_length (c ∷ rest) 4
      else if c == b'T'
      then has_stamped_length (c ∷ rest) 9
      else value (some false)
    else value (some false)

-- The identifier in front of position `at` and the data length at it.
pub read_fields : List ℕ → ℕ → Outcome (Option (ℕ × ℕ))
read_fields line at =
    if ltb (length line) (at + 1)
    then value none
    else slice line 1 at >>= λ digits. elim (from_str_radix (2 ^ 32) digits) [
      | none ↦ value none
      | some id ↦ index line at >>= λ c.
          value (elim (to_digit c) [ none ↦ none | some dlc ↦ some (id, dlc) ])
    ]

-- The loop over the data bytes.
pub read_data : List ℕ → ℕ → ℕ → Outcome (Option (List ℕ))
read_data line start zero = value (some [])
read_data line start (suc n) = slice line start (start + 2) >>= λ digits.
    elim (from_str_radix (2 ^ 8) digits) [
      | none ↦ value none
      | some byte ↦ read_data line (start + 2) n >>= λ rest.
          value (elim rest [ none ↦ none | some bytes ↦ some (byte ∷ bytes) ])
    ]

pub read_timestamp : ℕ → Bool → List ℕ → ℕ → Outcome (Option ℕ)
read_timestamp timestamp_high has line ts_start =
    if has && leb (ts_start + 8) (length line)
    then (slice line ts_start (ts_start + 8) >>= λ digits.
        value (elim (from_str_radix (2 ^ 32) digits) [
          | none ↦ none
          | some low ↦ some (bit_or (timestamp_high * 2 ^ 32) low)
        ]))
    else value none

unfoldable pub hex_bytes : List ℕ → List ℕ
hex_bytes [] = []
hex_bytes (byte ∷ bytes) = format_hex 2 byte ++ hex_bytes bytes

module _ (can : CanApi) where
  open can use {CanFrame, new, new_eff, set_timestamp, id, payload, dlc, is_extended}

  pub make_frame : Bool → ℕ → List ℕ → Option ℕ → Option CanFrame
  make_frame extended id bytes timestamp =
      elim (if extended then new_eff id bytes else new id bytes) [
        | none ↦ none
        | some frame ↦ some (set_timestamp frame timestamp)
      ]

  -- From the fields on: the data, the timestamp and the frame.
  pub parse_rest : ℕ → Bool → List ℕ → Bool → ℕ → ℕ × ℕ → Outcome (Option CanFrame)
  unfolding make_frame
  parse_rest timestamp_high has line extended data_start (id, dlc) =
      if ltb (length line) (data_start + dlc * 2)
      then value none
      else read_data line data_start dlc >>= λ read. elim read [
        | none ↦ value none
        | some bytes ↦
            read_timestamp timestamp_high has line (data_start + dlc * 2) >>= λ timestamp.
            value (make_frame extended id bytes timestamp)
      ]

  -- A line of the kind whose length digit stands at `at`.
  pub parse_frame : ℕ → Bool → List ℕ → Bool → ℕ → Outcome (Option CanFrame)
  parse_frame timestamp_high has line extended at = read_fields line at >>= λ fields. elim fields [
    | none ↦ value none
    | some f ↦ parse_rest timestamp_high has line extended (at + 1) f
  ]

  -- The kind of a line, by its first byte.
  unfoldable pub parse_kind : ℕ → Bool → ℕ → List ℕ → Outcome (Option CanFrame × ℕ)
  parse_kind timestamp_high has c line =
      if c == b't'
      then (parse_frame timestamp_high has line false 4 >>= λ f. value (f, timestamp_high))
      else if c == b'T'
      then (parse_frame timestamp_high has line true 9 >>= λ f. value (f, timestamp_high))
      else if c == b'J'
      then value (none, (timestamp_high + 1) % 2 ^ 32)
      else value (none, timestamp_high)

  -- `parse_slcan_line_bytes`: the frame, and `timestamp_high` behind.
  unfoldable pub parse_slcan_line_bytes : ℕ → List ℕ → Outcome (Option CanFrame × ℕ)
  parse_slcan_line_bytes timestamp_high [] = value (none, timestamp_high)
  parse_slcan_line_bytes timestamp_high (c ∷ rest) = has_timestamp (c ∷ rest) >>= λ stamped.
      elim stamped [
        | none ↦ value (none, timestamp_high)
        | some has ↦ parse_kind timestamp_high has c (c ∷ rest)
      ]

  -- The command of `send_frame`, up to the carriage return.
  unfoldable pub frame_text : CanFrame → List ℕ
  frame_text frame =
      (if is_extended frame then b'T' ∷ format_hex 8 (id frame) else b't' ∷ format_hex 3 (id frame))
      ++ (format_decimal (dlc frame) ++ hex_bytes (payload frame))

  -- The bytes that `send_frame` writes.
  unfoldable pub send_frame : CanFrame → List ℕ
  send_frame frame = frame_text frame ++ (b'\r' ∷ [])
