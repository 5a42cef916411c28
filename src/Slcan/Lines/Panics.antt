-- ===== src/Slcan/Lines/Panics.antt =====
-- Which lines `parse_slcan_line_bytes` indexes out of range.
use win_can_utils.Base.{
  ℕ, zero, suc, ◌+◌, ◌-◌, ◌*◌, ◌^◌, ◌≤◌, ◌<◌, ◌≡◌, ◌↔◌, inl, inr, refl, ltb, leb, ◌==◌, ◌&&◌, ◌||◌,
  Bool, true, false, List, [], ◌∷◌, length, take, drop, none, some, panic, index, slice,
  slice_in_range, index_in_range, Returns, Returns-bind, Returns-option, Bool-cases, arith,
}
use win_can_utils.Base.Hex.{from_str_radix}
use win_can_utils.Can.{CanApi}
use win_can_utils.Slcan.Lines.{
  has_timestamp, has_stamped_length, read_fields, read_data, read_timestamp, parse_rest,
  parse_frame, parse_kind, parse_slcan_line_bytes,
}

-- A line of the kind `t` or `T` with a character behind that letter, but without a length digit's
-- place.
pub is_truncated : List ℕ → Bool
is_truncated [] = false
is_truncated (c ∷ rest) =
    ltb 0 (length rest)
    && (((c == b't') && ltb (length rest) 4) || ((c == b'T') && ltb (length rest) 9))

slice-Returns :
    (line : List ℕ) (start stop : ℕ)
    → start ≤ stop
    → stop ≤ length line
    → Returns (slice line start stop)
slice-Returns line start stop h k =
    (take (stop - start) (drop start line), slice_in_range line start stop h k)

read_fields-Returns : (line : List ℕ) (at : ℕ) → 1 ≤ at → Returns (read_fields line at)
unfolding read_fields
read_fields-Returns line at h = elim (Bool-cases (ltb (length line) (at + 1))) [
  | inl short ↦ rw short (none, refl)
  | inr long ↦
      let fits : at < length line = ground arith in
      rw long (
        Returns-bind _ _ (slice-Returns line 1 at h (omega arith)) (λ digits.
          Returns-option (from_str_radix (2 ^ 32) digits) none _
            (λ id. Returns-bind _ _ (index_in_range line at fits) (λ c. (_, refl)))))
]

read_data-Returns :
    (line : List ℕ) (start n : ℕ) → start + n * 2 ≤ length line → Returns (read_data line start n)
unfolding read_data
read_data-Returns line start zero h = (some [], refl)
read_data-Returns line start (suc n) h =
    Returns-bind _ _ (slice-Returns line start (start + 2) (omega arith) (omega arith)) (λ digits.
      Returns-option (from_str_radix (2 ^ 8) digits) none _ (λ byte.
        Returns-bind _ _ (read_data-Returns line (start + 2) n (omega arith)) (λ rest. (_, refl))))

read_timestamp-Returns :
    (high : ℕ) (has : Bool) (line : List ℕ) (ts_start : ℕ)
    → Returns (read_timestamp high has line ts_start)
unfolding read_timestamp
read_timestamp-Returns high has line ts_start =
    elim (Bool-cases (has && leb (ts_start + 8) (length line))) [
      | inr off ↦ rw off (none, refl)
      | inl on ↦
          let fits : ts_start + 8 ≤ length line = ground arith in
          rw on (
            Returns-bind _ _ (slice-Returns line ts_start (ts_start + 8) (omega arith) fits)
              (λ d. (_, refl)))
    ]

has_stamped_length-Returns :
    (line : List ℕ) (at : ℕ) → at < length line → Returns (has_stamped_length line at)
unfolding has_stamped_length
has_stamped_length-Returns line at h = Returns-bind _ _ (index_in_range line at h) (λ c. (_, refl))

-- An index behind the end.
index_out_of_range : (line : List ℕ) (i : ℕ) → length line ≤ i → index line i ≡ panic
index_out_of_range [] i h = refl
index_out_of_range (c ∷ line) zero h = absurd (omega arith)
index_out_of_range (c ∷ line) (suc i) h = index_out_of_range line i (omega arith)

has_timestamp-panic : (line : List ℕ) → is_truncated line ≡ true → has_timestamp line ≡ panic
unfolding is_truncated has_timestamp has_stamped_length
has_timestamp-panic [] h = ground arith
has_timestamp-panic (c ∷ rest) h = elim (Bool-cases (c == b't')) [
  | inl t ↦
      let long : ltb 1 (suc (length rest)) ≡ true = ground arith in
      let short : suc (length rest) ≤ 4 = ground arith in
      rw (long, t, index_out_of_range (c ∷ rest) 4 short, has_timestamp) refl
  | inr not_t ↦
      let long : ltb 1 (suc (length rest)) ≡ true = ground arith in
      let t : (c == b'T') ≡ true = ground arith in
      let short : suc (length rest) ≤ 9 = ground arith in
      rw (long, not_t, t, index_out_of_range (c ∷ rest) 9 short, has_timestamp) refl
]

has_timestamp-Returns : (line : List ℕ) → is_truncated line ≡ false → Returns (has_timestamp line)
unfolding is_truncated has_timestamp
has_timestamp-Returns [] h = (_, refl)
has_timestamp-Returns (c ∷ rest) h = elim (Bool-cases (ltb 1 (suc (length rest)))) [
  | inr short ↦ rw short (_, refl)
  | inl long ↦ rw long (elim (Bool-cases (c == b't')) [
    | inl t ↦ rw t (has_stamped_length-Returns (c ∷ rest) 4 (ground arith))
    | inr not_t ↦ rw not_t (elim (Bool-cases (c == b'T')) [
      | inl T ↦ rw T (has_stamped_length-Returns (c ∷ rest) 9 (ground arith))
      | inr not_T ↦ rw not_T (_, refl)
    ])
  ])
]

module _ (can : CanApi) where
  parse_rest-Returns :
      (high : ℕ) (has : Bool) (line : List ℕ) (ext : Bool) (start : ℕ) (f : ℕ × ℕ)
      → Returns (parse_rest can high has line ext start f)
  unfolding parse_rest
  parse_rest-Returns high has line ext start (i, dlc) =
      elim (Bool-cases (ltb (length line) (start + dlc * 2))) [
        | inl short ↦ rw short (none, refl)
        | inr long ↦
            let fits : start + dlc * 2 ≤ length line = ground arith in
            rw long (
              Returns-bind _ _ (read_data-Returns line start dlc fits) (λ read.
                Returns-option read none _ (λ bytes.
                  Returns-bind _ _ (read_timestamp-Returns high has line (start + dlc * 2))
                    (λ t. (_, refl)))))
      ]

  parse_frame-Returns :
      (high : ℕ) (has : Bool) (line : List ℕ) (ext : Bool) (at : ℕ)
      → 1 ≤ at
      → Returns (parse_frame can high has line ext at)
  unfolding parse_frame
  parse_frame-Returns high has line ext at h =
      Returns-bind _ _ (read_fields-Returns line at h)
        (λ fields. Returns-option fields none _ (parse_rest-Returns high has line ext (at + 1)))

  parse_kind-Returns :
      (high : ℕ) (has : Bool) (c : ℕ) (line : List ℕ) → Returns (parse_kind can high has c line)
  unfolding parse_kind
  parse_kind-Returns high has c line = elim (Bool-cases (c == b't')) [
    | inl t ↦ rw t (
        Returns-bind _ _ (parse_frame-Returns high has line false 4 (omega arith)) (λ f. (_, refl)))
    | inr not_t ↦ rw not_t (elim (Bool-cases (c == b'T')) [
      | inl T ↦ rw T (
          Returns-bind _ _ (parse_frame-Returns high has line true 9 (omega arith))
            (λ f. (_, refl)))
      | inr not_T ↦ rw not_T (elim (Bool-cases (c == b'J')) [
        | inl J ↦ rw J (_, refl)
        | inr not_J ↦ rw not_J (_, refl)
      ])
    ])
  ]

  -- Once the timestamp test returns, so does the rest.
  after_test-Returns :
      (high c : ℕ) (rest : List ℕ)
      → Returns (has_timestamp (c ∷ rest))
      → Returns (parse_slcan_line_bytes can high (c ∷ rest))
  unfolding parse_slcan_line_bytes
  after_test-Returns high c rest tested = Returns-bind _ _ tested (λ stamped.
      Returns-option stamped (none, high) _ (λ has. parse_kind-Returns high has c (c ∷ rest)))

  after_test-panic :
      (high c : ℕ) (rest : List ℕ)
      → has_timestamp (c ∷ rest) ≡ panic
      → parse_slcan_line_bytes can high (c ∷ rest) ≡ panic
  unfolding parse_slcan_line_bytes
  after_test-panic high c rest e = rw e refl

  -- The parser panics on the truncated lines, and on no other.
  pub parse_slcan_line_bytes-panic :
      (high : ℕ) (line : List ℕ)
      → (parse_slcan_line_bytes can high line ≡ panic) ↔ (is_truncated line ≡ true)
  unfolding parse_slcan_line_bytes is_truncated
  parse_slcan_line_bytes-panic high [] = (cc, λ e. cc)
  parse_slcan_line_bytes-panic high (c ∷ rest) =
      let backward = λ (e : is_truncated (c ∷ rest) ≡ true).
        after_test-panic high c rest (has_timestamp-panic (c ∷ rest) e) in
      elim (Bool-cases (is_truncated (c ∷ rest))) [
        | inl e ↦ (λ _. e, backward)
        | inr e ↦
            let (r, returned) =
              after_test-Returns high c rest (has_timestamp-Returns (c ∷ rest) e) in
            (λ p. absurd cc, backward)
      ]
