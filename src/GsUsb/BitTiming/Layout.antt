-- ===== src/GsUsb/BitTiming/Layout.antt =====
-- The layout of the limits that a device sends.
use win_can_utils.Base.{
  ℕ, ◌+◌, ◌-◌, ◌^◌, ◌≤◌, ◌<◌, ◌≡◌, refl, ap, arith, List, ◌++◌, length, take, drop, value, slice,
  slice_in_range, Returns, Returns-bind,
}
use win_can_utils.Base.Bytes.{to_le_bytes, from_le_bytes, from_le_bytes-to_le_bytes}
use win_can_utils.GsUsb.BitTiming.{GsBtConst, le32, parse_bt_const}

-- The ten words in the order of the record, four bytes each.
abbrev pub bt_const_bytes : GsBtConst → List ℕ
bt_const_bytes c =
    to_le_bytes 4 c.feature
    ++ to_le_bytes 4 c.fclk_can
    ++ to_le_bytes 4 c.tseg1_min
    ++ to_le_bytes 4 c.tseg1_max
    ++ to_le_bytes 4 c.tseg2_min
    ++ to_le_bytes 4 c.tseg2_max
    ++ to_le_bytes 4 c.sjw_max
    ++ to_le_bytes 4 c.brp_min
    ++ to_le_bytes 4 c.brp_max
    ++ to_le_bytes 4 c.brp_inc

le32-Returns : (b : List ℕ) (i : ℕ) → i + 4 ≤ length b → Returns (le32 b i)
unfolding le32
le32-Returns b i h =
    Returns-bind (slice b i (i + 4)) (λ word. value (from_le_bytes word))
      (take (i + 4 - i) (drop i b), slice_in_range b i (i + 4) (omega arith) h)
      (λ word. (from_le_bytes word, refl))

-- Forty bytes are enough.
pub parse_bt_const-Returns : (b : List ℕ) → 40 ≤ length b → Returns (parse_bt_const b)
unfolding parse_bt_const
parse_bt_const-Returns b h =
    let (feature, e0) = le32-Returns b 0 (omega arith) in
    let (fclk_can, e1) = le32-Returns b 4 (omega arith) in
    let (tseg1_min, e2) = le32-Returns b 8 (omega arith) in
    let (tseg1_max, e3) = le32-Returns b 12 (omega arith) in
    let (tseg2_min, e4) = le32-Returns b 16 (omega arith) in
    let (tseg2_max, e5) = le32-Returns b 20 (omega arith) in
    let (sjw_max, e6) = le32-Returns b 24 (omega arith) in
    let (brp_min, e7) = le32-Returns b 28 (omega arith) in
    let (brp_max, e8) = le32-Returns b 32 (omega arith) in
    let (brp_inc, e9) = le32-Returns b 36 (omega arith) in
    (
      record {
        feature = feature;
        fclk_can = fclk_can;
        tseg1_min = tseg1_min;
        tseg1_max = tseg1_max;
        tseg2_min = tseg2_min;
        tseg2_max = tseg2_max;
        sjw_max = sjw_max;
        brp_min = brp_min;
        brp_max = brp_max;
        brp_inc = brp_inc;
      },
      rw (e0, e1, e2, e3, e4, e5, e6, e7, e8, e9),
    )

-- Every word fits 32 bits.
pub record IsWords (c : GsBtConst) : Type 0 where
  pub feature_lt : c.feature < 2 ^ 32
  pub fclk_can_lt : c.fclk_can < 2 ^ 32
  pub tseg1_min_lt : c.tseg1_min < 2 ^ 32
  pub tseg1_max_lt : c.tseg1_max < 2 ^ 32
  pub tseg2_min_lt : c.tseg2_min < 2 ^ 32
  pub tseg2_max_lt : c.tseg2_max < 2 ^ 32
  pub sjw_max_lt : c.sjw_max < 2 ^ 32
  pub brp_min_lt : c.brp_min < 2 ^ 32
  pub brp_max_lt : c.brp_max < 2 ^ 32
  pub brp_inc_lt : c.brp_inc < 2 ^ 32

word_lem : (v : ℕ) → v < 2 ^ 32 → from_le_bytes (to_le_bytes 4 v) ≡ v
word_lem v h = from_le_bytes-to_le_bytes 4 v h

module _ (c : GsBtConst) (words : IsWords c) where
  feature_at : le32 (bt_const_bytes c) 0 ≡ value c.feature
  unfolding le32 slice to_le_bytes
  feature_at = ap value (word_lem c.feature words.feature_lt)

  fclk_can_at : le32 (bt_const_bytes c) 4 ≡ value c.fclk_can
  unfolding le32 slice to_le_bytes
  fclk_can_at = ap value (word_lem c.fclk_can words.fclk_can_lt)

  tseg1_min_at : le32 (bt_const_bytes c) 8 ≡ value c.tseg1_min
  unfolding le32 slice to_le_bytes
  tseg1_min_at = ap value (word_lem c.tseg1_min words.tseg1_min_lt)

  tseg1_max_at : le32 (bt_const_bytes c) 12 ≡ value c.tseg1_max
  unfolding le32 slice to_le_bytes
  tseg1_max_at = ap value (word_lem c.tseg1_max words.tseg1_max_lt)

  tseg2_min_at : le32 (bt_const_bytes c) 16 ≡ value c.tseg2_min
  unfolding le32 slice to_le_bytes
  tseg2_min_at = ap value (word_lem c.tseg2_min words.tseg2_min_lt)

  tseg2_max_at : le32 (bt_const_bytes c) 20 ≡ value c.tseg2_max
  unfolding le32 slice to_le_bytes
  tseg2_max_at = ap value (word_lem c.tseg2_max words.tseg2_max_lt)

  sjw_max_at : le32 (bt_const_bytes c) 24 ≡ value c.sjw_max
  unfolding le32 slice to_le_bytes
  sjw_max_at = ap value (word_lem c.sjw_max words.sjw_max_lt)

  brp_min_at : le32 (bt_const_bytes c) 28 ≡ value c.brp_min
  unfolding le32 slice to_le_bytes
  brp_min_at = ap value (word_lem c.brp_min words.brp_min_lt)

  brp_max_at : le32 (bt_const_bytes c) 32 ≡ value c.brp_max
  unfolding le32 slice to_le_bytes
  brp_max_at = ap value (word_lem c.brp_max words.brp_max_lt)

  brp_inc_at : le32 (bt_const_bytes c) 36 ≡ value c.brp_inc
  unfolding le32 slice to_le_bytes
  brp_inc_at = ap value (word_lem c.brp_inc words.brp_inc_lt)

  -- Limits of 32-bit words, laid out one after the other in the order of the record, are read back.
  pub parse_bt_const-bytes : parse_bt_const (bt_const_bytes c) ≡ value c
  unfolding parse_bt_const
  parse_bt_const-bytes = rw (
    feature_at, fclk_can_at, tseg1_min_at, tseg1_max_at, tseg2_min_at, tseg2_max_at, sjw_max_at,
    brp_min_at, brp_max_at, brp_inc_at,
  )
