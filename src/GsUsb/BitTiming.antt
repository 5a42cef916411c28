-- ===== src/GsUsb/BitTiming.antt =====
-- drivers/gs_usb/bit_timing.rs: the device's limits, the search for a bit timing, and its bytes. The arithmetic in floating point is a
-- parameter, `Scores`: the score of a candidate, and how scores compare.
pub mod Limits
pub mod Layout
pub mod Tests
use win_can_utils.Base.{
  ℕ, zero, suc, ◌+◌, ◌-◌, ◌/◌, ◌%◌, ◌^◌, min, ltb, ◌==◌, if◌then◌else◌, Bool, List, ◌++◌, Option,
  none, some, Outcome, value, ◌>>=◌, slice,
}
use win_can_utils.Base.Bytes.{to_le_bytes, from_le_bytes}

pub record GsBtConst : Type 0 where
  pub feature : ℕ
  pub fclk_can : ℕ
  pub tseg1_min : ℕ
  pub tseg1_max : ℕ
  pub tseg2_min : ℕ
  pub tseg2_max : ℕ
  pub sjw_max : ℕ
  pub brp_min : ℕ
  pub brp_max : ℕ
  pub brp_inc : ℕ

pub record GsDeviceBitTiming : Type 0 where
  pub prop_seg : ℕ
  pub phase_seg1 : ℕ
  pub phase_seg2 : ℕ
  pub sjw : ℕ
  pub brp : ℕ

-- The closure of `parse_bt_const`
unfoldable pub le32 : List ℕ → ℕ → Outcome ℕ
le32 b i = do word ← slice b i (i + 4); value (from_le_bytes word)

unfoldable pub parse_bt_const : List ℕ → Outcome GsBtConst
parse_bt_const b = do
  feature ← le32 b 0
  fclk_can ← le32 b 4
  tseg1_min ← le32 b 8
  tseg1_max ← le32 b 12
  tseg2_min ← le32 b 16
  tseg2_max ← le32 b 20
  sjw_max ← le32 b 24
  brp_min ← le32 b 28
  brp_max ← le32 b 32
  brp_inc ← le32 b 36
  value (record {
    feature = feature;
    fclk_can = fclk_can;
    tseg1_min = tseg1_min;
    tseg1_max = tseg1_max;
    tseg2_min = tseg2_min;
    tseg2_max = tseg2_max;
    sjw_max = sjw_max;
    brp_min = brp_min;
    brp_max = brp_max;
    brp_inc = brp_inc;
  })

-- `GsDeviceBitTiming::to_bytes`
unfoldable pub to_bytes : GsDeviceBitTiming → List ℕ
to_bytes timing =
    to_le_bytes 4 timing.prop_seg
    ++ to_le_bytes 4 timing.phase_seg1
    ++ to_le_bytes 4 timing.phase_seg2
    ++ to_le_bytes 4 timing.sjw
    ++ to_le_bytes 4 timing.brp

-- `score bitrate fclk brp tseg1 total_tq` is `none` for a rate error above 5 %, and `le` is `<=`.
pub record Scores : Type 1 where
  pub Score : Type 0
  pub score : ℕ → ℕ → ℕ → ℕ → ℕ → Option Score
  pub le : Score → Score → Bool

-- `phase_seg1` and `prop_seg` of a first segment, or `none` to go on with the next candidate.
unfoldable pub first_phase : ℕ → ℕ → ℕ
first_phase tseg1_max tseg1 =
    let phase = if ltb 1 tseg1 then min (tseg1 / 2) tseg1_max else 1 in
    if phase == 0 then 1 else phase

unfoldable pub segments : ℕ → ℕ → Option (ℕ × ℕ)
unfolding first_phase
segments tseg1_max tseg1 =
    let phase = first_phase tseg1_max tseg1 in
    let prop = tseg1 - phase in
    if prop == 0 then (if ltb 1 phase then some (phase - 1, 1) else none) else some (phase, prop)

-- `for i in lo..lo + n`
unfoldable pub for_each : {S : Type 0} → (ℕ → S → S) → ℕ → ℕ → S → S
for_each f lo zero s = s
for_each f lo (suc n) s = for_each f (lo + 1) n (f lo s)

-- `for i in lo..=hi`
unfoldable pub for_range : {S : Type 0} → (ℕ → S → S) → ℕ → ℕ → S → S
unfolding for_each
for_range f lo hi s = for_each f lo (hi + 1 - lo) s

module _ (scores : Scores) where
  open scores use {Score, score, le}

  abbrev pub Best : Type 0
  Best = Option (GsDeviceBitTiming × Score)

  -- An earlier candidate stays if its score is at most the new one.
  unfoldable pub better : Best → GsDeviceBitTiming → Score → Best
  better none candidate sc = some (candidate, sc)
  better (some (old, best_score)) candidate sc =
      if le best_score sc then some (old, best_score) else some (candidate, sc)

  -- The body of the innermost loop.
  unfoldable pub consider : ℕ → GsBtConst → ℕ → ℕ → ℕ → Best → Best
  unfolding better
  consider bitrate caps brp tseg1 tseg2 best =
      elim (score bitrate caps.fclk_can brp tseg1 ((1 + tseg1 + tseg2) % 2 ^ 32)) [
        | none ↦ best
        | some sc ↦ elim (segments caps.tseg1_max tseg1) [
          | none ↦ best
          | some (phase, prop) ↦
              better best
                (record {
                  prop_seg = prop;
                  phase_seg1 = phase;
                  phase_seg2 = tseg2;
                  sjw = min caps.sjw_max tseg2;
                  brp = brp;
                })
                sc
        ]
      ]

  unfoldable pub search : ℕ → GsBtConst → Best
  unfolding for_range
  search bitrate caps =
      for_range
        (λ brp.
          for_range
            (λ tseg1.
              for_range (λ tseg2. consider bitrate caps brp tseg1 tseg2) caps.tseg2_min
                caps.tseg2_max)
            caps.tseg1_min caps.tseg1_max)
        caps.brp_min caps.brp_max none

  unfoldable pub calc_bit_timing : ℕ → GsBtConst → Option GsDeviceBitTiming
  calc_bit_timing bitrate caps = elim (search bitrate caps) [
    | none ↦ none
    | some (timing, sc) ↦ some timing
  ]
