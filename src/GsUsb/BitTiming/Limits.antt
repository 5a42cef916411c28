-- ===== src/GsUsb/BitTiming/Limits.antt =====
-- The timing that the search finds, against the limits of the device.
use mathlib.Core.Path.{subst}
use win_can_utils.Base.{
  ℕ, zero, suc, ◌+◌, ◌-◌, ◌%◌, ◌^◌, ◌≤◌, ◌<◌, ◌≡◌, ◌⊎◌, inl, inr, refl, min, Bool-cases, Option,
  none, some, arith,
}
use win_can_utils.GsUsb.BitTiming.{
  GsBtConst, GsDeviceBitTiming, Scores, first_phase, segments, for_each, for_range, Best, better,
  consider, search, calc_bit_timing,
}

-- What holds of the start and is kept by each round holds of the end.
for_each-keeps :
    {S : Type 0} (P : S → Type 0) (f : ℕ → S → S) (lo n : ℕ) (s : S)
    → ((i : ℕ) (t : S) → lo ≤ i → i < lo + n → P t → P (f i t))
    → P s
    → P (for_each f lo n s)
unfolding for_each
for_each-keeps P f lo zero s step start = start
for_each-keeps P f lo (suc n) s step start =
    for_each-keeps P f (lo + 1) n (f lo s) (λ i t low high. step i t (omega arith) (omega arith))
      (step lo s (omega arith) (omega arith) start)

for_range-keeps :
    {S : Type 0} (P : S → Type 0) (f : ℕ → S → S) (lo hi : ℕ) (s : S)
    → ((i : ℕ) (t : S) → lo ≤ i → i ≤ hi → P t → P (f i t))
    → P s
    → P (for_range f lo hi s)
unfolding for_range
for_range-keeps P f lo hi s step start =
    for_each-keeps P f lo (hi + 1 - lo) s (λ i t low high. step i t low (omega arith)) start

first_phase_bounds :
    (limit t : ℕ)
    → (1 ≤ first_phase limit t) × ((first_phase limit t < t) ⊎ (first_phase limit t ≡ 1))
unfolding first_phase
first_phase_bounds limit t = (ground arith, ground arith)

-- The two parts of a first segment, neither empty.
segments_sum :
    (limit t phase prop : ℕ)
    → segments limit t ≡ some (phase, prop)
    → (prop + phase ≡ t) × (1 ≤ prop) × (1 ≤ phase)
unfolding segments
segments_sum limit t phase prop h =
    let (low, small) = first_phase_bounds limit t in (ground arith, ground arith, ground arith)

-- A timing within the limits of the device, both parts of the first segment not empty.
pub record IsWithin (caps : GsBtConst) (t : GsDeviceBitTiming) : Type 0 where
  pub segment1_min : caps.tseg1_min ≤ t.prop_seg + t.phase_seg1
  pub segment1_max : t.prop_seg + t.phase_seg1 ≤ caps.tseg1_max
  pub prop_seg_some : 1 ≤ t.prop_seg
  pub phase_seg1_some : 1 ≤ t.phase_seg1
  pub segment2_min : caps.tseg2_min ≤ t.phase_seg2
  pub segment2_max : t.phase_seg2 ≤ caps.tseg2_max
  pub sjw_max : t.sjw ≤ caps.sjw_max
  pub sjw_le : t.sjw ≤ t.phase_seg2
  pub brp_min : caps.brp_min ≤ t.brp
  pub brp_max : t.brp ≤ caps.brp_max

module _ (scores : Scores) (bitrate : ℕ) (caps : GsBtConst) where
  abbrev IsBestWithin : Best scores → Type 0
  IsBestWithin none = Unit
  IsBestWithin (some (t, sc)) = IsWithin caps t

  better-IsBestWithin :
      (best : Best scores) (t : GsDeviceBitTiming) (sc : scores.Score)
      → IsBestWithin best
      → IsWithin caps t
      → IsBestWithin (better scores best t sc)
  unfolding better
  better-IsBestWithin none t sc old new = new
  better-IsBestWithin (some (t', sc')) t sc old new = elim (Bool-cases (scores.le sc' sc)) [
    | inl keeps ↦ rw keeps old
    | inr loses ↦ rw loses new
  ]

  consider-IsBestWithin :
      (brp tseg1 tseg2 : ℕ) (best : Best scores)
      → (caps.brp_min ≤ brp) × (brp ≤ caps.brp_max)
      → (caps.tseg1_min ≤ tseg1) × (tseg1 ≤ caps.tseg1_max)
      → (caps.tseg2_min ≤ tseg2) × (tseg2 ≤ caps.tseg2_max)
      → IsBestWithin best
      → IsBestWithin (consider scores bitrate caps brp tseg1 tseg2 best)
  unfolding consider
  consider-IsBestWithin brp tseg1 tseg2 best (b, b') (s, s') (r, r') old =
      from (scores.score bitrate caps.fclk_can brp tseg1 ((1 + tseg1 + tseg2) % 2 ^ 32))
        (segments caps.tseg1_max tseg1) refl
    where
      timing : ℕ × ℕ → GsDeviceBitTiming
      timing (phase, prop) = record {
        prop_seg = prop;
        phase_seg1 = phase;
        phase_seg2 = tseg2;
        sjw = min caps.sjw_max tseg2;
        brp = brp;
      }

      from :
          (o : Option scores.Score) (parts : Option (ℕ × ℕ))
          → segments caps.tseg1_max tseg1 ≡ parts
          → IsBestWithin (elim o [
            | none ↦ best
            | some sc ↦ elim parts [
              | none ↦ best
              | some (phase, prop) ↦ better scores best (timing (phase, prop)) sc
            ]
          ])
      from none parts e = old
      from (some sc) none e = old
      from (some sc) (some (phase, prop)) e =
          let (sum, first, second) = segments_sum caps.tseg1_max tseg1 phase prop e in
          better-IsBestWithin best (timing (phase, prop)) sc old (record {
            segment1_min = omega (arith, sum);
            segment1_max = omega (arith, sum);
            prop_seg_some = first;
            phase_seg1_some = second;
            segment2_min = r;
            segment2_max = r';
            sjw_max = omega arith;
            sjw_le = omega arith;
            brp_min = b;
            brp_max = b';
          })

  search-IsBestWithin : IsBestWithin (search scores bitrate caps)
  unfolding search
  search-IsBestWithin =
      for_range-keeps IsBestWithin _ caps.brp_min caps.brp_max none
        (λ brp t b b'.
          for_range-keeps IsBestWithin _ caps.tseg1_min caps.tseg1_max t (λ tseg1 t s s'.
            for_range-keeps IsBestWithin _ caps.tseg2_min caps.tseg2_max t (λ tseg2 t r r' old.
              consider-IsBestWithin brp tseg1 tseg2 t (b, b') (s, s') (r, r') old)))
        tt

  -- A timing that is found is within the limits of the device: both segments, the prescaler and the
  -- jump width, which is also no longer than the second segment; neither part of the first segment is
  -- empty.
  pub calc_bit_timing-IsWithin :
      (t : GsDeviceBitTiming) → calc_bit_timing scores bitrate caps ≡ some t → IsWithin caps t
  unfolding calc_bit_timing
  calc_bit_timing-IsWithin t h = from (search scores bitrate caps) search-IsBestWithin h
    where
      from :
          (best : Best scores)
          → IsBestWithin best
          → elim best [ none ↦ none | some (timing, sc) ↦ some timing ] ≡ some t
          → IsWithin caps t
      from none within e = absurd cc
      from (some (t', sc)) within e = let same : t' ≡ t = cc in subst (IsWithin caps) same within
