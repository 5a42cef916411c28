-- ===== src/GsUsb/BitTiming/Tests.antt =====
-- A search at 48 MHz, with a score in whole numbers.
use win_can_utils.Base.{ℕ, ◌+◌, ◌-◌, ◌*◌, ◌≡◌, refl, leb, ◌==◌, if◌then◌else◌, none, some}
use win_can_utils.GsUsb.BitTiming.{
  GsBtConst, GsDeviceBitTiming, Scores, first_phase, segments, for_each, for_range, better,
  consider, search, calc_bit_timing,
}
use win_can_utils.GsUsb.BitTiming.Limits.{IsWithin, calc_bit_timing-IsWithin}

-- Exact rates only; the score is the distance of the sample point from 7/8 of the bit.
abbrev pub exact : Scores
exact = record {
  Score = ℕ;
  score = λ bitrate fclk brp tseg1 total.
      if fclk == brp * total * bitrate
      then some ((8 * (1 + tseg1) - 7 * total) + (7 * total - 8 * (1 + tseg1)))
      else none;
  le = leb;
}

abbrev pub caps : GsBtConst
caps = record {
  feature = 0;
  fclk_can = 48_000_000;
  tseg1_min = 11;
  tseg1_max = 13;
  tseg2_min = 1;
  tseg2_max = 3;
  sjw_max = 4;
  brp_min = 5;
  brp_max = 6;
  brp_inc = 1;
}

abbrev pub timing : GsDeviceBitTiming
timing = record { prop_seg = 7; phase_seg1 = 6; phase_seg2 = 2; sjw = 2; brp = 6 }

pub found : calc_bit_timing exact 500_000 caps ≡ some timing
unfolding calc_bit_timing search for_range for_each consider better segments first_phase
found = refl

calc_bit_timing-IsWithin_example : IsWithin caps timing
unfolding calc_bit_timing search for_range for_each consider better segments first_phase
calc_bit_timing-IsWithin_example = calc_bit_timing-IsWithin exact 500_000 caps timing found
