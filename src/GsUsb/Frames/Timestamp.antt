-- ===== src/GsUsb/Frames/Timestamp.antt =====
-- The 64-bit timestamps that are made of the device's 32-bit ones.
use win_can_utils.Base.{ℕ, ◌+◌, ◌*◌, ◌/◌, ◌%◌, ◌^◌, ◌≤◌, ◌<◌, ◌≡◌, ltb, if◌then◌else◌, some, arith}
use win_can_utils.Base.Bits.{and_mask, and_high, or_disjoint}
use win_can_utils.GsUsb.Frames.{unwrap_ts}

-- In plain arithmetic.
unwrap_ts_sum :
    (prev ts32 : ℕ)
    → prev < 2 ^ 64
    → ts32 < 2 ^ 32
    → unwrap_ts (some prev) ts32
      ≡ (prev / 2 ^ 32 + (if ltb ts32 (prev % 2 ^ 32) then 1 else 0)) % 2 ^ 32 * 2 ^ 32 + ts32
unfolding unwrap_ts
unwrap_ts_sum prev ts32 hp ht = ground (
  arith,
  and_mask 32 prev,
  and_high 32 32 prev,
  or_disjoint 32 (prev / 2 ^ 32) ts32 ht,
  or_disjoint 32 ((prev / 2 ^ 32 + 1) % 2 ^ 32) ts32 ht,
)

-- A device time that is not before the last one, and less than 2^32 ticks behind it, is recovered
-- from its low 32 bits.
pub unwrap_ts-mod :
    (prev t : ℕ)
    → prev ≤ t
    → t < prev + 2 ^ 32
    → t < 2 ^ 64
    → unwrap_ts (some prev) (t % 2 ^ 32) ≡ t
unwrap_ts-mod prev t after close fits = ground (arith, unwrap_ts_sum prev (t % 2 ^ 32))
