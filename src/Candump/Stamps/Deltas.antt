-- ===== src/Candump/Stamps/Deltas.antt =====
-- The differences of mode `d` against the time that passed.
use win_can_utils.Base.{
  ℕ, ◌+◌, ◌-◌, ◌*◌, ◌^◌, ◌≤◌, ◌<◌, false, List, [], ◌∷◌, length, Option, none, some, arith,
}
use win_can_utils.Can.{CanApi}
use win_can_utils.Candump.Stamps.{
  delta, TimestampCtx, micros_since, since_last, by_mode, get_timestamp, timestamps,
}

-- The sum of the timestamps that there are.
pub total : List (Option ℕ) → ℕ
total [] = 0
total (none ∷ stamps) = total stamps
total (some t ∷ stamps) = t + total stamps

module _ (can : CanApi) where
  abbrev pub Prints : Type 0
  Prints = List (ℕ × ℕ × can.CanFrame)

  -- The instants do not go back, and fit 64 bits.
  abbrev pub IsOrdered : ℕ → Prints → Type 0
  IsOrdered last [] = Unit
  IsOrdered last ((now, epoch, frame) ∷ rest) = (last ≤ now) × (now < 2 ^ 64) × IsOrdered now rest

  abbrev pub last_of : ℕ → Prints → ℕ
  last_of last [] = last
  last_of last ((now, epoch, frame) ∷ rest) = last_of now rest

  abbrev pub deltas_from : ℕ → ℕ → TimestampCtx
  deltas_from start last = record {
    mode = delta;
    hardware = false;
    start_instant = start;
    last_instant = some last;
  }

  -- The differences add up to the time from the last print before to the last one, less the fraction
  -- of a microsecond that each of them drops.
  pub total-timestamps :
      (start last : ℕ) (prints : Prints)
      → IsOrdered last prints
      → (total (timestamps can (deltas_from start last) prints) * 1000 ≤ last_of last prints - last)
        × (last_of last prints - last
            ≤ total (timestamps can (deltas_from start last) prints) * 1000 + length prints * 999)
        × (last ≤ last_of last prints)
  unfolding total timestamps get_timestamp by_mode since_last micros_since
  total-timestamps start last [] ordered = (omega arith, omega arith, omega arith)
  total-timestamps start last ((now, epoch, frame) ∷ rest) (after, fits, ordered) =
      let (low, high, forth) = total-timestamps start now rest ordered in
      (omega arith, omega arith, omega arith)
