-- ===== src/Candump/Stamps/Tests.antt =====
-- Timestamps of three prints.
use win_can_utils.Base.{◌+◌, ◌-◌, ◌*◌, ◌≤◌, ◌≡◌, refl, true, false, [], ◌∷◌, some, arith}
use win_can_utils.Can.Plain.{plain_can, PlainFrame, data_frame}
use win_can_utils.Candump.Stamps.{
  from_char, delta, zero_based, get_timestamp, timestamps, by_mode, since_last, micros_since,
  or_zero, new_ctx,
}
use win_can_utils.Candump.Stamps.Deltas.{total, Prints, deltas_from, total-timestamps}

abbrev sample : PlainFrame
sample = data_frame 0x123 [] false

abbrev prints : Prints plain_can
prints = (6_500, 0, sample) ∷ (9_000, 0, sample) ∷ (9_000, 0, sample) ∷ []

total-timestamps_example :
    (total (timestamps plain_can (deltas_from plain_can 0 5_000) prints) * 1000 ≤ 9_000 - 5_000)
    × (9_000 - 5_000
        ≤ total (timestamps plain_can (deltas_from plain_can 0 5_000) prints) * 1000 + 3 * 999)
    × (5_000 ≤ 9_000)
total-timestamps_example =
    total-timestamps plain_can 0 5_000 prints
      (omega arith, omega arith, (omega arith, omega arith, (omega arith, omega arith, tt)))

differences :
    timestamps plain_can (new_ctx delta false 5_000) prints ≡ some 0 ∷ some 2 ∷ some 0 ∷ []
unfolding timestamps get_timestamp by_mode since_last micros_since
differences = refl

hardware_time :
    timestamps plain_can (new_ctx zero_based true 5_000) prints ≡ some 0 ∷ some 0 ∷ some 0 ∷ []
unfolding timestamps get_timestamp or_zero
hardware_time = refl

zero_letter : from_char b'z' ≡ some zero_based
unfolding from_char
zero_letter = refl
