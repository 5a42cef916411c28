-- ===== src/GsUsb/Frames/Bounds.antt =====
-- How many bytes a host frame takes, and that this lies within what has arrived.
use win_can_utils.Base.{
  ℕ, ◌+◌, ◌-◌, ◌*◌, ◌/◌, ◌≤◌, ◌<◌, ◌≡◌, refl, ◌⊎◌, ◌==◌, ==_iff, every_below, every_below_lem, Bool,
  true, some, arith,
}
use native.Mathlib.Nat.{div-add-mod, mod-lt}
use win_can_utils.GsUsb.Frames.{
  dlc_to_len, roundup8, align_up, aligned_payload, base_at, stamped_at, padded_at, Extent,
  extent_at,
}

pub dlc_to_len-le : (dlc : ℕ) → dlc_to_len dlc ≤ 64
unfolding dlc_to_len
dlc_to_len-le dlc = ground arith

roundup8_table : every_below (λ x. roundup8 x == (x + 7) / 8 * 8) 65 ≡ true
unfolding every_below roundup8
roundup8_table = refl

pub roundup8_lem : (x : ℕ) → x ≤ 64 → roundup8 x ≡ (x + 7) / 8 * 8
roundup8_lem x h = (==_iff _ _).0 (every_below_lem _ 65 roundup8_table (omega arith))

pub aligned_payload_bounds :
    (n : ℕ) → n ≤ 64 → (n ≤ aligned_payload n) × (8 ≤ aligned_payload n) × (aligned_payload n ≤ 64)
unfolding aligned_payload
aligned_payload_bounds n h = ground (arith, roundup8_lem n)

-- `align_up x m` is the least multiple of `m` that is not below `x`.
pub le-align_up : (x m : ℕ) → x ≤ align_up x m
unfolding align_up
le-align_up x m = ground (arith, div-add-mod (x + (m - 1)) m, λ (p : 0 < m). mod-lt (x + (m - 1)) p)

-- Some length is checked against what has arrived.
abbrev pub IsChecked : Bool → ℕ → Bool → Type 0
IsChecked timestamp_enabled out_wmax pad_pkts_enabled =
    (timestamp_enabled ≡ true) ⊎ ((pad_pkts_enabled ≡ true) × (0 < out_wmax))

base_at_lem : (n have : ℕ) {b : ℕ} → base_at n have ≡ some b → b ≡ 12 + aligned_payload n
unfolding base_at aligned_payload
base_at_lem n have h = ground arith

module _ (n have : ℕ) (ts : Bool) (wmax : ℕ) (pad : Bool) {e : Extent} where
  pub extent_at_lem :
      extent_at n have ts wmax pad ≡ some e
      → (e.ts_off ≡ 12 + aligned_payload n)
        × (e.ts_off ≤ e.consumed)
        × (ts ≡ true → e.ts_off + 4 ≤ e.consumed)
        × (IsChecked ts wmax pad → e.consumed ≤ have)
  unfolding extent_at base_at stamped_at padded_at
  extent_at_lem h = (
    ground (arith),
    ground (arith, grown, grown_stamped),
    ground (arith, grown, grown_stamped),
    ground (arith, grown, grown_stamped),
  )
    where
      grown : 12 + aligned_payload n ≤ align_up (12 + aligned_payload n) wmax
      grown = le-align_up (12 + aligned_payload n) wmax

      grown_stamped : 12 + aligned_payload n + 4 ≤ align_up (12 + aligned_payload n + 4) wmax
      grown_stamped = le-align_up (12 + aligned_payload n + 4) wmax

  -- With more bytes the answer stays.
  pub extent_at-more :
      (k : ℕ) → extent_at n have ts wmax pad ≡ some e → extent_at n (have + k) ts wmax pad ≡ some e
  unfolding extent_at base_at stamped_at padded_at
  extent_at-more k h = ground arith
