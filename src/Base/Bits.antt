-- ===== src/Base/Bits.antt =====
-- `&` and `|` on unsigned words as arithmetic, at every width.
use Prim.Native.Nat.{digits, bitwise, bit_and-bitwise, bit_or-bitwise}
use native.Mathlib.Nat.{pow-suc, one-le-pow}
use win_can_utils.Base.{
  ℕ, zero, suc, ◌+◌, ◌-◌, ◌*◌, ◌/◌, ◌%◌, ◌^◌, ◌≤◌, ◌<◌, min, max, bit_and, bit_or, ◌≡◌, refl, sym,
  ap, ◌∙◌, arith,
}

-- The library's recursion on binary digits, freed of its fuel.
module _ (base : ℕ → ℕ) (digit : ℕ → ℕ → ℕ) where
  no_digits : (fuel b : ℕ) → digits base digit fuel zero b ≡ base b
  no_digits zero b = refl
  no_digits (suc fuel) b = refl

  -- Any fuel from the number itself on gives the same digits.
  digits_enough :
      (fuel other a b : ℕ)
      → a ≤ fuel
      → a ≤ other
      → digits base digit fuel a b ≡ digits base digit other a b
  digits_enough fuel other zero b e o = no_digits fuel b ∙ sym (no_digits other b)
  digits_enough zero other (suc a) b e o = absurd (omega arith)
  digits_enough (suc fuel) zero (suc a) b e o = absurd (omega arith)
  digits_enough (suc fuel) (suc other) (suc a) b e o =
      let half = digits_enough fuel other (suc a / 2) (b / 2) (omega arith) (omega arith) in
      ap (λ (t : ℕ). t * 2 + digit (suc a % 2) (b % 2)) half

  digits_halve :
      (a b : ℕ)
      → bitwise base digit (suc a) b
        ≡ bitwise base digit (suc a / 2) (b / 2) * 2 + digit (suc a % 2) (b % 2)
  digits_halve a b =
      ap (λ (t : ℕ). t * 2 + digit (suc a % 2) (b % 2))
        (digits_enough a (suc a / 2) (suc a / 2) (b / 2) (omega arith) (omega arith))

pub and_step : (a b : ℕ) → bit_and a b ≡ bit_and (a / 2) (b / 2) * 2 + min (a % 2) (b % 2)
and_step zero b = simp bit_and-bitwise (omega arith)
and_step (suc a) b = simp bit_and-bitwise (digits_halve (λ _. 0) min a b)

pub or_step : (a b : ℕ) → bit_or a b ≡ bit_or (a / 2) (b / 2) * 2 + max (a % 2) (b % 2)
or_step zero b = simp bit_or-bitwise (omega arith)
or_step (suc a) b = simp bit_or-bitwise (digits_halve (λ y. y) max a b)

double_pow : (q k : ℕ) → q * 2 ^ suc k ≡ 2 * (q * 2 ^ k)
double_pow q k = omega (arith, ap (λ (t : ℕ). q * t) (pow-suc 2 k))

zero-and : (b : ℕ) → bit_and 0 b ≡ 0
zero-and b = bit_and-bitwise 0 b

zero-or : (b : ℕ) → bit_or 0 b ≡ b
zero-or b = bit_or-bitwise 0 b

-- Words cut at bit `k`: both parts are taken by themselves.
pub and_fields :
    (k q s r t : ℕ)
    → r < 2 ^ k
    → t < 2 ^ k
    → bit_and (q * 2 ^ k + r) (s * 2 ^ k + t) ≡ bit_and q s * 2 ^ k + bit_and r t
and_fields zero q s zero zero hr ht = ground (arith, zero-and 0)
and_fields zero q s (suc r) t hr ht = absurd (omega arith)
and_fields zero q s zero (suc t) hr ht = absurd (omega arith)
and_fields (suc k) q s r t hr ht = ground (
  arith,
  pow-suc 2 k,
  and_step (q * 2 ^ suc k + r) (s * 2 ^ suc k + t),
  and_step r t,
  double_pow q k,
  double_pow s k,
  double_pow (bit_and q s) k,
  and_fields k q s (r / 2) (t / 2) (omega (arith, pow-suc 2 k)) (omega (arith, pow-suc 2 k)),
)

pub or_fields :
    (k q s r t : ℕ)
    → r < 2 ^ k
    → t < 2 ^ k
    → bit_or (q * 2 ^ k + r) (s * 2 ^ k + t) ≡ bit_or q s * 2 ^ k + bit_or r t
or_fields zero q s zero zero hr ht = ground (arith, zero-or 0)
or_fields zero q s (suc r) t hr ht = absurd (omega arith)
or_fields zero q s zero (suc t) hr ht = absurd (omega arith)
or_fields (suc k) q s r t hr ht = ground (
  arith,
  pow-suc 2 k,
  or_step (q * 2 ^ suc k + r) (s * 2 ^ suc k + t),
  or_step r t,
  double_pow q k,
  double_pow s k,
  double_pow (bit_or q s) k,
  or_fields k q s (r / 2) (t / 2) (omega (arith, pow-suc 2 k)) (omega (arith, pow-suc 2 k)),
)

-- A word of `k` bits: nothing is lost under the mask of `k` ones, and zero is neutral for `|`.
and_ones : (k a : ℕ) → a < 2 ^ k → bit_and a (2 ^ k - 1) ≡ a
and_ones zero zero h = zero-and (2 ^ 0 - 1)
and_ones zero (suc a) h = absurd (omega arith)
and_ones (suc k) a h = ground (
  arith,
  pow-suc 2 k,
  one-le-pow k 2,
  and_step a (2 ^ suc k - 1),
  and_ones k (a / 2) (omega (arith, pow-suc 2 k)),
)

and-zero_below : (n a : ℕ) → a ≤ n → bit_and a 0 ≡ 0
and-zero_below n zero h = zero-and 0
and-zero_below zero (suc a) h = absurd (omega arith)
and-zero_below (suc n) (suc a) h =
    omega (arith, and_step (suc a) 0, and-zero_below n (suc a / 2) (omega arith))

pub and-zero : (a : ℕ) → bit_and a 0 ≡ 0
and-zero a = and-zero_below a a (omega arith)

or-zero_below : (n a : ℕ) → a ≤ n → bit_or a 0 ≡ a
or-zero_below n zero h = zero-or 0
or-zero_below zero (suc a) h = absurd (omega arith)
or-zero_below (suc n) (suc a) h =
    omega (arith, or_step (suc a) 0, or-zero_below n (suc a / 2) (omega arith))

pub or-zero : (a : ℕ) → bit_or a 0 ≡ a
or-zero a = or-zero_below a a (omega arith)

and-one : (a : ℕ) → bit_and a 1 ≡ a % 2
and-one a = omega (arith, and_step a 1, and-zero (a / 2))

-- `a & (2^k - 1)`
pub and_mask : (k a : ℕ) → bit_and a (2 ^ k - 1) ≡ a % 2 ^ k
and_mask k a = ground (
  arith,
  one-le-pow k 2,
  and_fields k (a / 2 ^ k) 0 (a % 2 ^ k) (2 ^ k - 1),
  and-zero (a / 2 ^ k),
  and_ones k (a % 2 ^ k),
)

-- `a & (1 << k)`
pub and_flag : (k a : ℕ) → bit_and a (2 ^ k) ≡ a / 2 ^ k % 2 * 2 ^ k
and_flag k a = ground (
  arith,
  one-le-pow k 2,
  and_fields k (a / 2 ^ k) 1 (a % 2 ^ k) 0,
  and-one (a / 2 ^ k),
  and-zero (a % 2 ^ k),
)

-- `(q << k) | r` where `r` has at most `k` bits
pub or_disjoint : (k q r : ℕ) → r < 2 ^ k → bit_or (q * 2 ^ k) r ≡ q * 2 ^ k + r
or_disjoint k q r h = ground (arith, one-le-pow k 2, or_fields k q 0 0 r, or-zero q, zero-or r)

-- `a & !(2^k - 1)` on words of `k + j` bits
pub and_high : (k j a : ℕ) → a / 2 ^ k < 2 ^ j → bit_and a ((2 ^ j - 1) * 2 ^ k) ≡ a / 2 ^ k * 2 ^ k
and_high k j a h = ground (
  arith,
  one-le-pow k 2,
  and_fields k (a / 2 ^ k) (2 ^ j - 1) (a % 2 ^ k) 0,
  and_ones j (a / 2 ^ k),
  and-zero (a % 2 ^ k),
)

-- `a | (1 << k)` above the bits of `a`
pub or_flag : (k a : ℕ) → a < 2 ^ k → bit_or a (2 ^ k) ≡ a + 2 ^ k
or_flag k a h = ground (arith, one-le-pow k 2, or_fields k 0 1 a 0, or-zero a, zero-or 1)
