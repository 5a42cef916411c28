-- ===== src/Base/Panics.antt =====
-- What a call of Rust code ends in: a value, or a panic (an index or a slice out of range).
use Prim.Native.Nat.{ℕ, zero, suc, ◌+◌, ◌-◌, ◌≤◌, ◌<◌}
use mathlib.Core.Path.{◌≡◌, refl, ◌∙◌}
use mathlib.Core.Logic.{◌⊎◌, inl, inr}
use mathlib.Core.Option.{Option, none, some}
use mathlib.Core.List.{List, [], ◌∷◌, ◌++◌}
use native.Mathlib.Omega.{arith}
use win_can_utils.Base.Lists.{
  length, take, drop, get_elem?, length-append, length-drop, take-append_le, drop-append_le,
  get_elem?-append_lt, take-length-append, drop-length-append,
}
use win_can_utils.Base.Tests.{leb, if◌then◌else◌}

pub data Outcome {ℓ} (A : Type ℓ) : Type ℓ where
  value : A → Outcome A
  panic : Outcome A

infixl 5 ◌>>=◌
abbrev pub ◌>>=◌ {ℓ κ} : {A : Type ℓ} {B : Type κ} → Outcome A → (A → Outcome B) → Outcome B
value a >>= f = f a
panic >>= f = panic

pub Outcome-cases {ℓ} : {A : Type ℓ} (o : Outcome A) → (o ≡ panic) ⊎ ((a : A) × (o ≡ value a))
Outcome-cases panic = inl refl
Outcome-cases (value a) = inr (a, refl)

-- `s[i]`
abbrev pub index {ℓ} : {A : Type ℓ} → List A → ℕ → Outcome A
index s i = elim (get_elem? s i) [ none ↦ panic | some x ↦ value x ]

-- `&s[start..stop]`
unfoldable pub slice : {A : Type 0} → List A → ℕ → ℕ → Outcome (List A)
slice s start stop =
    if leb start stop
    then if leb stop (length s) then value (take (stop - start) (drop start s)) else panic
    else panic

pub slice_in_range :
    {A : Type 0} (s : List A) (start stop : ℕ)
    → start ≤ stop
    → stop ≤ length s
    → slice s start stop ≡ value (take (stop - start) (drop start s))
unfolding slice
slice_in_range s start stop h k = ground arith

pub slice_out_of_range :
    {A : Type 0} (s : List A) (start stop : ℕ) → length s < stop → slice s start stop ≡ panic
unfolding slice
slice_out_of_range s start stop h = ground arith

pub index_in_range {ℓ} :
    {A : Type ℓ} (s : List A) (i : ℕ) → i < length s → (x : A) × (index s i ≡ value x)
index_in_range [] i h = absurd (omega arith)
index_in_range (x ∷ s) zero h = (x, refl)
index_in_range (x ∷ s) (suc i) h = index_in_range s i (omega arith)

-- Bytes that come behind do not change a read that was in range.
pub index-append {ℓ} :
    {A : Type ℓ} (s more : List A) (i : ℕ) → i < length s → index (s ++ more) i ≡ index s i
index-append s more i h = rw (get_elem?-append_lt i s more h, index)

pub slice-append :
    {A : Type 0} (s more : List A) (start stop : ℕ)
    → start ≤ stop
    → stop ≤ length s
    → slice (s ++ more) start stop ≡ slice s start stop
slice-append s more start stop h k = rw (
  slice_in_range s start stop h k,
  slice_in_range (s ++ more) start stop h (omega (arith, length-append s more)),
  drop-append_le start s more (omega arith),
  take-append_le (stop - start) (drop start s) more (omega (arith, length-drop start s)),
)

slice_bounds :
    {A : Type 0} (s : List A) (start stop : ℕ) {v : List A}
    → slice s start stop ≡ value v
    → (start ≤ stop) × (stop ≤ length s)
unfolding slice
slice_bounds s start stop h = (ground arith, ground arith)

-- A slice that was there is there in a longer list.
pub slice-append_value :
    {A : Type 0} (s more : List A) (start stop : ℕ) {v : List A}
    → slice s start stop ≡ value v
    → slice (s ++ more) start stop ≡ value v
slice-append_value s more start stop h =
    let (order, fits) = slice_bounds s start stop h in slice-append s more start stop order fits ∙ h

-- The part that stands between two others.
pub slice-middle :
    {A : Type 0} (pre x rest : List A)
    → slice (pre ++ (x ++ rest)) (length pre) (length pre + length x) ≡ value x
slice-middle pre x rest =
    let size : length pre + length x - length pre ≡ length x = omega arith in
    rw (
      slice_in_range (pre ++ (x ++ rest)) (length pre) (length pre + length x) (omega arith)
          (omega (arith, length-append pre (x ++ rest), length-append x rest)),
      drop-length-append pre (x ++ rest),
      size,
      take-length-append x rest,
    )

pub index-middle {ℓ} :
    {A : Type ℓ} (pre : List A) (x : A) (rest : List A)
    → index (pre ++ (x ∷ rest)) (length pre) ≡ value x
index-middle [] x rest = refl
index-middle (p ∷ pre) x rest = index-middle pre x rest

-- A call that does not panic.
abbrev pub Returns : {A : Type 0} → Outcome A → Type 0
Returns {A} o = (a : A) × (o ≡ value a)

pub Returns-bind :
    {A B : Type 0} (o : Outcome A) (f : A → Outcome B)
    → Returns o
    → ((a : A) → Returns (f a))
    → Returns (o >>= f)
Returns-bind o f (a, e) next = let (b, e') = next a in (b, rw e e')

pub Returns-option :
    {A B : Type 0} (o : Option A) (b : B) (f : A → Outcome B)
    → ((a : A) → Returns (f a))
    → Returns (elim o [ none ↦ value b | some a ↦ f a ])
Returns-option none b f next = (b, refl)
Returns-option (some a) b f next = next a
