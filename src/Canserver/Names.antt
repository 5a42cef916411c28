-- ===== src/Canserver/Names.antt =====
-- bin/canserver.rs, `next_auto_channel`: the first name whose pipe does not exist yet.
use win_can_utils.Base.{
  ℕ, zero, suc, ◌+◌, ◌<◌, ◌≡◌, ◌∙◌, ap, if◌then◌else◌, Bool, true, false, ◌++◌, Option, none, some,
  arith,
}
use win_can_utils.Base.Text.{Text, codes, format_decimal}

unfoldable pub candidate : Text → ℕ → Text
candidate base idx = base ++ format_decimal idx

unfoldable pub pipe_path : Text → Text
pipe_path name = codes "\\\\.\\pipe\\can_" ++ (name ++ codes "_in")

-- The loop from an index on; `none` if the fuel does not suffice. The index, an i32 in the code, has no
-- bound here: it would take 2 ^ 31 pipes to tell the two apart.
unfoldable pub auto_loop : (Text → Bool) → Text → ℕ → ℕ → Option Text
auto_loop exists base zero idx = none
auto_loop exists base (suc fuel) idx =
    let later = auto_loop exists base fuel (idx + 1) in
    if exists (pipe_path (candidate base idx)) then later else some (candidate base idx)

unfoldable pub next_auto_channel : (Text → Bool) → Text → ℕ → Option Text
unfolding auto_loop
next_auto_channel exists base fuel = auto_loop exists base fuel 0

module _ (exists : Text → Bool) (base : Text) where
  abbrev pub is_used : ℕ → Bool
  is_used idx = exists (pipe_path (candidate base idx))

  auto_loop-first :
      (k fuel idx : ℕ)
      → ((j : ℕ) → j < k → is_used (idx + j) ≡ true)
      → is_used (idx + k) ≡ false
      → k < fuel
      → auto_loop exists base fuel idx ≡ some (candidate base (idx + k))
  unfolding auto_loop
  auto_loop-first k zero idx used free room = absurd (omega arith)
  auto_loop-first zero (suc fuel) idx used free room =
      let same : idx ≡ idx + 0 = omega arith in
      let free' : is_used idx ≡ false = ap is_used same ∙ free in
      rw free' (ap (λ i. some (candidate base i)) same)
  auto_loop-first (suc k) (suc fuel) idx used free room =
      let taken : is_used idx ≡ true = ap is_used (omega arith) ∙ used 0 (omega arith) in
      let moved : (idx + 1) + k ≡ idx + suc k = omega arith in
      rw taken (
        auto_loop-first k fuel (idx + 1)
          (λ j low. ap is_used (omega arith) ∙ used (suc j) (omega arith)) (ap is_used moved ∙ free)
          (omega arith)
        ∙ ap (λ i. some (candidate base i)) moved)

  -- With more rounds than names that are taken, the first free name is found.
  pub next_auto_channel-first :
      (k fuel : ℕ)
      → ((j : ℕ) → j < k → is_used j ≡ true)
      → is_used k ≡ false
      → k < fuel
      → next_auto_channel exists base fuel ≡ some (candidate base k)
  unfolding next_auto_channel
  next_auto_channel-first k fuel used free room =
      let same : 0 + k ≡ k = omega arith in
      auto_loop-first k fuel 0 (λ j low. ap is_used (omega arith) ∙ used j low)
        (ap is_used same ∙ free) room
      ∙ ap (λ i. some (candidate base i)) same
