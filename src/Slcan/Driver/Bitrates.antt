-- ===== src/Slcan/Driver/Bitrates.antt =====
-- The bitrates of drivers/slcan.rs: the one that is set, and the one that is measured.
use mathlib.Core.List.{Memᴰ}
use mathlib.Core.List.Memᴰ.{head, tail, not-nil}
use win_can_utils.Base.{
  ℕ, suc, ◌+◌, ◌≤◌, ◌≡◌, ◌⊎◌, inl, inr, refl, ap, ◌∙◌, ltb, ltb→lt, ◌==◌, if◌then◌else◌, true,
  false, List, [], ◌∷◌, All, get_elem?, none, some, Bool-cases, arith,
}
use win_can_utils.Io.{IoResult, ok, err, invalid_input}
use win_can_utils.Slcan.Driver.{
  SlcanDriver, min_by_key, supported_bitrates, distance, closest_bitrate, set_bitrate, lookup,
  bitrate_commands,
}

module _ (key : ℕ → ℕ) (best rate : ℕ) (rates : List ℕ) where
  step_nearer :
      ltb (key rate) (key best) ≡ true
      → min_by_key key best (rate ∷ rates) ≡ min_by_key key rate rates
  unfolding min_by_key
  step_nearer e = ap (λ b. min_by_key key (if b then rate else best) rates) e

  step_far :
      ltb (key rate) (key best) ≡ false
      → min_by_key key best (rate ∷ rates) ≡ min_by_key key best rates
  unfolding min_by_key
  step_far e = ap (λ b. min_by_key key (if b then rate else best) rates) e

All-le :
    (key : ℕ → ℕ) (rates : List ℕ) {a b : ℕ}
    → a ≡ b
    → All (λ rate. b ≤ key rate) rates
    → All (λ rate. a ≤ key rate) rates
All-le key [] e all = tt
All-le key (rate ∷ rates) e (first, all) = (omega arith, All-le key rates e all)

min_by_key-le :
    (key : ℕ → ℕ) (best : ℕ) (rates : List ℕ)
    → (key (min_by_key key best rates) ≤ key best)
      × All (λ rate. key (min_by_key key best rates) ≤ key rate) rates
unfolding min_by_key
min_by_key-le key best [] = (omega arith, tt)
min_by_key-le key best (rate ∷ rates) = elim (Bool-cases (ltb (key rate) (key best))) [
  | inl nearer ↦
      let (front, all) = min_by_key-le key rate rates in
      let e = ap key (step_nearer key best rate rates nearer) in
      (omega (arith, ltb→lt _ _ nearer, e), (omega (arith, e), All-le key rates e all))
  | inr far ↦
      let (front, all) = min_by_key-le key best rates in
      let best_le : key best ≤ key rate = ground arith in
      let e = ap key (step_far key best rate rates far) in
      (omega (arith, e), (omega (arith, e), All-le key rates e all))
]

min_by_key-Mem :
    (key : ℕ → ℕ) (best : ℕ) (rates all : List ℕ)
    → Memᴰ best all
    → ((r : ℕ) → Memᴰ r rates → Memᴰ r all)
    → Memᴰ (min_by_key key best rates) all
unfolding min_by_key
min_by_key-Mem key best [] all here sub = here
min_by_key-Mem key best (rate ∷ rates) all here sub =
    elim (Bool-cases (ltb (key rate) (key best))) [
      | inl nearer ↦
          rw (step_nearer key best rate rates nearer)
            (min_by_key-Mem key rate rates all (sub rate (head refl)) (λ r m. sub r (tail m)))
      | inr far ↦
          rw (step_far key best rate rates far)
            (min_by_key-Mem key best rates all here (λ r m. sub r (tail m)))
    ]

-- A measured rate of at least 5000 gives a supported rate, and none of the others is nearer to it.
pub closest_bitrate_lem :
    (actual : ℕ)
    → 5000 ≤ actual
    → (r : ℕ) × (closest_bitrate actual ≡ ok r)
      × Memᴰ r supported_bitrates
      × All (λ rate. distance r actual ≤ distance rate actual) supported_bitrates
unfolding closest_bitrate
closest_bitrate_lem actual h =
    let large : ltb actual 5000 ≡ false = ground arith in
    let key : ℕ → ℕ = λ rate. distance rate actual in
    (
      min_by_key key 10_000 supported_bitrates,
      rw large refl,
      min_by_key-Mem key 10_000 supported_bitrates supported_bitrates (head refl) (λ r m. m),
      (min_by_key-le key 10_000 supported_bitrates).1,
    )

-- The command that selects the rate of a place in the list.
abbrev rate_command : ℕ → List ℕ
rate_command k = b'S' ∷ (b'0' + k) ∷ b'\r' ∷ []

commands_from : ℕ → List ℕ → List (ℕ × List ℕ)
commands_from k [] = []
commands_from k (rate ∷ rates) = (rate, rate_command k) ∷ commands_from (k + 1) rates

absent_from :
    {b rate : ℕ} {rates : List ℕ}
    → (rate == b) ≡ false
    → (Memᴰ b rates → ⊥)
    → Memᴰ b (rate ∷ rates)
    → ⊥
absent_from differs absent (head e) = absurd (ground arith)
absent_from differs absent (tail m) = absent m

lookup_found :
    (b k : ℕ) (rates : List ℕ)
    → ((j : ℕ) × (get_elem? rates j ≡ some b)
        × (lookup b (commands_from k rates) ≡ some (rate_command (k + j))))
      ⊎ ((Memᴰ b rates → ⊥) × (lookup b (commands_from k rates) ≡ none))
unfolding lookup commands_from
lookup_found b k [] = inr (not-nil, refl)
lookup_found b k (rate ∷ rates) = elim (Bool-cases (rate == b)) [
  | inl same ↦
      let e : rate ≡ b = ground arith in
      let place : k + 0 ≡ k = omega arith in inl (0, ap some e, rw (same, place) refl)
  | inr differs ↦ elim (lookup_found b (k + 1) rates) [
    | inl (j, at, found) ↦
        let place : k + suc j ≡ k + 1 + j = omega arith in
        inl (suc j, at, rw (differs, place, lookup) found)
    | inr (absent, missing) ↦ inr (absent_from differs absent, rw (differs, lookup) missing)
  ]
]

-- The rate of place `k` in the list of rates is selected by the command `S` and the digit `k`, and it
-- is kept as the configured rate, also if the write fails; with a rate that is not in the list, the
-- call fails, writes nothing and changes nothing.
pub set_bitrate_lem :
    (s : SlcanDriver) (b : ℕ) (written : IoResult {0} Unit)
    → ((k : ℕ) × (get_elem? supported_bitrates k ≡ some b)
        × (set_bitrate s b written
            ≡ (written, record s { configured_bitrate = some b }, b'S' ∷ (b'0' + k) ∷ b'\r' ∷ [])))
      ⊎ ((Memᴰ b supported_bitrates → ⊥) × (set_bitrate s b written ≡ (err invalid_input, s, [])))
unfolding set_bitrate commands_from
set_bitrate_lem s b written = elim (lookup_found b 0 supported_bitrates) [
  | inl (k, at, found) ↦
      let place : 0 + k ≡ k = omega arith in
      let e : lookup b bitrate_commands ≡ some (rate_command k) =
        found ∙ ap (λ n. some (rate_command n)) place in
      inl (k, at, rw (e, set_bitrate) refl)
  | inr (absent, missing) ↦
      let e : lookup b bitrate_commands ≡ none = missing in inr (absent, rw (e, set_bitrate) refl)
]
