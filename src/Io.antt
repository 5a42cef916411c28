-- ===== src/Io.antt =====
-- `std::io::Result` with the error kinds that the code makes or tests. Messages are left out.
use win_can_utils.Base.{◌≡◌, refl, ◌⊎◌, inl, inr, Bool, true, false}

pub data ErrorKind : Type 0 where
  would_block broken_pipe not_connected not_found interrupted : ErrorKind
  other invalid_input invalid_data timed_out unexpected_eof : ErrorKind

pub data IoResult {ℓ} (A : Type ℓ) : Type ℓ where
  ok : A → IoResult A
  err : ErrorKind → IoResult A

infixl 5 ◌>>=◌
abbrev pub ◌>>=◌ {ℓ κ} : {A : Type ℓ} {B : Type κ} → IoResult A → (A → IoResult B) → IoResult B
result >>= next = elim result [ ok done ↦ next done | err kind ↦ err kind ]

abbrev pub is_ok {ℓ} : {A : Type ℓ} → IoResult A → Bool
is_ok (ok _) = true
is_ok (err _) = false

pub IoResult-cases {ℓ} :
    {A : Type ℓ} (r : IoResult A) → ((a : A) × (r ≡ ok a)) ⊎ ((kind : ErrorKind) × (r ≡ err kind))
IoResult-cases (ok a) = inl (a, refl)
IoResult-cases (err kind) = inr (kind, refl)
