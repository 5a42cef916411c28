-- ===== src/Cansend/Retry.antt =====
-- How often the programs try to open their pipe.
use win_can_utils.Base.{
  ℕ, zero, suc, ◌+◌, ◌≤◌, ◌≡◌, inl, inr, refl, leb, true, false, Option, none, some, arith,
}
use win_can_utils.Io.{IoResult, ok, err, IoResult-cases}
use win_can_utils.Cansend.{connect_pipe_retry}

-- The first pipe that one of `n` calls from the k-th on gives.
pub first_pipe : {P : Type 0} → (ℕ → IoResult P) → ℕ → ℕ → Option P
first_pipe opens k zero = none
first_pipe opens k (suc n) = elim (opens k) [
  | ok pipe ↦ some pipe
  | err kind ↦ first_pipe opens (k + 1) n
]

retry_from :
    {P : Type 0} (opens : ℕ → IoResult P) (max n k : ℕ)
    → k + suc n ≡ max
    → connect_pipe_retry opens max (suc n) k ≡ some (first_pipe opens k (suc n))
unfolding connect_pipe_retry first_pipe
retry_from opens max zero k h = elim (IoResult-cases (opens k)) [
  | inl (pipe, e) ↦ rw (e, connect_pipe_retry, first_pipe) refl
  | inr (kind, e) ↦
      let last : leb max (k + 1) ≡ true = ground arith in
      rw (e, last, connect_pipe_retry, first_pipe) refl
]
retry_from opens max (suc n) k h = elim (IoResult-cases (opens k)) [
  | inl (pipe, e) ↦ rw (e, connect_pipe_retry, first_pipe) refl
  | inr (kind, e) ↦
      let more : leb max (k + 1) ≡ false = ground arith in
      rw (e, more, connect_pipe_retry, first_pipe) (retry_from opens max n (k + 1) (omega arith))
]

-- With at least one attempt allowed, as many calls as attempts decide the result: the first pipe that
-- one of them gives, or none.
pub connect_pipe_retry-first_pipe :
    {P : Type 0} (opens : ℕ → IoResult P) (max : ℕ)
    → 1 ≤ max
    → connect_pipe_retry opens max max 0 ≡ some (first_pipe opens 0 max)
connect_pipe_retry-first_pipe opens zero h = absurd (omega arith)
connect_pipe_retry-first_pipe opens (suc n) h = retry_from opens (suc n) n 0 (omega arith)
