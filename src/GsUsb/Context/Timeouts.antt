-- ===== src/GsUsb/Context/Timeouts.antt =====
-- Timeouts in whole milliseconds, of which 0 means to wait without end.
use win_can_utils.Base.{ℕ, ◌^◌, ◌<◌, ◌≡◌, arith}
use win_can_utils.GsUsb.Context.{duration_to_timeout}

-- Only a duration of zero waits without end.
duration_to_timeout-zero : (nanos : ℕ) → duration_to_timeout nanos ≡ 0 → nanos ≡ 0
unfolding duration_to_timeout
duration_to_timeout-zero nanos h = ground arith

-- The timeout fits 32 bits.
duration_to_timeout-lt : (nanos : ℕ) → duration_to_timeout nanos < 2 ^ 32
unfolding duration_to_timeout
duration_to_timeout-lt nanos = ground arith
