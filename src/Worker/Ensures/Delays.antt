-- ===== src/Worker/Ensures/Delays.antt =====
-- How long the retry worker waits (internal/worker/helpers.go: calculateBackoff).
use native.Mathlib.Nat.{pow-le-pow_right}
use ficmart_payment_gateway.Prelude.{ℕ, ◌^◌, ◌*◌, ◌<◌, ◌≤◌, ◌≡◌, arith, if◌then◌else◌, leb}
use ficmart_payment_gateway.Prelude.Integer.{pos, min_ℤ, ◌*ℤ◌, to_int64, wrap_int64}
use ficmart_payment_gateway.Worker.Backoff.{RetryWorker, calculate_backoff, minute}

wrap_int64_small : (x : ℕ) → x < 9223372036854775808 → wrap_int64 x ≡ pos x
wrap_int64_small x h = ground arith

shift_small : (n : ℕ) → n ≤ 62 → 2 ^ n ≤ 4611686018427387904
shift_small n h = pow-le-pow_right (omega arith) h

-- The smaller of the two, in minutes.
abbrev pub capped : ℕ → ℕ → ℕ
capped n m = if leb n m then n else m

capped_minutes :
    (x m : ℕ)
    → m ≤ 153722867
    → to_int64 (min_ℤ (pos x) (pos m) *ℤ minute) ≡ pos (capped x m * 60000000000)
unfolding ◌*ℤ◌
capped_minutes x m h = ground arith

-- Up to 62 attempts, and with MaxBackoff from 0 to 153722867 minutes, the delay is 2 ^ attempts
-- minutes or MaxBackoff minutes, the smaller of the two: nothing overflows.
pub calculate_backoff_lem :
    (w : RetryWorker) (n m : ℕ)
    → n ≤ 62
    → m ≤ 153722867
    → w.max_backoff ≡ pos m
    → calculate_backoff w n ≡ pos (capped (2 ^ n) m * 60000000000)
unfolding calculate_backoff
calculate_backoff_lem w n m few small e =
    let bound = shift_small n few in
    rw (e, wrap_int64_small (2 ^ n) (omega (arith, bound))) (capped_minutes (2 ^ n) m small)
