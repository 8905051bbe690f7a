-- ===== src/Services/Idempotency.antt =====
-- The idempotency check and the wait loop of internal/application/services/helpers.go.
pub mod Waiting
pub mod Refusing
use ficmart_payment_gateway.Prelude.{
  ℕ, zero, suc, ◌*◌, String, Bool, true, false, Option, none, some, str_eq, if◌then◌else◌,
}
use ficmart_payment_gateway.Prelude.Integer.{pos, ltb_ℤ, ◌-ℤ◌}
use ficmart_payment_gateway.Failure.{
  Error, new_internal_error, new_idempotency_mismatch_error, new_timeout_error,
  new_request_processing_error,
}
use ficmart_payment_gateway.Domain.{Payment, Time}
use ficmart_payment_gateway.Store.{IdempotencyKey}
use ficmart_payment_gateway.Exec.{
  Result, ok, err, panic, Exec, ◌>>=◌, ◌>>◌, pure, raise, gets, ask, or_fail, attempt, lift,
}
use ficmart_payment_gateway.Postgres.Payments.{find_by_id}
use ficmart_payment_gateway.Postgres.Keys.{find_by_key}

-- ComputeHash of a text: %+v prints it as it is.
unfoldable pub compute_hash : String → Exec String
compute_hash text = gets (λ e db. e.sha256_hex text)

abbrev pub five_minutes : Time
five_minutes = pos 300000000000

-- The case of the ticker, from the key's lock on; `again` is the next round of the loop.
unfoldable pub look_at_lock : Exec Payment → IdempotencyKey → Option Time → Exec Payment
look_at_lock again k none = or_fail new_internal_error (find_by_id k.payment_id)
look_at_lock again k (some at) = do
  now ← ask (λ e n. e.now n)
  if ltb_ℤ five_minutes (now -ℤ at) then raise new_request_processing_error else again

-- FindByKey's result. A key that is not there is nil, and `key.LockedAt` panics.
unfoldable pub look_at_key : Exec Payment → Result (Option IdempotencyKey) → Exec Payment
unfolding look_at_lock
look_at_key again (ok none) = lift panic
look_at_key again (ok (some k)) = look_at_lock again k k.locked_at
look_at_key again (err x) = again
look_at_key again panic = lift panic

unfoldable pub poll : String → Exec Payment → Exec Payment
unfolding look_at_key
poll key again = do
  done ← ask (λ e n. e.is_done n)
  if done then raise new_timeout_error else do r ← attempt (find_by_key key); look_at_key again r

-- The loop, by the ticks that are left before the timer fires.
unfoldable pub wait_loop : String → ℕ → Exec Payment
unfolding poll
wait_loop key zero = raise new_timeout_error
wait_loop key (suc n) = poll key (wait_loop key n)

unfoldable pub wait_for_completion : String → Exec Payment
unfolding wait_loop
wait_for_completion key = do ticks ← gets (λ e db. e.ticks); wait_loop key ticks

-- checkIdempotency from the row on. The cached payment is `some`; `none` is isCached = false.
unfoldable pub check_lock : String → Option Time → Exec (Option Payment)
unfolding wait_for_completion
check_lock key none = pure none
check_lock key (some at) = do
  p ← or_fail new_internal_error (wait_for_completion key)
  pure (some p)

unfoldable pub check_row : String → String → Option IdempotencyKey → Exec (Option Payment)
unfolding check_lock
check_row key request_hash none = pure none
check_row key request_hash (some k) =
    if str_eq k.request_hash request_hash
    then check_lock key k.locked_at
    else raise new_idempotency_mismatch_error

unfoldable pub check_idempotency : String → String → Exec (Option Payment)
unfolding check_row
check_idempotency key request_hash = do
  existing ← or_fail new_internal_error (find_by_key key)
  check_row key request_hash existing
