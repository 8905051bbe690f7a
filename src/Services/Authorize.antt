-- ===== src/Services/Authorize.antt =====
-- internal/application/services/authorize.go. The payment that the source returns beside an error
-- is left out: its callers look at the error alone.
pub mod Ensures
use ficmart_payment_gateway.Prelude.{String, Option, none, some, if◌then◌else◌}
use ficmart_payment_gateway.Failure.{
  Error, is_error, duplicate_idempotency_key, new_internal_error, new_invalid_input_error,
}
use ficmart_payment_gateway.Domain
use ficmart_payment_gateway.Domain.{Payment, NewResult, created, refused, new_payment}
use ficmart_payment_gateway.Command.{AuthorizeCommand}
use ficmart_payment_gateway.Bank.{
  AuthorizationRequest, AuthorizationResponse, authorize_call, authorization,
}
use ficmart_payment_gateway.Exec.{
  Result, ok, err, panic, Exec, ◌>>=◌, ◌>>◌, pure, raise, gets, ask, attempt, lift, send,
}
use ficmart_payment_gateway.Services.Idempotency.{
  compute_hash, check_idempotency, wait_for_completion,
}
use ficmart_payment_gateway.Services.Transactions.{acquire_idempotency_lock, bank_failed, finish}

abbrev pub authorization_request : AuthorizeCommand → AuthorizationRequest
authorization_request cmd = record {
  amount = cmd.amount;
  card_number = cmd.card_number;
  cvv = cmd.cvv;
  expiry_month = cmd.expiry_month;
  expiry_year = cmd.expiry_year;
}

unfoldable pub after_bank : Payment → String → Result AuthorizationResponse → Exec Payment
unfolding bank_failed finish
after_bank p key (ok r) =
    finish (Domain.authorize p r.authorization_id r.created_at r.expires_at) key (authorization r)
after_bank p key (err x) = bank_failed p key x
after_bank p key panic = lift panic

-- From acquireIdempotencyLock's error on.
unfoldable pub after_lock : AuthorizeCommand → Payment → String → Result Unit → Exec Payment
unfolding after_bank wait_for_completion
after_lock cmd p key (ok _) = do
  let request = authorization_request cmd
  r ← attempt (send (authorize_call request key) (λ b n. b.authorize n request key))
  after_bank p key r
after_lock cmd p key (err x) =
    if is_error x duplicate_idempotency_key
    then wait_for_completion key
    else raise (new_internal_error x)
after_lock cmd p key panic = lift panic

unfoldable pub with_payment : AuthorizeCommand → String → String → NewResult → Exec Payment
unfolding after_lock acquire_idempotency_lock
with_payment cmd key request_hash (refused x) = raise (new_invalid_input_error x)
with_payment cmd key request_hash (created p) = do
  r ← attempt (acquire_idempotency_lock p key request_hash)
  after_lock cmd p key r

unfoldable pub after_check : AuthorizeCommand → String → String → Option Payment → Exec Payment
unfolding with_payment new_payment
after_check cmd key request_hash (some p) = pure p
after_check cmd key request_hash none = do
  id ← ask (λ e n. e.new_uuid n)
  now ← ask (λ e n. e.now n)
  with_payment cmd key request_hash
      (new_payment now id cmd.order_id cmd.customer_id cmd.amount cmd.currency)

unfoldable pub authorize : AuthorizeCommand → String → Exec Payment
unfolding after_check check_idempotency compute_hash
authorize cmd key = do
  text ← gets (λ e db. e.format_command cmd)
  request_hash ← compute_hash text
  cached ← check_idempotency key request_hash
  after_check cmd key request_hash cached
