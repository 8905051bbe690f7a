-- ===== src/Services/Capture.antt =====
-- internal/application/services/capture.go. The payment that the source returns beside an error is
-- left out: its callers look at the error alone.
pub mod Ensures
use ficmart_payment_gateway.Prelude.{String, Option, none, some, if◌then◌else◌}
use ficmart_payment_gateway.Failure.{Error, is_error, duplicate_idempotency_key}
use ficmart_payment_gateway.Domain
use ficmart_payment_gateway.Domain.{Payment, mark_capturing}
use ficmart_payment_gateway.Bank
use ficmart_payment_gateway.Bank.{CaptureRequest, CaptureResponse, capture_call}
use ficmart_payment_gateway.Exec.{
  Result, ok, err, panic, Exec, ◌>>=◌, ◌>>◌, pure, raise, attempt, deref, lift, send,
}
use ficmart_payment_gateway.Services.Idempotency.{
  compute_hash, check_idempotency, wait_for_completion,
}
use ficmart_payment_gateway.Services.Transactions.{mark_payment_transitioning, bank_failed, finish}

abbrev pub capture_request : Payment → String → CaptureRequest
capture_request p reference = record { amount = p.amount_cents; authorization_id = reference }

unfoldable pub after_bank : Payment → String → Result CaptureResponse → Exec Payment
unfolding bank_failed finish
after_bank p key (ok r) =
    finish (Domain.capture p r.status r.capture_id r.captured_at) key (Bank.capture r)
after_bank p key (err x) = bank_failed p key x
after_bank p key panic = lift panic

-- The call of the bank for a payment that is marked.
unfoldable pub call_bank : Payment → String → Exec Payment
unfolding after_bank
call_bank p key = do
  reference ← deref p.bank_auth_id
  let request = capture_request p reference
  r ← attempt (send (capture_call request key) (λ b n. b.capture n request key))
  after_bank p key r

-- From markPaymentTransitioning's error on.
unfoldable pub after_mark : String → Result Payment → Exec Payment
unfolding call_bank wait_for_completion
after_mark key (ok p) = call_bank p key
after_mark key (err x) =
    if is_error x duplicate_idempotency_key then wait_for_completion key else raise x
after_mark key panic = lift panic

unfoldable pub after_check : String → String → String → Option Payment → Exec Payment
unfolding after_mark mark_payment_transitioning mark_capturing
after_check payment_id key request_hash (some p) = pure p
after_check payment_id key request_hash none = do
  r ← attempt (mark_payment_transitioning payment_id key request_hash mark_capturing)
  after_mark key r

unfoldable pub capture : String → String → Exec Payment
unfolding after_check check_idempotency compute_hash
capture payment_id key = do
  request_hash ← compute_hash payment_id
  cached ← check_idempotency key request_hash
  after_check payment_id key request_hash cached
