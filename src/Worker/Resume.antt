-- ===== src/Worker/Resume.antt =====
-- internal/worker/helpers.go: resumeOperation, and retryPayment with the three operations that it
-- resumes (retry_worker.go).
use ficmart_payment_gateway.Prelude.{String, Option, none, some, if◌then◌else◌}
use ficmart_payment_gateway.Failure.{Error, wrap, sentinel, invalid_state}
use ficmart_payment_gateway.Failure.Category.{is_retryable}
use ficmart_payment_gateway.Domain
use ficmart_payment_gateway.Domain.{Status, capturing, voiding, refunding, Payment, Changed}
use ficmart_payment_gateway.Bank
use ficmart_payment_gateway.Bank.{
  BankResponse, CaptureResponse, VoidResponse, RefundResponse, capture_call, void_call, refund_call,
}
use ficmart_payment_gateway.Exec.{
  Result, ok, err, panic, Exec, ◌>>=◌, raise, attempt, deref, lift, send,
}
use ficmart_payment_gateway.Postgres.Payments.{find_by_id}
use ficmart_payment_gateway.Services.Capture.{capture_request}
use ficmart_payment_gateway.Services.Void.{void_request}
use ficmart_payment_gateway.Services.Refund.{refund_request}
use ficmart_payment_gateway.Services.Transactions.{handle_bank_failure, finalize_payment}
use ficmart_payment_gateway.Worker.Backoff.{RetryWorker, schedule_retry}

-- HandleBankFailure's error; the payment is as Fail has left it.
unfoldable pub after_failure : RetryWorker → Error → Payment × Option Error → Exec Unit
unfolding schedule_retry is_retryable
after_failure w bank_err (p, some x) = if is_retryable (some x) then schedule_retry w p else raise x
after_failure w bank_err (p, none) = raise bank_err

-- applyResponse's result.
unfoldable pub after_response : String → BankResponse → Changed → Exec Unit
unfolding finalize_payment
after_response key response (p, some x) = raise x
after_response key response (p, none) = finalize_payment p key response

module _ {A : Type 0} (w : RetryWorker) (p : Payment) (key : String) (apply : A → Changed)
    (response : A → BankResponse) where
  unfoldable pub after_call : Result A → Exec Unit
  unfolding after_failure after_response handle_bank_failure
  after_call (ok a) = after_response key (response a) (apply a)
  after_call (err x) = handle_bank_failure p key x >>= after_failure w x
  after_call panic = lift panic

  -- `call_bank` gets the key when the operation is built.
  unfoldable pub resume_operation : Exec A → Exec Unit
  unfolding after_call
  resume_operation call_bank = attempt call_bank >>= after_call

unfoldable pub capture_again : Payment → String → Exec CaptureResponse
capture_again p key = do
  reference ← deref p.bank_auth_id
  let request = capture_request p reference
  send (capture_call request key) (λ b n. b.capture n request key)

unfoldable pub void_again : Payment → String → Exec VoidResponse
void_again p key = do
  reference ← deref p.bank_auth_id
  let request = void_request p reference
  send (void_call request key) (λ b n. b.void n request key)

unfoldable pub refund_again : Payment → String → Exec RefundResponse
refund_again p key = do
  reference ← deref p.bank_capture_id
  let request = refund_request p reference
  send (refund_call request key) (λ b n. b.refund n request key)

unfoldable pub resume_capture : RetryWorker → Payment → String → Exec Unit
unfolding resume_operation capture_again
resume_capture w p key =
    resume_operation w p key
      (λ (r : CaptureResponse). Domain.capture p r.status r.capture_id r.captured_at) Bank.capture
      (capture_again p key)

unfoldable pub resume_void : RetryWorker → Payment → String → Exec Unit
unfolding resume_operation void_again
resume_void w p key =
    resume_operation w p key (λ (r : VoidResponse). Domain.void p r.status r.void_id r.voided_at)
      Bank.void (void_again p key)

unfoldable pub resume_refund : RetryWorker → Payment → String → Exec Unit
unfolding resume_operation refund_again
resume_refund w p key =
    resume_operation w p key (λ (r : RefundResponse). Domain.refund p r.refund_id r.refunded_at)
      Bank.refund (refund_again p key)

pub record StuckPayment : Type 0 where
  pub id : String
  pub status : Status
  pub idempotency_key : String

-- The switch on the status that the query returned.
unfoldable pub resume_as : RetryWorker → Payment → String → Status → Exec Unit
unfolding resume_capture resume_void resume_refund
resume_as w p key capturing = resume_capture w p key
resume_as w p key voiding = resume_void w p key
resume_as w p key refunding = resume_refund w p key
resume_as w p key _ = raise (wrap "unexpected status" (sentinel invalid_state))

unfoldable pub retry_payment : RetryWorker → StuckPayment → Exec Unit
unfolding resume_as find_by_id
retry_payment w sp = do p ← find_by_id sp.id; resume_as w p sp.idempotency_key sp.status
