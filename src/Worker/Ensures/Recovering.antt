-- ===== src/Worker/Ensures/Recovering.antt =====
-- A payment that a crash has left between the two transactions of its service is brought to its end
-- by the retry worker, where no statement fails and nobody else commits.
use ficmart_payment_gateway.Prelude.{ℕ, String, ◌≡◌, refl, false, true, none, some, List, ◌∷◌, ap}
use ficmart_payment_gateway.Prelude.Text.{equal_fold}
use ficmart_payment_gateway.Domain.{Payment, capturing, voiding, refunding}
use ficmart_payment_gateway.Bank
use ficmart_payment_gateway.Bank.{BankCall, CaptureResponse, VoidResponse, RefundResponse}
use ficmart_payment_gateway.Bank.Retry.{reply}
use ficmart_payment_gateway.Exec.{Env}
use ficmart_payment_gateway.Exec.Triple.{Triple, Triple-deref}
use ficmart_payment_gateway.Postgres.Payments.{on_pool, find_by_id}
use ficmart_payment_gateway.Services.Capture.{capture_request}
use ficmart_payment_gateway.Services.Void.{void_request}
use ficmart_payment_gateway.Services.Refund.{refund_request}
use ficmart_payment_gateway.Services.Quiet.{
  IsQuiet, Never, Triple-then, Triple-attempted, Triple-answered, quiet_query_row,
}
use ficmart_payment_gateway.Services.Quiet.Moving.{Stage, finalize_quiet}
use ficmart_payment_gateway.Services.Quiet.Entity.{
  marked, captured_as, voided_as, refunded_as, capture_of, void_of, refund_of,
}
use ficmart_payment_gateway.Worker.Backoff.{RetryWorker}
use ficmart_payment_gateway.Worker.Resume.{
  after_call, after_response, resume_operation, capture_again, void_again, refund_again,
  resume_capture, resume_void, resume_refund, resume_as, retry_payment,
}

module _ {e : Env} (quiet : IsQuiet e) (w : RetryWorker) (id key hash : String) (p : Payment)
    (cs : List BankCall) where
  module _ (reference payload : String) (r : CaptureResponse) (stored_id : p.id ≡ id)
      (referenced : p.bank_auth_id ≡ some reference)
      (unexpired : equal_fold r.status "authorization_expired" ≡ false)
      (answers : (n : ℕ) → e.bank.capture n (capture_request p reference) key ≡ reply r)
      (text : e.marshal_response (Bank.capture r) ≡ reply payload) where
    capture_again_quiet :
        Triple e
          (Stage id key hash (marked p capturing) cs true none)
          (capture_again (marked p capturing) key)
          (λ a d s.
            Stage id key hash
              (marked p capturing)
              (Bank.capture_call (capture_request p reference) key ∷ cs)
              true
              none
              d
              s
            × (a ≡ r))
          Never
    unfolding capture_again
    capture_again_quiet =
        Triple-then {R = Stage id key hash (marked p capturing) cs true none} _ _ reference
          (Triple-deref _ (λ d s h. (reference, referenced, (h, refl))))
          (Triple-answered quiet _ _ r answers (λ d s h. record {
            found = h.found;
            calls = ap (λ x. Bank.capture_call (capture_request p reference) key ∷ x) h.calls;
            keyed = h.keyed;
          }))

    -- Where no statement fails and nobody else commits: for a payment that a crash has left stored
    -- as capturing under its locked key, if the bank answers the capture at any step with a
    -- response that is not authorization_expired and the response can be printed, retryPayment
    -- returns without an error, the payment is stored as captured, one call has been sent, and the
    -- key is unlocked with the stored response.
    pub capture_recovered :
        Triple e
          (Stage id key hash (marked p capturing) cs true none)
          (retry_payment w (record { id = id; status = capturing; idempotency_key = key }))
          (λ _.
            Stage id key hash
              (captured_as p r)
              (Bank.capture_call (capture_request p reference) key ∷ cs)
              false
              (some payload))
          Never
    unfolding retry_payment resume_as resume_capture resume_operation after_call after_response
        find_by_id
    capture_recovered =
        Triple-then _ _ (marked p capturing) (quiet_query_row quiet on_pool _ _ (λ d s h. h.found))
          (Triple-attempted _ _ r capture_again_quiet (
            rw (capture_of p r unexpired) (
              finalize_quiet quiet id key hash _ (marked p capturing) (captured_as p r)
                (Bank.capture r) payload stored_id refl text)))

  module _ (reference payload : String) (r : VoidResponse) (stored_id : p.id ≡ id)
      (referenced : p.bank_auth_id ≡ some reference)
      (unexpired : equal_fold r.status "authorization_expired" ≡ false)
      (answers : (n : ℕ) → e.bank.void n (void_request p reference) key ≡ reply r)
      (text : e.marshal_response (Bank.void r) ≡ reply payload) where
    void_again_quiet :
        Triple e
          (Stage id key hash (marked p voiding) cs true none)
          (void_again (marked p voiding) key)
          (λ a d s.
            Stage id key hash
              (marked p voiding)
              (Bank.void_call (void_request p reference) key ∷ cs)
              true
              none
              d
              s
            × (a ≡ r))
          Never
    unfolding void_again
    void_again_quiet =
        Triple-then {R = Stage id key hash (marked p voiding) cs true none} _ _ reference
          (Triple-deref _ (λ d s h. (reference, referenced, (h, refl))))
          (Triple-answered quiet _ _ r answers (λ d s h. record {
            found = h.found;
            calls = ap (λ x. Bank.void_call (void_request p reference) key ∷ x) h.calls;
            keyed = h.keyed;
          }))

    pub void_recovered :
        Triple e
          (Stage id key hash (marked p voiding) cs true none)
          (retry_payment w (record { id = id; status = voiding; idempotency_key = key }))
          (λ _.
            Stage id key hash
              (voided_as p r)
              (Bank.void_call (void_request p reference) key ∷ cs)
              false
              (some payload))
          Never
    unfolding retry_payment resume_as resume_void resume_operation after_call after_response
        find_by_id
    void_recovered =
        Triple-then _ _ (marked p voiding) (quiet_query_row quiet on_pool _ _ (λ d s h. h.found)) (
          Triple-attempted _ _ r void_again_quiet (
            rw (void_of p r unexpired) (
              finalize_quiet quiet id key hash _ (marked p voiding) (voided_as p r) (Bank.void r)
                payload stored_id refl text)))

  module _ (reference payload : String) (r : RefundResponse) (stored_id : p.id ≡ id)
      (referenced : p.bank_capture_id ≡ some reference)
      (answers : (n : ℕ) → e.bank.refund n (refund_request p reference) key ≡ reply r)
      (text : e.marshal_response (Bank.refund r) ≡ reply payload) where
    refund_again_quiet :
        Triple e
          (Stage id key hash (marked p refunding) cs true none)
          (refund_again (marked p refunding) key)
          (λ a d s.
            Stage id key hash
              (marked p refunding)
              (Bank.refund_call (refund_request p reference) key ∷ cs)
              true
              none
              d
              s
            × (a ≡ r))
          Never
    unfolding refund_again
    refund_again_quiet =
        Triple-then {R = Stage id key hash (marked p refunding) cs true none} _ _ reference
          (Triple-deref _ (λ d s h. (reference, referenced, (h, refl))))
          (Triple-answered quiet _ _ r answers (λ d s h. record {
            found = h.found;
            calls = ap (λ x. Bank.refund_call (refund_request p reference) key ∷ x) h.calls;
            keyed = h.keyed;
          }))

    pub refund_recovered :
        Triple e
          (Stage id key hash (marked p refunding) cs true none)
          (retry_payment w (record { id = id; status = refunding; idempotency_key = key }))
          (λ _.
            Stage id key hash
              (refunded_as p r)
              (Bank.refund_call (refund_request p reference) key ∷ cs)
              false
              (some payload))
          Never
    unfolding retry_payment resume_as resume_refund resume_operation after_call after_response
        find_by_id
    refund_recovered =
        Triple-then _ _ (marked p refunding) (quiet_query_row quiet on_pool _ _ (λ d s h. h.found))
          (Triple-attempted _ _ r refund_again_quiet (
            rw (refund_of p r) (
              finalize_quiet quiet id key hash _ (marked p refunding) (refunded_as p r)
                (Bank.refund r) payload stored_id refl text)))
