-- ===== src/Services/Quiet/Completing.antt =====
-- Capture, Void and Refund from their beginning to their result, where no statement fails and nobody
-- else commits.
use ficmart_payment_gateway.Prelude.{
  ℕ, String, ◌≡◌, refl, ◌∙◌, true, false, none, some, List, ◌∷◌, ap,
}
use ficmart_payment_gateway.Prelude.Text.{equal_fold}
use ficmart_payment_gateway.Domain.{
  Payment, authorized, capturing, captured, voiding, refunding, mark_capturing, mark_voiding,
  mark_refunding,
}
use ficmart_payment_gateway.Bank
use ficmart_payment_gateway.Bank.{BankCall, CaptureResponse, VoidResponse, RefundResponse}
use ficmart_payment_gateway.Bank.Retry.{reply}
use ficmart_payment_gateway.Exec.{Env}
use ficmart_payment_gateway.Exec.Triple.{
  Triple, Triple-gets, Triple-or_fail, Triple-deref, Triple-weaken, Triple-pure,
}
use ficmart_payment_gateway.Services.Idempotency.{compute_hash, check_idempotency, check_row}
use ficmart_payment_gateway.Services.Capture
use ficmart_payment_gateway.Services.Void
use ficmart_payment_gateway.Services.Refund
use ficmart_payment_gateway.Services.Quiet.{
  IsQuiet, Never, Triple-then, Triple-attempted, Triple-answered, quiet_find_by_key,
}
use ficmart_payment_gateway.Services.Quiet.Moving.{Before, Stage, mark_quiet, finish_quiet}
use ficmart_payment_gateway.Services.Quiet.Entity.{
  marked, captured_as, voided_as, refunded_as, mark_capturing_of, mark_voiding_of,
  mark_refunding_of, capture_of, void_of, refund_of,
}

module _ {e : Env} (quiet : IsQuiet e) (id key : String) (p : Payment) (cs : List BankCall) where
  check_quiet :
      (hash : String)
      → Triple e
          (Before id key p cs)
          (check_idempotency key hash)
          (λ o d s. Before id key p cs d s × (o ≡ none))
          Never
  unfolding check_idempotency check_row
  check_quiet hash =
      Triple-then {R = Before id key p cs} _ _ none
        (Triple-or_fail _ _ (
          Triple-weaken _ (λ d s h. h) (λ o d s h. (h.0, h.1 ∙ h.0.absent)) (λ x d s h. h)
            (quiet_find_by_key quiet key)))
        (Triple-pure none (λ d s h. (h, refl)))

  module _ (reference payload : String) (r : CaptureResponse) (ready : p.status ≡ authorized)
      (stored_id : p.id ≡ id) (referenced : p.bank_auth_id ≡ some reference)
      (unexpired : equal_fold r.status "authorization_expired" ≡ false)
      (answers : (n : ℕ) → e.bank.capture n (Capture.capture_request p reference) key ≡ reply r)
      (text : e.marshal_response (Bank.capture r) ≡ reply payload) where
    call_capture_quiet :
        (hash : String)
        → Triple e
            (Stage id key hash (marked p capturing) cs true none)
            (Capture.call_bank (marked p capturing) key)
            (λ q d s.
              Stage id key hash
                (captured_as p r)
                (Bank.capture_call (Capture.capture_request p reference) key ∷ cs)
                false
                (some payload)
                d
                s
              × (q ≡ captured_as p r))
            Never
    unfolding Capture.call_bank Capture.after_bank
    call_capture_quiet hash =
        Triple-then {R = Stage id key hash (marked p capturing) cs true none} _ _ reference
          (Triple-deref _ (λ d s h. (reference, referenced, (h, refl))))
          (Triple-attempted
            {R = Stage id key hash (marked p capturing)
              (Bank.capture_call (Capture.capture_request p reference) key ∷ cs) true none}
            _ _ r
            (Triple-answered quiet _ _ r answers (λ d s h. record {
              found = h.found;
              calls =
                  ap (λ x. Bank.capture_call (Capture.capture_request p reference) key ∷ x) h.calls;
              keyed = h.keyed;
            }))
            (finish_quiet quiet id key hash _ _ (marked p capturing) (captured_as p r)
              (Bank.capture r) payload (capture_of p r unexpired) stored_id refl text))

    pub capture_completes :
        Triple e
          (Before id key p cs)
          (Capture.capture id key)
          (λ q d s.
            Stage id key
              (e.sha256_hex id)
              (captured_as p r)
              (Bank.capture_call (Capture.capture_request p reference) key ∷ cs)
              false
              (some payload)
              d
              s
            × (q ≡ captured_as p r))
          Never
    unfolding Capture.capture Capture.after_check Capture.after_mark compute_hash
    capture_completes =
        Triple-then {R = Before id key p cs} _ _ (e.sha256_hex id)
          (Triple-gets _ (λ d s h. (h, refl)))
          (Triple-then {R = Before id key p cs} _ _ none (check_quiet _) (
            Triple-attempted _ _ (marked p capturing)
              (mark_quiet quiet id key _ cs mark_capturing p (marked p capturing)
                (mark_capturing_of p ready) stored_id refl)
              (call_capture_quiet _)))

  module _ (reference payload : String) (r : VoidResponse) (ready : p.status ≡ authorized)
      (stored_id : p.id ≡ id) (referenced : p.bank_auth_id ≡ some reference)
      (unexpired : equal_fold r.status "authorization_expired" ≡ false)
      (answers : (n : ℕ) → e.bank.void n (Void.void_request p reference) key ≡ reply r)
      (text : e.marshal_response (Bank.void r) ≡ reply payload) where
    call_void_quiet :
        (hash : String)
        → Triple e
            (Stage id key hash (marked p voiding) cs true none)
            (Void.call_bank (marked p voiding) key)
            (λ q d s.
              Stage id key hash
                (voided_as p r)
                (Bank.void_call (Void.void_request p reference) key ∷ cs)
                false
                (some payload)
                d
                s
              × (q ≡ voided_as p r))
            Never
    unfolding Void.call_bank Void.after_bank
    call_void_quiet hash =
        Triple-then {R = Stage id key hash (marked p voiding) cs true none} _ _ reference
          (Triple-deref _ (λ d s h. (reference, referenced, (h, refl))))
          (Triple-attempted
            {R = Stage id key hash (marked p voiding)
              (Bank.void_call (Void.void_request p reference) key ∷ cs) true none}
            _ _ r
            (Triple-answered quiet _ _ r answers (λ d s h. record {
              found = h.found;
              calls = ap (λ x. Bank.void_call (Void.void_request p reference) key ∷ x) h.calls;
              keyed = h.keyed;
            }))
            (finish_quiet quiet id key hash _ _ (marked p voiding) (voided_as p r) (Bank.void r)
              payload (void_of p r unexpired) stored_id refl text))

    pub void_completes :
        Triple e
          (Before id key p cs)
          (Void.void id key)
          (λ q d s.
            Stage id key
              (e.sha256_hex id)
              (voided_as p r)
              (Bank.void_call (Void.void_request p reference) key ∷ cs)
              false
              (some payload)
              d
              s
            × (q ≡ voided_as p r))
          Never
    unfolding Void.void Void.after_check Void.after_mark compute_hash
    void_completes =
        Triple-then {R = Before id key p cs} _ _ (e.sha256_hex id)
          (Triple-gets _ (λ d s h. (h, refl)))
          (Triple-then {R = Before id key p cs} _ _ none (check_quiet _) (
            Triple-attempted _ _ (marked p voiding)
              (mark_quiet quiet id key _ cs mark_voiding p (marked p voiding)
                (mark_voiding_of p ready) stored_id refl)
              (call_void_quiet _)))

  module _ (reference payload : String) (r : RefundResponse) (ready : p.status ≡ captured)
      (stored_id : p.id ≡ id) (referenced : p.bank_capture_id ≡ some reference)
      (answers : (n : ℕ) → e.bank.refund n (Refund.refund_request p reference) key ≡ reply r)
      (text : e.marshal_response (Bank.refund r) ≡ reply payload) where
    call_refund_quiet :
        (hash : String)
        → Triple e
            (Stage id key hash (marked p refunding) cs true none)
            (Refund.call_bank (marked p refunding) key)
            (λ q d s.
              Stage id key hash
                (refunded_as p r)
                (Bank.refund_call (Refund.refund_request p reference) key ∷ cs)
                false
                (some payload)
                d
                s
              × (q ≡ refunded_as p r))
            Never
    unfolding Refund.call_bank Refund.after_bank
    call_refund_quiet hash =
        Triple-then {R = Stage id key hash (marked p refunding) cs true none} _ _ reference
          (Triple-deref _ (λ d s h. (reference, referenced, (h, refl))))
          (Triple-attempted
            {R = Stage id key hash (marked p refunding)
              (Bank.refund_call (Refund.refund_request p reference) key ∷ cs) true none}
            _ _ r
            (Triple-answered quiet _ _ r answers (λ d s h. record {
              found = h.found;
              calls =
                  ap (λ x. Bank.refund_call (Refund.refund_request p reference) key ∷ x) h.calls;
              keyed = h.keyed;
            }))
            (finish_quiet quiet id key hash _ _ (marked p refunding) (refunded_as p r)
              (Bank.refund r) payload (refund_of p r) stored_id refl text))

    pub refund_completes :
        Triple e
          (Before id key p cs)
          (Refund.refund id key)
          (λ q d s.
            Stage id key
              (e.sha256_hex id)
              (refunded_as p r)
              (Bank.refund_call (Refund.refund_request p reference) key ∷ cs)
              false
              (some payload)
              d
              s
            × (q ≡ refunded_as p r))
          Never
    unfolding Refund.refund Refund.after_check Refund.after_mark compute_hash
    refund_completes =
        Triple-then {R = Before id key p cs} _ _ (e.sha256_hex id)
          (Triple-gets _ (λ d s h. (h, refl)))
          (Triple-then {R = Before id key p cs} _ _ none (check_quiet _) (
            Triple-attempted _ _ (marked p refunding)
              (mark_quiet quiet id key _ cs mark_refunding p (marked p refunding)
                (mark_refunding_of p ready) stored_id refl)
              (call_refund_quiet _)))
