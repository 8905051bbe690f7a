-- ===== src/Worker/Ensures/Resuming.antt =====
-- What the resumed operations ensure (internal/worker/helpers.go and retry_worker.go).
use ficmart_payment_gateway.Prelude.{ℕ, String, ◌≡◌, refl, Option, none, some, List, ◌∷◌, arith}
use ficmart_payment_gateway.Failure.{Error}
use ficmart_payment_gateway.Failure.Category.{is_retryable}
use ficmart_payment_gateway.Domain
use ficmart_payment_gateway.Domain.{Payment, Time, Changed, capturing, voiding, refunding}
use ficmart_payment_gateway.Domain.Invariant.{IsWellFormed}
use ficmart_payment_gateway.Bank
use ficmart_payment_gateway.Bank.{
  BankCall, BankResponse, CaptureResponse, VoidResponse, RefundResponse, capture_call, void_call,
  refund_call,
}
use ficmart_payment_gateway.Store.{Db}
use ficmart_payment_gateway.Exec.{Result, ok, err, panic, Env, Exec, Sent}
use ficmart_payment_gateway.Exec.Triple.{
  Pred, Ends, Triple, Triple-bind, Triple-raise, Triple-if, Triple-lift, Triple-ask, Triple-attempt,
  Triple-deref, Triple-send, Triple-given, Triple-weaken,
}
use ficmart_payment_gateway.Exec.Fair.{FaultsAreHonest, RowsStayWellFormed}
use ficmart_payment_gateway.Services.Intent.{Sound, Marked, Served}
use ficmart_payment_gateway.Services.Capture.{capture_request}
use ficmart_payment_gateway.Services.Void.{void_request}
use ficmart_payment_gateway.Services.Refund.{refund_request}
use ficmart_payment_gateway.Services.Transactions.Settle.{
  Failed, Triple-finalize_payment, Triple-handle_bank_failure,
}
use ficmart_payment_gateway.Worker.Backoff.{RetryWorker, schedule_retry}
use ficmart_payment_gateway.Worker.Resume.{
  after_failure, after_response, after_call, resume_operation, capture_again, void_again,
  refund_again, resume_capture, resume_void, resume_refund,
}
use ficmart_payment_gateway.Worker.Ensures.{IsSafe, update-IsSafe}

schedule_retry_kept :
    (p : Payment) (now backoff : Time)
    → IsWellFormed p
    → IsWellFormed (Domain.schedule_retry p now backoff)
unfolding Domain.schedule_retry
schedule_retry_kept p now backoff h = ground arith

module _ (e : Env) (honest : FaultsAreHonest e) (stay : RowsStayWellFormed e)
    (w : RetryWorker) where
  schedule_retry-IsSafe : (p : Payment) → IsWellFormed p → IsSafe e (schedule_retry w p)
  unfolding schedule_retry
  schedule_retry-IsSafe p wf =
      Triple-bind {Q = λ _. Sound} _ _ (Triple-ask _ (λ n d s h. h))
        λ now. update-IsSafe e honest stay _ (schedule_retry_kept p now _ wf)

  after_failure-Failed :
      (x : Error) (r : Payment × Option Error)
      → Triple e (Failed e honest stay r) (after_failure w x r) (λ _. Sound) (λ _. Sound)
  unfolding after_failure
  after_failure-Failed x (p, some y) =
      Triple-weaken {P' = Served p} {Q' = λ _. Sound} {E' = λ _. Sound} _ (λ d s h. (h.0, h.1))
        (λ t d s h. h) (λ z d s h. h)
        (Triple-if (is_retryable (some y)) _ _
          (λ again. Triple-given (λ wf. schedule_retry-IsSafe p wf))
          (λ other. Triple-raise y (λ d s h. h.0)))
  after_failure-Failed x (p, none) = Triple-raise x (λ d s h. h.0)

  after_response-IsSafe :
      (key : String) (response : BankResponse) (c : Changed)
      → IsWellFormed c.0
      → IsSafe e (after_response key response c)
  unfolding after_response
  after_response-IsSafe key response (p, some x) wf = Triple-raise x (λ d s h. h)
  after_response-IsSafe key response (p, none) wf =
      Triple-finalize_payment e honest stay p key response wf

  module _ {A : Type 0} (p : Payment) (key : String) (apply : A → Changed)
      (response : A → BankResponse)
      (kept : (a : A) → IsWellFormed p → IsWellFormed (apply a).0) where
    after_call-Served :
        (r : Result A)
        → Triple e
            (Ends (λ _. Served p) (λ _. Served p) r)
            (after_call w p key apply response r)
            (λ _. Sound)
            (λ _. Sound)
    unfolding after_call
    after_call-Served (ok a) =
        Triple-given λ wf. after_response-IsSafe key (response a) (apply a) (kept a wf)
    after_call-Served (err x) = Triple-given λ wf.
        Triple-bind _ _ (Triple-handle_bank_failure e honest stay p key x wf)
          (after_failure-Failed x)
    after_call-Served panic = Triple-lift panic (λ d s h. h)

    resume_operation-Served :
        (P : Pred) (m : Exec A)
        → Triple e P m (λ _. Served p) (λ _. Served p)
        → Triple e P (resume_operation w p key apply response m) (λ _. Sound) (λ _. Sound)
    unfolding resume_operation
    resume_operation-Served P m h = Triple-bind _ _ (Triple-attempt _ m h) after_call-Served

  capture_kept :
      (p : Payment) (status id : String) (at : Time)
      → IsWellFormed p
      → IsWellFormed (Domain.capture p status id at).0
  unfolding Domain.capture
  capture_kept p status id at h = ground arith

  capture_reference :
      (p : Payment)
      → IsWellFormed p
      → p.status ≡ capturing
      → (reference : String) × (p.bank_auth_id ≡ some reference)
  capture_reference p h same = ground arith

  capture_again-Served :
      (p : Payment) (key : String)
      → Triple e (Marked capturing key p) (capture_again p key) (λ _. Served p) (λ _. Served p)
  unfolding capture_again
  capture_again-Served p key =
      Triple-bind
        {Q = λ reference d s. Marked capturing key p d s × (p.bank_auth_id ≡ some reference)} _ _
        (Triple-deref p.bank_auth_id (λ d s h.
          let (reference, found) = capture_reference p h.1 h.2 in (reference, found, (h, found))))
        λ reference. Triple-send _ _ (λ a. recorded reference) (λ x. recorded reference)
    where
      recorded :
          (reference : String) (n : ℕ) (d : Db) (s : List Sent)
          → Marked capturing key p d s × (p.bank_auth_id ≡ some reference)
          → Served p (e.others n d) (
              record {
                call = capture_call (capture_request p reference) key;
                seen = d;
                at = e.others n d;
              }
              ∷ s)
      recorded reference n d s (h, found) =
          ((stay n d h.0.0, ((p, h.3, h.2, found, refl), h.0.1)), h.1)

  -- Under FaultsAreHonest and RowsStayWellFormed: for a payment that is stored as capturing under
  -- its locked key when the operation is resumed, the retry worker does not panic, sends the bank
  -- a recorded call, and keeps every payment well formed.
  pub resume_capture_lem :
      (p : Payment) (key : String)
      → Triple e (Marked capturing key p) (resume_capture w p key) (λ _. Sound) (λ _. Sound)
  unfolding resume_capture
  resume_capture_lem p key =
      resume_operation-Served p key _ Bank.capture
        (λ r. capture_kept p r.status r.capture_id r.captured_at) (Marked capturing key p)
        (capture_again p key) (capture_again-Served p key)

  void_kept :
      (p : Payment) (status id : String) (at : Time)
      → IsWellFormed p
      → IsWellFormed (Domain.void p status id at).0
  unfolding Domain.void
  void_kept p status id at h = ground arith

  void_reference :
      (p : Payment)
      → IsWellFormed p
      → p.status ≡ voiding
      → (reference : String) × (p.bank_auth_id ≡ some reference)
  void_reference p h same = ground arith

  void_again-Served :
      (p : Payment) (key : String)
      → Triple e (Marked voiding key p) (void_again p key) (λ _. Served p) (λ _. Served p)
  unfolding void_again
  void_again-Served p key =
      Triple-bind
        {Q = λ reference d s. Marked voiding key p d s × (p.bank_auth_id ≡ some reference)} _ _
        (Triple-deref p.bank_auth_id (λ d s h.
          let (reference, found) = void_reference p h.1 h.2 in (reference, found, (h, found))))
        λ reference. Triple-send _ _ (λ a. recorded reference) (λ x. recorded reference)
    where
      recorded :
          (reference : String) (n : ℕ) (d : Db) (s : List Sent)
          → Marked voiding key p d s × (p.bank_auth_id ≡ some reference)
          → Served p (e.others n d) (
              record {
                call = void_call (void_request p reference) key;
                seen = d;
                at = e.others n d;
              }
              ∷ s)
      recorded reference n d s (h, found) = ((stay n d h.0.0, ((p, h.3, h.2, found), h.0.1)), h.1)

  -- Under FaultsAreHonest and RowsStayWellFormed: for a payment that is stored as voiding under
  -- its locked key when the operation is resumed, the retry worker does not panic, sends the bank
  -- a recorded call, and keeps every payment well formed.
  pub resume_void_lem :
      (p : Payment) (key : String)
      → Triple e (Marked voiding key p) (resume_void w p key) (λ _. Sound) (λ _. Sound)
  unfolding resume_void
  resume_void_lem p key =
      resume_operation-Served p key _ Bank.void (λ r. void_kept p r.status r.void_id r.voided_at)
        (Marked voiding key p) (void_again p key) (void_again-Served p key)

  refund_kept :
      (p : Payment) (id : String) (at : Time)
      → IsWellFormed p
      → IsWellFormed (Domain.refund p id at).0
  unfolding Domain.refund
  refund_kept p id at h = ground arith

  refund_reference :
      (p : Payment)
      → IsWellFormed p
      → p.status ≡ refunding
      → (reference : String) × (p.bank_capture_id ≡ some reference)
  refund_reference p h same = ground arith

  refund_again-Served :
      (p : Payment) (key : String)
      → Triple e (Marked refunding key p) (refund_again p key) (λ _. Served p) (λ _. Served p)
  unfolding refund_again
  refund_again-Served p key =
      Triple-bind
        {Q = λ reference d s. Marked refunding key p d s × (p.bank_capture_id ≡ some reference)} _ _
        (Triple-deref p.bank_capture_id (λ d s h.
          let (reference, found) = refund_reference p h.1 h.2 in (reference, found, (h, found))))
        λ reference. Triple-send _ _ (λ a. recorded reference) (λ x. recorded reference)
    where
      recorded :
          (reference : String) (n : ℕ) (d : Db) (s : List Sent)
          → Marked refunding key p d s × (p.bank_capture_id ≡ some reference)
          → Served p (e.others n d) (
              record {
                call = refund_call (refund_request p reference) key;
                seen = d;
                at = e.others n d;
              }
              ∷ s)
      recorded reference n d s (h, found) =
          ((stay n d h.0.0, ((p, h.3, h.2, found, refl), h.0.1)), h.1)

  -- Under FaultsAreHonest and RowsStayWellFormed: for a payment that is stored as refunding under
  -- its locked key when the operation is resumed, the retry worker does not panic, sends the bank
  -- a recorded call, and keeps every payment well formed.
  pub resume_refund_lem :
      (p : Payment) (key : String)
      → Triple e (Marked refunding key p) (resume_refund w p key) (λ _. Sound) (λ _. Sound)
  unfolding resume_refund
  resume_refund_lem p key =
      resume_operation-Served p key _ Bank.refund (λ r. refund_kept p r.refund_id r.refunded_at)
        (Marked refunding key p) (refund_again p key) (refund_again-Served p key)

  -- Under FaultsAreHonest and RowsStayWellFormed: for a payment that is stored as capturing,
  -- voiding or refunding under its locked key when that operation is resumed, the retry worker
  -- does not panic, keeps every payment well formed and every call recorded in the tables as they
  -- were when the worker had last seen them.
  pub resume_lem :
      (p : Payment) (key : String)
      → Triple e (Marked capturing key p) (resume_capture w p key) (λ _. Sound) (λ _. Sound)
        × Triple e (Marked voiding key p) (resume_void w p key) (λ _. Sound) (λ _. Sound)
        × Triple e (Marked refunding key p) (resume_refund w p key) (λ _. Sound) (λ _. Sound)
  resume_lem p key = (resume_capture_lem p key, resume_void_lem p key, resume_refund_lem p key)
