-- ===== src/Services/History/Moving.antt =====
-- At most one call of the bank for each key: the services of capture.go, void.go and refund.go.
use ficmart_payment_gateway.Prelude.{String, refl, Option, none, some}
use ficmart_payment_gateway.Domain
use ficmart_payment_gateway.Domain.{
  Payment, Changed, Status, capturing, voiding, refunding, mark_capturing, mark_voiding,
  mark_refunding,
}
use ficmart_payment_gateway.Bank
use ficmart_payment_gateway.Bank.{CaptureResponse, VoidResponse, RefundResponse}
use ficmart_payment_gateway.Exec.{Result, ok, err, panic, Env}
use ficmart_payment_gateway.Exec.Triple.{
  Ends, Triple, Triple-bind, Triple-pure, Triple-lift, Triple-gets, Triple-attempt, Triple-deref,
}
use ficmart_payment_gateway.Exec.Fair.{KeysStay, RowsStayWellFormed, FaultsAreHonest}
use ficmart_payment_gateway.Services.Idempotency.{compute_hash}
use ficmart_payment_gateway.Services.Intent.{
  Marked, mark_capturing-MovesTo, mark_voiding-MovesTo, mark_refunding-MovesTo,
}
use ficmart_payment_gateway.Services.Capture
use ficmart_payment_gateway.Services.Capture.Ensures.{capturing_reference}
use ficmart_payment_gateway.Services.Void
use ficmart_payment_gateway.Services.Void.Ensures.{voiding_reference}
use ficmart_payment_gateway.Services.Refund
use ficmart_payment_gateway.Services.Refund.Ensures.{refunding_reference}
use ficmart_payment_gateway.Services.History.{Once, Fresh, Once-IsMonotone}
use ficmart_payment_gateway.Services.History.Keeping.{bank_failed-Keeps, finish-Keeps}
use ficmart_payment_gateway.Services.History.Steps.{
  Orderly, KeepsOnce, Turned, wait_or_raise-Once, mark_once, check_once, send-Once,
}

module _ (e : Env) (honest : FaultsAreHonest e) (stay : RowsStayWellFormed e)
    (keys : KeysStay e) where
  after_bank_capture_once :
      (p : Payment) (key : String) (r : Result CaptureResponse)
      → Triple e
          (Ends (λ _. Once) (λ _. Once) r)
          (Capture.after_bank p key r)
          (λ _. Once)
          (λ _. Once)
  unfolding Capture.after_bank
  after_bank_capture_once p key (ok r) =
      finish-Keeps e honest keys Once Once-IsMonotone
        (Domain.capture p r.status r.capture_id r.captured_at) key (Bank.capture r)
  after_bank_capture_once p key (err x) =
      bank_failed-Keeps e honest keys Once Once-IsMonotone p key x
  after_bank_capture_once p key panic = Triple-lift panic (λ d s h. h)

  call_bank_capture_once :
      (p : Payment) (key : String)
      → Triple e
          (λ d s. Marked capturing key p d s × Fresh key d s)
          (Capture.call_bank p key)
          (λ _. Once)
          (λ _. Once)
  unfolding Capture.call_bank
  call_bank_capture_once p key =
      Triple-bind {Q = λ _. Fresh key} _ _
        (Triple-deref p.bank_auth_id (λ d s h.
          let (reference, found) = capturing_reference p h.0.1 h.0.2 in (reference, found, h.1)))
        λ reference.
          Triple-bind _ _
            (send-Once e honest stay keys key
              (Bank.capture_call (Capture.capture_request p reference) key) _ refl)
            (λ r. after_bank_capture_once p key r)

  after_mark_capture_once :
      (key : String) (r : Result Payment)
      → Triple e
          (Ends
            (λ q d s. Marked capturing key q d s × Fresh key d s)
            (Turned e honest stay keys key)
            r)
          (Capture.after_mark key r)
          (λ _. Once)
          (λ _. Once)
  unfolding Capture.after_mark
  after_mark_capture_once key (ok p) = call_bank_capture_once p key
  after_mark_capture_once key (err x) = wait_or_raise-Once e honest stay keys key x
  after_mark_capture_once key panic = Triple-lift panic (λ d s h. h)

  after_check_capture_once :
      (payment_id key request_hash : String) (o : Option Payment)
      → KeepsOnce e honest stay keys (Capture.after_check payment_id key request_hash o)
  unfolding Capture.after_check
  after_check_capture_once payment_id key request_hash (some p) = Triple-pure p (λ d s h. h.1)
  after_check_capture_once payment_id key request_hash none =
      Triple-bind _ _
        (Triple-attempt _ _ (
          mark_once e honest stay keys capturing mark_capturing mark_capturing-MovesTo payment_id
            key request_hash))
        (after_mark_capture_once key)

  pub capture-KeepsOnce :
      (payment_id key : String) → KeepsOnce e honest stay keys (Capture.capture payment_id key)
  unfolding Capture.capture compute_hash
  capture-KeepsOnce payment_id key =
      Triple-bind {Q = λ _. Orderly} _ _ (Triple-gets _ (λ d s h. h)) λ request_hash.
        Triple-bind _ _ (check_once e honest stay keys key request_hash)
          (after_check_capture_once payment_id key request_hash)

  after_bank_void_once :
      (p : Payment) (key : String) (r : Result VoidResponse)
      → Triple e (Ends (λ _. Once) (λ _. Once) r) (Void.after_bank p key r) (λ _. Once) (λ _. Once)
  unfolding Void.after_bank
  after_bank_void_once p key (ok r) =
      finish-Keeps e honest keys Once Once-IsMonotone (Domain.void p r.status r.void_id r.voided_at)
        key (Bank.void r)
  after_bank_void_once p key (err x) = bank_failed-Keeps e honest keys Once Once-IsMonotone p key x
  after_bank_void_once p key panic = Triple-lift panic (λ d s h. h)

  call_bank_void_once :
      (p : Payment) (key : String)
      → Triple e
          (λ d s. Marked voiding key p d s × Fresh key d s)
          (Void.call_bank p key)
          (λ _. Once)
          (λ _. Once)
  unfolding Void.call_bank
  call_bank_void_once p key =
      Triple-bind {Q = λ _. Fresh key} _ _
        (Triple-deref p.bank_auth_id (λ d s h.
          let (reference, found) = voiding_reference p h.0.1 h.0.2 in (reference, found, h.1)))
        λ reference.
          Triple-bind _ _
            (send-Once e honest stay keys key (Bank.void_call (Void.void_request p reference) key) _
              refl)
            (λ r. after_bank_void_once p key r)

  after_mark_void_once :
      (key : String) (r : Result Payment)
      → Triple e
          (Ends
            (λ q d s. Marked voiding key q d s × Fresh key d s)
            (Turned e honest stay keys key)
            r)
          (Void.after_mark key r)
          (λ _. Once)
          (λ _. Once)
  unfolding Void.after_mark
  after_mark_void_once key (ok p) = call_bank_void_once p key
  after_mark_void_once key (err x) = wait_or_raise-Once e honest stay keys key x
  after_mark_void_once key panic = Triple-lift panic (λ d s h. h)

  after_check_void_once :
      (payment_id key request_hash : String) (o : Option Payment)
      → KeepsOnce e honest stay keys (Void.after_check payment_id key request_hash o)
  unfolding Void.after_check
  after_check_void_once payment_id key request_hash (some p) = Triple-pure p (λ d s h. h.1)
  after_check_void_once payment_id key request_hash none =
      Triple-bind _ _
        (Triple-attempt _ _ (
          mark_once e honest stay keys voiding mark_voiding mark_voiding-MovesTo payment_id key
            request_hash))
        (after_mark_void_once key)

  pub void-KeepsOnce :
      (payment_id key : String) → KeepsOnce e honest stay keys (Void.void payment_id key)
  unfolding Void.void compute_hash
  void-KeepsOnce payment_id key =
      Triple-bind {Q = λ _. Orderly} _ _ (Triple-gets _ (λ d s h. h)) λ request_hash.
        Triple-bind _ _ (check_once e honest stay keys key request_hash)
          (after_check_void_once payment_id key request_hash)

  after_bank_refund_once :
      (p : Payment) (key : String) (r : Result RefundResponse)
      → Triple e
          (Ends (λ _. Once) (λ _. Once) r)
          (Refund.after_bank p key r)
          (λ _. Once)
          (λ _. Once)
  unfolding Refund.after_bank
  after_bank_refund_once p key (ok r) =
      finish-Keeps e honest keys Once Once-IsMonotone (Domain.refund p r.refund_id r.refunded_at)
        key (Bank.refund r)
  after_bank_refund_once p key (err x) =
      bank_failed-Keeps e honest keys Once Once-IsMonotone p key x
  after_bank_refund_once p key panic = Triple-lift panic (λ d s h. h)

  call_bank_refund_once :
      (p : Payment) (key : String)
      → Triple e
          (λ d s. Marked refunding key p d s × Fresh key d s)
          (Refund.call_bank p key)
          (λ _. Once)
          (λ _. Once)
  unfolding Refund.call_bank
  call_bank_refund_once p key =
      Triple-bind {Q = λ _. Fresh key} _ _
        (Triple-deref p.bank_capture_id (λ d s h.
          let (reference, found) = refunding_reference p h.0.1 h.0.2 in (reference, found, h.1)))
        λ reference.
          Triple-bind _ _
            (send-Once e honest stay keys key
              (Bank.refund_call (Refund.refund_request p reference) key) _ refl)
            (λ r. after_bank_refund_once p key r)

  after_mark_refund_once :
      (key : String) (r : Result Payment)
      → Triple e
          (Ends
            (λ q d s. Marked refunding key q d s × Fresh key d s)
            (Turned e honest stay keys key)
            r)
          (Refund.after_mark key r)
          (λ _. Once)
          (λ _. Once)
  unfolding Refund.after_mark
  after_mark_refund_once key (ok p) = call_bank_refund_once p key
  after_mark_refund_once key (err x) = wait_or_raise-Once e honest stay keys key x
  after_mark_refund_once key panic = Triple-lift panic (λ d s h. h)

  after_check_refund_once :
      (payment_id key request_hash : String) (o : Option Payment)
      → KeepsOnce e honest stay keys (Refund.after_check payment_id key request_hash o)
  unfolding Refund.after_check
  after_check_refund_once payment_id key request_hash (some p) = Triple-pure p (λ d s h. h.1)
  after_check_refund_once payment_id key request_hash none =
      Triple-bind _ _
        (Triple-attempt _ _ (
          mark_once e honest stay keys refunding mark_refunding mark_refunding-MovesTo payment_id
            key request_hash))
        (after_mark_refund_once key)

  pub refund-KeepsOnce :
      (payment_id key : String) → KeepsOnce e honest stay keys (Refund.refund payment_id key)
  unfolding Refund.refund compute_hash
  refund-KeepsOnce payment_id key =
      Triple-bind {Q = λ _. Orderly} _ _ (Triple-gets _ (λ d s h. h)) λ request_hash.
        Triple-bind _ _ (check_once e honest stay keys key request_hash)
          (after_check_refund_once payment_id key request_hash)
