-- ===== src/Services/Quiet/Entity.antt =====
-- The methods of internal/domain/payment.go where they succeed: the record afterwards.
use ficmart_payment_gateway.Prelude.{◌≡◌, false, none, some, arith}
use ficmart_payment_gateway.Prelude.Text.{equal_fold}
use ficmart_payment_gateway.Domain
use ficmart_payment_gateway.Domain.{
  Payment, Status, Time, authorized, capturing, captured, voiding, voided, refunding, refunded,
  mark_capturing, mark_voiding, mark_refunding,
}
use ficmart_payment_gateway.Bank.{CaptureResponse, VoidResponse, RefundResponse}

abbrev pub marked : Payment → Status → Payment
marked p t = record p { status = t }

abbrev pub captured_as : Payment → CaptureResponse → Payment
captured_as p r = record p {
  status = captured;
  bank_capture_id = some r.capture_id;
  captured_at = some r.captured_at;
}

abbrev pub voided_as : Payment → VoidResponse → Payment
voided_as p r = record p {
  status = voided;
  bank_void_id = some r.void_id;
  voided_at = some r.voided_at;
}

abbrev pub refunded_as : Payment → RefundResponse → Payment
refunded_as p r = record p {
  status = refunded;
  bank_refund_id = some r.refund_id;
  refunded_at = some r.refunded_at;
}

pub mark_capturing_of :
    (p : Payment) → p.status ≡ authorized → mark_capturing p ≡ (marked p capturing, none)
unfolding mark_capturing
mark_capturing_of p h = ground (arith, h)

pub mark_voiding_of :
    (p : Payment) → p.status ≡ authorized → mark_voiding p ≡ (marked p voiding, none)
unfolding mark_voiding
mark_voiding_of p h = ground (arith, h)

pub mark_refunding_of :
    (p : Payment) → p.status ≡ captured → mark_refunding p ≡ (marked p refunding, none)
unfolding mark_refunding
mark_refunding_of p h = ground (arith, h)

pub capture_of :
    (p : Payment) (r : CaptureResponse)
    → equal_fold r.status "authorization_expired" ≡ false
    → Domain.capture (marked p capturing) r.status r.capture_id r.captured_at
      ≡ (captured_as p r, none)
unfolding Domain.capture
capture_of p r h = ground (arith, h)

pub void_of :
    (p : Payment) (r : VoidResponse)
    → equal_fold r.status "authorization_expired" ≡ false
    → Domain.void (marked p voiding) r.status r.void_id r.voided_at ≡ (voided_as p r, none)
unfolding Domain.void
void_of p r h = ground (arith, h)

pub refund_of :
    (p : Payment) (r : RefundResponse)
    → Domain.refund (marked p refunding) r.refund_id r.refunded_at ≡ (refunded_as p r, none)
unfolding Domain.refund
refund_of p r = ground arith
