-- ===== src/Domain/Methods.antt =====
-- Every way the program changes a payment, as one type of calls.
use ficmart_payment_gateway.Prelude.{String, none, List, [], ◌∷◌}
use ficmart_payment_gateway.Domain.{
  Payment, Time, Changed, mark_capturing, mark_voiding, mark_refunding, fail, mark_expired,
  authorize, capture, void, refund, schedule_retry,
}

pub data Method : Type 0 where
  start_capture start_void start_refund give_up lapse : Method
  authorize_as : String → Time → Time → Method
  capture_as void_as : String → String → Time → Method
  refund_as : String → Time → Method
  retry_later : Time → Time → Method

unfoldable pub call : Method → Payment → Changed
unfolding mark_capturing mark_voiding mark_refunding fail mark_expired authorize capture void refund
    schedule_retry
call start_capture p = mark_capturing p
call start_void p = mark_voiding p
call start_refund p = mark_refunding p
call give_up p = fail p
call lapse p = mark_expired p
call (authorize_as id at expires) p = authorize p id at expires
call (capture_as status id at) p = capture p status id at
call (void_as status id at) p = void p status id at
call (refund_as id at) p = refund p id at
call (retry_later now backoff) p = (schedule_retry p now backoff, none)

-- Calls one after the other on one payment; an error leaves the caller free to go on.
unfoldable pub run : List Method → Payment → Payment
run [] p = p
run (m ∷ ms) p = run ms (call m p).0
