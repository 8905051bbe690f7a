-- ===== src/Handlers.antt =====
-- internal/handlers: the data that is answered (helpers.go). Three functions are parameters: `text`
-- is an error's Error(), `to_upper` is strings.ToUpper and `parse_uuid` is uuid.Parse, whose result
-- is the canonical text.
pub mod Replies
pub mod Ensures
use ficmart_payment_gateway.Prelude.{
  ℕ, String, Bool, true, false, Option, none, some, List, [], ◌∷◌,
}
use ficmart_payment_gateway.Prelude.Integer.{ℤ, negsuc}
use ficmart_payment_gateway.Failure.{Error, wrap}
use ficmart_payment_gateway.Failure.Response.{to_http_status, to_error_code}
use ficmart_payment_gateway.Domain.{Payment, Status, Time}
use ficmart_payment_gateway.Bank.Retry.{Answer, reply, fault}

pub record ApiPayment : Type 0 where
  pub amount_cents : ℤ
  pub attempt_count : ℕ
  pub authorized_at : Time
  pub bank_auth_id : String
  pub bank_capture_id : String
  pub bank_refund_id : String
  pub bank_void_id : String
  pub captured_at : Time
  pub created_at : Time
  pub currency : String
  pub customer_id : String
  pub expires_at : Time
  pub id : String
  pub next_retry_at : Time
  pub order_id : String
  pub refunded_at : Time
  pub status : Status
  pub voided_at : Time

-- The zero time.Time, the first of January of year 1.
abbrev pub zero_time : Time
zero_time = negsuc 62135596799999999999

-- `if p.X != nil { a.X = *p.X }` on a field that starts as its type's zero value.
abbrev pub or_zero : {A : Type 0} → A → Option A → A
or_zero z none = z
or_zero z (some a) = a

abbrev pub with_id : Payment → String → ApiPayment
with_id p parsed_id = record {
  amount_cents = p.amount_cents;
  attempt_count = p.attempt_count;
  authorized_at = or_zero zero_time p.authorized_at;
  bank_auth_id = or_zero "" p.bank_auth_id;
  bank_capture_id = or_zero "" p.bank_capture_id;
  bank_refund_id = or_zero "" p.bank_refund_id;
  bank_void_id = or_zero "" p.bank_void_id;
  captured_at = or_zero zero_time p.captured_at;
  created_at = p.created_at;
  currency = p.currency;
  customer_id = p.customer_id;
  expires_at = or_zero zero_time p.expires_at;
  id = parsed_id;
  next_retry_at = or_zero zero_time p.next_retry_at;
  order_id = p.order_id;
  refunded_at = or_zero zero_time p.refunded_at;
  status = p.status;
  voided_at = or_zero zero_time p.voided_at;
}

module _ (parse_uuid : String → Answer String) where
  unfoldable pub to_api_payment : Payment → Answer ApiPayment
  to_api_payment p = elim (parse_uuid p.id) [
    | reply id ↦ reply (with_id p id)
    | fault x ↦ fault (wrap "failed to parse payment ID as UUID" x)
  ]

  -- append, or the first error.
  abbrev pub prepend : Answer ApiPayment → Answer (List ApiPayment) → Answer (List ApiPayment)
  prepend (fault x) others = fault x
  prepend (reply a) (fault x) = fault x
  prepend (reply a) (reply rest) = reply (a ∷ rest)

  unfoldable pub to_api_payments : List Payment → Answer (List ApiPayment)
  unfolding to_api_payment
  to_api_payments [] = reply []
  to_api_payments (p ∷ ps) = prepend (to_api_payment p) (to_api_payments ps)

pub record ErrorResponse : Type 0 where
  pub success : Bool
  pub code : String
  pub message : String

module _ (text : Error → String) (to_upper : String → String) where
  unfoldable pub build_error_response : Error → ℕ × ErrorResponse
  unfolding to_http_status to_error_code
  build_error_response x = (
    to_http_status (some x),
    record { success = false; code = to_error_code to_upper x; message = text x },
  )
