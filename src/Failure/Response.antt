-- ===== src/Failure/Response.antt =====
-- internal/application/error_categorizer.go: ToHTTPStatus and ToErrorCode.
use ficmart_payment_gateway.Prelude.{ℕ, String, ◌||◌, Option, none, some, if◌then◌else◌}
use ficmart_payment_gateway.Failure.{
  Error, is_error, as_bank_error, as_service_error, invalid_transition, payment_expired,
  invalid_amount, missing_required_field, invalid_state, payment_not_found,
  duplicate_idempotency_key, deadline_exceeded, canceled,
}

bank_status_or_500 : Error → ℕ
bank_status_or_500 e = elim (as_bank_error e) [ some b ↦ b.status_code | none ↦ 500 ]

-- The `switch` on the sentinels.
sentinel_status : Error → ℕ
unfolding bank_status_or_500
sentinel_status e =
    if is_error e invalid_amount || is_error e missing_required_field
    then 400
    else if is_error e invalid_transition
        || is_error e invalid_state
        || is_error e duplicate_idempotency_key
        || is_error e payment_expired
    then 409
    else if is_error e payment_not_found
    then 404
    else if is_error e deadline_exceeded
    then 408
    else if is_error e canceled
    then 408
    else bank_status_or_500 e

unfoldable pub to_http_status : Option Error → ℕ
unfolding sentinel_status
to_http_status none = 200
to_http_status (some e) = elim (as_service_error e) [
  | some s ↦ s.http_status
  | none ↦ sentinel_status e
]

-- The second test for a ServiceError in the source comes after the first has failed.
timeout_or_internal : Error → String
timeout_or_internal e =
    if is_error e deadline_exceeded
    then "TIMEOUT"
    else elim (as_service_error e) [ some s ↦ s.code | none ↦ "INTERNAL_ERROR" ]

-- `to_upper` is strings.ToUpper.
module _ (to_upper : String → String) where
  bank_code_or_later : Error → String
  unfolding timeout_or_internal
  bank_code_or_later e = elim (as_bank_error e) [
    | some b ↦ to_upper b.code
    | none ↦ timeout_or_internal e
  ]

  sentinel_code : Error → String
  unfolding bank_code_or_later
  sentinel_code e =
      if is_error e invalid_transition
      then "INVALID_TRANSITION"
      else if is_error e payment_expired
      then "PAYMENT_EXPIRED"
      else if is_error e invalid_amount
      then "INVALID_AMOUNT"
      else if is_error e missing_required_field
      then "MISSING_REQUIRED_FIELD"
      else if is_error e invalid_state
      then "INVALID_STATE"
      else if is_error e duplicate_idempotency_key
      then "DUPLICATE_IDEMPOTENCY_KEY"
      else if is_error e payment_not_found
      then "PAYMENT_NOT_FOUND"
      else bank_code_or_later e

  unfoldable pub to_error_code : Error → String
  unfolding sentinel_code
  to_error_code e = elim (as_service_error e) [ some s ↦ s.code | none ↦ sentinel_code e ]
