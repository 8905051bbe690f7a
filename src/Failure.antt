-- ===== src/Failure.antt =====
-- Go's error values as this program builds them: the sentinels of domain/errors.go, postgres and
-- the context package, the structs BankError (infrastructure/bank/errors.go) and ServiceError
-- (application/errors.go), and the wrapping of `fmt.Errorf` with `%w`.
pub mod Category
pub mod Response
pub mod Agreement
use ficmart_payment_gateway.Prelude.{ℕ, String, Bool, false, Option, none, some, leb, ◌==◌, str_eq}

-- The errors that are compared by identity.
pub data Sentinel : Type 0 where
  invalid_transition payment_expired invalid_amount missing_required_field invalid_state : Sentinel
  payment_not_found duplicate_idempotency_key idempotency_mismatch : Sentinel
  no_rows deadline_exceeded canceled : Sentinel

abbrev pub sentinel_id : Sentinel → ℕ
sentinel_id invalid_transition = 0
sentinel_id payment_expired = 1
sentinel_id invalid_amount = 2
sentinel_id missing_required_field = 3
sentinel_id invalid_state = 4
sentinel_id payment_not_found = 5
sentinel_id duplicate_idempotency_key = 6
sentinel_id idempotency_mismatch = 7
sentinel_id no_rows = 8
sentinel_id deadline_exceeded = 9
sentinel_id canceled = 10

pub record BankError : Type 0 where
  pub code : String
  pub message : String
  pub status_code : ℕ

-- The field Err stands in the constructors of `Error` below.
pub record ServiceError : Type 0 where
  pub code : String
  pub message : String
  pub http_status : ℕ

-- `plain` is an error with no identity that the program tests for; `pg_error` is the driver's
-- PgError with its SQLSTATE.
pub data Error : Type 0 where
  sentinel : Sentinel → Error
  plain : String → Error
  wrap : String → Error → Error
  bank_error : BankError → Error
  service_error : ServiceError → Error
  service_error_of : ServiceError → Error → Error
  pg_error : String → Error

-- errors.Is: some error of the chain is the sentinel.
unfoldable pub is_error : Error → Sentinel → Bool
is_error (sentinel s) t = sentinel_id s == sentinel_id t
is_error (plain _) t = false
is_error (wrap _ e) t = is_error e t
is_error (bank_error _) t = false
is_error (service_error _) t = false
is_error (service_error_of _ e) t = is_error e t
is_error (pg_error _) t = false

-- bank.IsBankError: the first BankError of the chain (errors.As).
unfoldable pub as_bank_error : Error → Option BankError
as_bank_error (sentinel _) = none
as_bank_error (plain _) = none
as_bank_error (wrap _ e) = as_bank_error e
as_bank_error (bank_error b) = some b
as_bank_error (service_error _) = none
as_bank_error (service_error_of _ e) = as_bank_error e
as_bank_error (pg_error _) = none

-- application.IsServiceError: the first ServiceError of the chain.
unfoldable pub as_service_error : Error → Option ServiceError
as_service_error (sentinel _) = none
as_service_error (plain _) = none
as_service_error (wrap _ e) = as_service_error e
as_service_error (bank_error _) = none
as_service_error (service_error s) = some s
as_service_error (service_error_of s _) = some s
as_service_error (pg_error _) = none

-- postgres.IsUniqueViolation
unfoldable pub is_unique_violation : Error → Bool
is_unique_violation (sentinel _) = false
is_unique_violation (plain _) = false
is_unique_violation (wrap _ e) = is_unique_violation e
is_unique_violation (bank_error _) = false
is_unique_violation (service_error _) = false
is_unique_violation (service_error_of _ e) = is_unique_violation e
is_unique_violation (pg_error c) = str_eq c "23505"

-- BankError.IsRetryable
unfoldable pub bank_error_is_retryable : BankError → Bool
bank_error_is_retryable b = leb 500 b.status_code

-- The constructors of application/errors.go. NewInvalidInputError drops its argument.
unfoldable pub new_idempotency_mismatch_error : Error
new_idempotency_mismatch_error = service_error (record {
  code = "IDEMPOTENCY_MISMATCH";
  message = "Idempotency key reused with different request parameters";
  http_status = 400;
})

unfoldable pub new_request_processing_error : Error
new_request_processing_error = service_error (record {
  code = "REQUEST_PROCESSING";
  message = "Request is being processed. Please retry in a moment.";
  http_status = 202;
})

unfoldable pub new_timeout_error : Error
new_timeout_error = service_error (record {
  code = "TIMEOUT";
  message = "Request timed out waiting for completion";
  http_status = 408;
})

unfoldable pub new_internal_error : Error → Error
new_internal_error e =
    service_error_of
      (record {
        code = "INTERNAL_ERROR";
        message = "An internal error occurred";
        http_status = 500;
      })
      e

unfoldable pub new_invalid_input_error : Error → Error
new_invalid_input_error e =
    service_error (record { code = "INVALID_INPUT"; message = "Invalid input"; http_status = 400 })

unfoldable pub new_invalid_state_error : Error → Error
new_invalid_state_error e =
    service_error_of
      (record { code = "INVALID_STATE"; message = "Invalid state"; http_status = 409 }) e

unfoldable pub new_invalid_transition_error : Error → Error
new_invalid_transition_error e =
    service_error_of
      (record { code = "INVALID_TRANSITION"; message = "Invalid transition"; http_status = 409 }) e

unfoldable pub new_payment_expired_error : Error → Error
new_payment_expired_error e =
    service_error_of
      (record { code = "PAYMENT_EXPIRED"; message = "payment has expired"; http_status = 409 }) e
