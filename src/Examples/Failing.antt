-- ===== src/Examples/Failing.antt =====
-- The classification of errors, run.
use ficmart_payment_gateway.Prelude.{◌≡◌, ◌↔◌, false, some, str_eq, ◌<◌}
use ficmart_payment_gateway.Failure.{BankError, Error, wrap, bank_error}
use ficmart_payment_gateway.Failure.Category.{
  categorize, bank_category, categorize_error, is_transient, permanent, one_of, client_codes,
}
use ficmart_payment_gateway.Failure.Agreement.{
  direct, under, categorize-Reports, is_retryable-Reports, permanent-Reports,
}
use ficmart_payment_gateway.Bank.Retry

abbrev declined : BankError
declined = record { code = "insufficient_funds"; message = "declined"; status_code = 402 }

abbrev reported : Error
reported = wrap "maximum retries exceeded" (bank_error declined)

categorize-Reports_example : categorize reported ≡ bank_category declined
categorize-Reports_example = categorize-Reports (under "maximum retries exceeded" direct)

is_retryable-Reports_example :
    Retry.is_retryable reported ≡ is_transient (categorize_error (some reported))
is_retryable-Reports_example = is_retryable-Reports (under "maximum retries exceeded" direct)

permanent-Reports_example : (categorize_error (some reported) ≡ permanent) ↔ (
    (declined.status_code < 500)
    × (str_eq declined.code "internal_error" ≡ false)
    × (one_of declined.code client_codes ≡ false))
permanent-Reports_example = permanent-Reports (under "maximum retries exceeded" direct)
