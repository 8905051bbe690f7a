-- ===== src/Failure/Category.antt =====
-- internal/application/error_categorizer.go: CategorizeError and IsRetryable.
use ficmart_payment_gateway.Prelude.{
  String, Bool, true, false, ◌||◌, Option, none, some, List, [], ◌∷◌, leb, str_eq, if◌then◌else◌,
}
use ficmart_payment_gateway.Failure.{
  Error, BankError, ServiceError, is_error, as_bank_error, as_service_error, invalid_transition,
  payment_expired, invalid_amount, missing_required_field, invalid_state, payment_not_found,
  deadline_exceeded, canceled,
}

-- `uncategorized` is the empty text that stands for no error.
pub data Category : Type 0 where
  uncategorized transient permanent business_rule client_error infrastructure : Category

-- A case of a `switch` on a text, with the texts that share its body.
unfoldable pub one_of : String → List String → Bool
one_of s [] = false
one_of s (t ∷ ts) = str_eq s t || one_of s ts

abbrev pub permanent_codes : List String
permanent_codes =
    "invalid_card" ∷ "invalid_cvv" ∷ "card_expired" ∷ "insufficient_funds" ∷ "invalid_amount"
    ∷ "authorization_already_used" ∷ "already_captured" ∷ "already_voided" ∷ "already_refunded"
    ∷ "authorization_expired" ∷ []

abbrev pub client_codes : List String
client_codes =
    "authorization_not_found" ∷ "capture_not_found" ∷ "refund_not_found" ∷ "not_found"
    ∷ "missing_idempotency_key" ∷ []

-- The branch on a BankError: its status first, then the switch on its code.
unfoldable pub bank_category : BankError → Category
bank_category b =
    if leb 500 b.status_code
    then transient
    else if one_of b.code permanent_codes
    then permanent
    else if one_of b.code client_codes
    then client_error
    else if str_eq b.code "internal_error"
    then transient
    else permanent

-- The switch on a ServiceError's code; with any other code the function goes on.
unfoldable pub service_category : ServiceError → Option Category
service_category s =
    if one_of s.code ("IDEMPOTENCY_MISMATCH" ∷ "INVALID_INPUT" ∷ [])
    then some client_error
    else if str_eq s.code "INTERNAL_ERROR"
    then some infrastructure
    else if one_of s.code ("REQUEST_PROCESSING" ∷ "TIMEOUT" ∷ [])
    then some transient
    else none

-- From the test for a BankError on.
unfoldable pub bank_or_default : Error → Category
unfolding bank_category
bank_or_default e = elim (as_bank_error e) [ some b ↦ bank_category b | none ↦ transient ]

-- From the test for a ServiceError on.
unfoldable pub service_or_later : Error → Category
unfolding service_category bank_or_default
service_or_later e = elim (as_service_error e) [
  | none ↦ bank_or_default e
  | some s ↦ elim (service_category s) [ some c ↦ c | none ↦ bank_or_default e ]
]

unfoldable pub categorize : Error → Category
unfolding service_or_later
categorize e =
    if is_error e deadline_exceeded || is_error e canceled
    then transient
    else if is_error e payment_expired
    then business_rule
    else if is_error e invalid_amount
    then business_rule
    else if is_error e invalid_transition || is_error e invalid_state
    then business_rule
    else if is_error e payment_not_found || is_error e missing_required_field
    then client_error
    else service_or_later e

unfoldable pub categorize_error : Option Error → Category
unfolding categorize
categorize_error none = uncategorized
categorize_error (some e) = categorize e

abbrev pub is_permanent : Category → Bool
is_permanent permanent = true
is_permanent _ = false

abbrev pub is_transient : Category → Bool
is_transient transient = true
is_transient _ = false

abbrev pub may_be_retried : Category → Bool
may_be_retried transient = true
may_be_retried infrastructure = true
may_be_retried _ = false

-- IsRetryable of the application package
unfoldable pub is_retryable : Option Error → Bool
unfolding categorize_error
is_retryable e = may_be_retried (categorize_error e)
