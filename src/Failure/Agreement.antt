-- ===== src/Failure/Agreement.antt =====
-- The two classifications of a bank's error, that of the client which repeats calls
-- (infrastructure/bank/retry.go) and that of the services (application/error_categorizer.go).
use ficmart_payment_gateway.Prelude.{
  String, ◌≡◌, refl, ◌↔◌, true, false, ◌||◌, none, some, arith, leb, str_eq, eq_iff, ◌<◌, List, [],
  ◌∷◌, All, Bool-cases, inl, inr,
}
use ficmart_payment_gateway.Failure.{
  Sentinel, Error, BankError, bank_error, wrap, is_error, as_bank_error, as_service_error,
  deadline_exceeded, canceled, payment_expired, invalid_amount, invalid_transition, invalid_state,
  payment_not_found, missing_required_field,
}
use ficmart_payment_gateway.Failure.Category.{
  one_of, permanent_codes, client_codes, bank_category, categorize, categorize_error, permanent,
  is_transient,
}
use ficmart_payment_gateway.Bank.Retry

-- The bank's error, with any number of texts put in front of it by `fmt.Errorf`.
pub data Reports (b : BankError) : Error → Type 0 where
  direct : Reports b (bank_error b)
  under : (m : String) {e : Error} → Reports b e → Reports b (wrap m e)

Reports-no_sentinel :
    {b : BankError} {e : Error} (s : Sentinel) → Reports b e → is_error e s ≡ false
unfolding is_error
Reports-no_sentinel s direct = refl
Reports-no_sentinel s (under m r) = Reports-no_sentinel s r

Reports-bank : {b : BankError} {e : Error} → Reports b e → as_bank_error e ≡ some b
unfolding as_bank_error
Reports-bank direct = refl
Reports-bank (under m r) = Reports-bank r

Reports-no_service : {b : BankError} {e : Error} → Reports b e → as_service_error e ≡ none
unfolding as_service_error
Reports-no_service direct = refl
Reports-no_service (under m r) = Reports-no_service r

-- Under any texts a bank's error has the category of its status and code.
pub categorize-Reports : {b : BankError} {e : Error} → Reports b e → categorize e ≡ bank_category b
unfolding categorize
categorize-Reports {b} {e} r = ground (
  arith,
  Reports-no_sentinel deadline_exceeded r,
  Reports-no_sentinel canceled r,
  Reports-no_sentinel payment_expired r,
  Reports-no_sentinel invalid_amount r,
  Reports-no_sentinel invalid_transition r,
  Reports-no_sentinel invalid_state r,
  Reports-no_sentinel payment_not_found r,
  Reports-no_sentinel missing_required_field r,
  Reports-bank r,
  Reports-no_service r,
)

not_internal :
    (s : String)
    → str_eq s "internal_error" ≡ true
    → (one_of s permanent_codes || one_of s client_codes) ≡ false
unfolding one_of
not_internal s h = rw ((eq_iff s "internal_error").0 h) refl

bank_category_transient :
    (b : BankError)
    → is_transient (bank_category b) ≡ (leb 500 b.status_code || str_eq b.code "internal_error")
unfolding bank_category
bank_category_transient b = ground (arith, not_internal b.code)

-- For a bank's error under any wrapping texts, the retrying client repeats the call if and only if
-- CategorizeError calls the error transient.
pub is_retryable-Reports :
    {b : BankError} {e : Error}
    → Reports b e
    → Retry.is_retryable e ≡ is_transient (categorize_error (some e))
unfolding categorize_error Retry.is_retryable
is_retryable-Reports {b} r =
    rw (categorize-Reports r, bank_category_transient b) (ground (arith, Reports-bank r))

-- What holds of each text of a list holds of a text that is one of them.
one_of_elim :
    (P : String → Type 0) (ts : List String) → All P ts → (s : String) → one_of s ts ≡ true → P s
unfolding one_of
one_of_elim P [] h s e = cc
one_of_elim P (t ∷ ts) h s e = elim (Bool-cases (str_eq s t)) [
  | inl same ↦ rw ((eq_iff s t).0 same) h.0
  | inr other ↦ one_of_elim P ts h.1 s (rw other at e)
]

client_not_permanent :
    (s : String) → one_of s client_codes ≡ true → one_of s permanent_codes ≡ false
unfolding one_of
client_not_permanent =
    one_of_elim (λ s. one_of s permanent_codes ≡ false) client_codes
      (refl, (refl, (refl, (refl, (refl, tt)))))

-- A bank's error under any wrapping texts is permanent if and only if its status is below 500 and
-- its code is neither internal_error nor one of those for a missing thing or key.
pub permanent-Reports :
    {b : BankError} {e : Error}
    → Reports b e
    → (categorize_error (some e) ≡ permanent) ↔ (
        (b.status_code < 500)
        × (str_eq b.code "internal_error" ≡ false)
        × (one_of b.code client_codes ≡ false))
unfolding categorize_error bank_category
permanent-Reports {b} r =
    rw (categorize-Reports r) (ground (arith, not_internal b.code, client_not_permanent b.code))
