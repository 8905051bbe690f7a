-- ===== src/Services/Transactions.antt =====
-- The transactions of internal/application/services/helpers.go.
pub mod Ensures
pub mod Settle
pub mod Opening
use ficmart_payment_gateway.Prelude.{String, Bool, Option, none, some, if◌then◌else◌}
use ficmart_payment_gateway.Failure.{
  Error, is_error, duplicate_idempotency_key, new_internal_error, new_invalid_state_error,
}
use ficmart_payment_gateway.Failure.Category.{categorize_error, is_permanent}
use ficmart_payment_gateway.Domain.{Payment, Changed, fail}
use ficmart_payment_gateway.Bank.{BankResponse}
use ficmart_payment_gateway.Exec.{
  Result, ok, err, panic, Exec, ◌>>=◌, ◌>>◌, pure, raise, gets, or_fail, attempt, lift, round_trip,
  fresh_round_trip, atomically, from_answer,
}
use ficmart_payment_gateway.Postgres.Payments.{create, find_by_id_for_update, update, in_tx}
use ficmart_payment_gateway.Postgres.Keys.{acquire_lock, store_response, release_lock}

-- BeginTx and Commit
abbrev pub begin : Exec Unit
begin = or_fail new_internal_error fresh_round_trip

abbrev pub commit : Exec Unit
commit = or_fail new_internal_error round_trip

unfoldable pub acquire_idempotency_lock : Payment → String → String → Exec Unit
acquire_idempotency_lock p key request_hash = do
  begin
  atomically (do or_fail new_internal_error (create p); acquire_lock key p.id request_hash; commit)

abbrev pub keep_duplicate : Error → Error
keep_duplicate x = if is_error x duplicate_idempotency_key then x else new_internal_error x

-- A domain method's result: the payment as it is now, or its error as an invalid state.
abbrev pub accepted : Changed → Result Payment
accepted (p, none) = ok p
accepted (p, some x) = err (new_invalid_state_error x)

unfoldable pub mark_payment_transitioning :
    String → String → String → (Payment → Changed) → Exec Payment
mark_payment_transitioning payment_id key request_hash transition_fn = do
  begin
  atomically (do
    or_fail keep_duplicate (acquire_lock key payment_id request_hash)
    p ← or_fail new_internal_error (find_by_id_for_update payment_id)
    q ← lift (accepted (transition_fn p))
    or_fail new_internal_error (update in_tx q)
    commit
    pure q)

-- HandleBankFailure's transaction.
unfoldable pub record_failure : Payment → String → Error → Exec Unit
record_failure p key bank_err = do
  begin
  atomically (do
    or_fail new_internal_error (update in_tx p)
    payload ←
        or_fail new_internal_error
          (gets (λ e db. e.marshal_error bank_err) >>= λ a. lift (from_answer a))
    or_fail new_internal_error (store_response key payload)
    commit)

abbrev pub error_after : Error → Result Unit → Option Error
error_after bank_err (ok _) = some bank_err
error_after bank_err (err x) = some x
error_after bank_err panic = none

-- HandleBankFailure after payment.Fail(). The payment is the caller's object, so it comes back as
-- Fail has left it.
unfoldable pub fail_payment : Changed → String → Error → Exec (Payment × Option Error)
unfolding record_failure
fail_payment (p, some x) key bank_err = pure (p, some (new_invalid_state_error x))
fail_payment (p, none) key bank_err = do
  r ← attempt (record_failure p key bank_err)
  pure (p, error_after bank_err r)

unfoldable pub handle_bank_failure : Payment → String → Error → Exec (Payment × Option Error)
unfolding fail_payment
handle_bank_failure p key bank_err =
    if is_permanent (categorize_error (some bank_err))
    then fail_payment (fail p) key bank_err
    else pure (p, some bank_err)

unfoldable pub finalize_payment : Payment → String → BankResponse → Exec Unit
finalize_payment p key response = do
  begin
  atomically (do
    or_fail new_internal_error (update in_tx p)
    payload ←
        or_fail new_internal_error
          (gets (λ e db. e.marshal_response response) >>= λ a. lift (from_answer a))
    or_fail new_internal_error (store_response key payload)
    or_fail new_internal_error (release_lock key)
    commit)

-- `return payment, HandleBankFailure(…)`
abbrev pub report : Payment × Option Error → Exec Payment
report (p, none) = pure p
report (p, some x) = raise x

unfoldable pub bank_failed : Payment → String → Error → Exec Payment
unfolding handle_bank_failure
bank_failed p key bank_err = handle_bank_failure p key bank_err >>= report

-- What the services do with a payment that the bank has answered for.
unfoldable pub finish : Changed → String → BankResponse → Exec Payment
unfolding finalize_payment
finish c key response = do q ← lift (accepted c); finalize_payment q key response; pure q
