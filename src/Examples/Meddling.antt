-- ===== src/Examples/Meddling.antt =====
-- The services, run while other workers write: before each statement, transaction or call of the
-- bank, every payment that is being captured or voided is stored as expired, and every pending one
-- as failed, as the blind writes of internal/worker may do.
use ficmart_payment_gateway.Prelude.{none, some, List, [], ◌∷◌, ◌≡◌, refl, All, arith, map}
use ficmart_payment_gateway.Failure.{Error}
use ficmart_payment_gateway.Domain.{
  Payment, Status, pending, capturing, voiding, captured, refunding, expired, failed,
}
use ficmart_payment_gateway.Domain.Invariant.{IsWellFormed}
use ficmart_payment_gateway.Store.{Db}
use ficmart_payment_gateway.Exec.{Env, Exec, World, Sent}
use ficmart_payment_gateway.Exec.Triple.{Pred, Ends}
use ficmart_payment_gateway.Exec.Fair.{KeysStay, RowsStayWellFormed, FaultsAreHonest}
use ficmart_payment_gateway.Services.Intent.{Sound, Served}
use ficmart_payment_gateway.Services.Authorize.{authorize}
use ficmart_payment_gateway.Services.Authorize.Ensures.{authorize-Served}
use ficmart_payment_gateway.Services.Capture.{capture}
use ficmart_payment_gateway.Services.Capture.Ensures.{capture-Served}
use ficmart_payment_gateway.Services.Void.{void}
use ficmart_payment_gateway.Services.Void.Ensures.{void-Served}
use ficmart_payment_gateway.Services.Refund.{refund}
use ficmart_payment_gateway.Services.Refund.Ensures.{refund-Served}
use ficmart_payment_gateway.Examples.{
  captured_start, captured_start-Sound, calm, order_command, start, start-Sound,
}

abbrev written_over : Status → Status
written_over pending = failed
written_over capturing = expired
written_over voiding = expired
written_over t = t

abbrev write_over : List Payment → List Payment
write_over [] = []
write_over (p ∷ ps) = record p { status = written_over p.status } ∷ write_over ps

abbrev meddling : Env
meddling = record calm { others = λ n d. record d { payments = write_over d.payments } }

written_over-IsWellFormed :
    (p : Payment) → IsWellFormed p → IsWellFormed (record p { status = written_over p.status })
written_over-IsWellFormed p h = ground arith

meddling_rows : RowsStayWellFormed meddling
meddling_rows n d h = kept d.payments h
  where
    kept : (ps : List Payment) → All IsWellFormed ps → All IsWellFormed (write_over ps)
    kept [] h = tt
    kept (p ∷ ps) h = (written_over-IsWellFormed p h.0, kept ps h.1)

meddling_honest : FaultsAreHonest meddling
meddling_honest n x h = cc

meddling_keys : KeysStay meddling
meddling_keys n k d h = h

-- How the action ends when it is run beside the writers.
abbrev RunsBeside : World → {A : Type 0} → Exec A → (A → Pred) → (Error → Pred) → Type 0
RunsBeside w m Q E = Ends Q E (m meddling w).0 (m meddling w).1.db (m meddling w).1.sent

authorize-Served_example : RunsBeside start (authorize order_command "k2") Served (λ _. Sound)
authorize-Served_example =
    (authorize-Served meddling meddling_honest meddling_rows meddling_keys order_command "k2").at
      start start-Sound

capture-Served_example : RunsBeside start (capture "p1" "k2") Served (λ _. Sound)
capture-Served_example =
    (capture-Served meddling meddling_honest meddling_rows meddling_keys "p1" "k2").at start
      start-Sound

void-Served_example : RunsBeside start (void "p1" "k2") Served (λ _. Sound)
void-Served_example =
    (void-Served meddling meddling_honest meddling_rows meddling_keys "p1" "k2").at start
      start-Sound

refund-Served_example : RunsBeside captured_start (refund "p1" "k2") Served (λ _. Sound)
refund-Served_example =
    (refund-Served meddling meddling_honest meddling_rows meddling_keys "p1" "k2").at captured_start
      captured_start-Sound

abbrev statuses : Db → List Status
statuses d = map (λ p. p.status) d.payments

-- The states of the payments that the service had committed before each call, and those that are
-- stored when the bank is called.
abbrev around_calls : List Sent → List (List Status × List Status)
around_calls s = map (λ r. (statuses r.seen, statuses r.at)) s

-- The payment was marked, and another's write comes before the bank's call.
capture_meddled_test :
    around_calls (capture "p1" "k2" meddling start).1.sent ≡ (capturing ∷ [], expired ∷ []) ∷ []
unfolding capture ficmart_payment_gateway.Exec.◌>>=◌ ficmart_payment_gateway.Exec.gets
    ficmart_payment_gateway.Exec.or_fail ficmart_payment_gateway.Postgres.Keys.find_by_key
    ficmart_payment_gateway.Exec.attempt ficmart_payment_gateway.Exec.fresh_round_trip
    ficmart_payment_gateway.Exec.pure ficmart_payment_gateway.Exec.atomically
    ficmart_payment_gateway.Postgres.Keys.acquire_lock ficmart_payment_gateway.Exec.ask
    ficmart_payment_gateway.Exec.write ficmart_payment_gateway.Store.find_payment
    ficmart_payment_gateway.Store.find_key
    ficmart_payment_gateway.Postgres.Payments.find_by_id_for_update
    ficmart_payment_gateway.Exec.lift ficmart_payment_gateway.Postgres.Payments.update
    ficmart_payment_gateway.Postgres.Payments.rows_affected
    ficmart_payment_gateway.Domain.can_transition_to ficmart_payment_gateway.Domain.capture
    ficmart_payment_gateway.Domain.fail ficmart_payment_gateway.Domain.mark_capturing
    ficmart_payment_gateway.Domain.transition ficmart_payment_gateway.Exec.deref
    ficmart_payment_gateway.Exec.raise ficmart_payment_gateway.Exec.round_trip
    ficmart_payment_gateway.Exec.send ficmart_payment_gateway.Postgres.Keys.release_lock
    ficmart_payment_gateway.Postgres.Keys.row_or_nil
    ficmart_payment_gateway.Postgres.Keys.store_response
    ficmart_payment_gateway.Postgres.Payments.query_row
    ficmart_payment_gateway.Postgres.Payments.scan_payment
    ficmart_payment_gateway.Postgres.Payments.touch ficmart_payment_gateway.Prelude.Text.equal_fold
    ficmart_payment_gateway.Services.Capture.after_bank
    ficmart_payment_gateway.Services.Capture.after_check
    ficmart_payment_gateway.Services.Capture.after_mark
    ficmart_payment_gateway.Services.Capture.call_bank
    ficmart_payment_gateway.Services.Idempotency.check_idempotency
    ficmart_payment_gateway.Services.Idempotency.check_row
    ficmart_payment_gateway.Services.Idempotency.compute_hash
    ficmart_payment_gateway.Services.Transactions.finalize_payment
    ficmart_payment_gateway.Services.Transactions.finish
    ficmart_payment_gateway.Services.Transactions.mark_payment_transitioning
    ficmart_payment_gateway.Store.update_keys ficmart_payment_gateway.Store.update_rows
capture_meddled_test = refl

refund_meddled_test :
    around_calls (refund "p1" "k2" meddling captured_start).1.sent
    ≡ (refunding ∷ [], refunding ∷ []) ∷ []
unfolding refund ficmart_payment_gateway.Exec.◌>>=◌ ficmart_payment_gateway.Exec.gets
    ficmart_payment_gateway.Exec.or_fail ficmart_payment_gateway.Postgres.Keys.find_by_key
    ficmart_payment_gateway.Exec.attempt ficmart_payment_gateway.Exec.fresh_round_trip
    ficmart_payment_gateway.Exec.pure ficmart_payment_gateway.Exec.atomically
    ficmart_payment_gateway.Postgres.Keys.acquire_lock ficmart_payment_gateway.Exec.ask
    ficmart_payment_gateway.Exec.write ficmart_payment_gateway.Store.find_payment
    ficmart_payment_gateway.Store.find_key
    ficmart_payment_gateway.Postgres.Payments.find_by_id_for_update
    ficmart_payment_gateway.Exec.lift ficmart_payment_gateway.Postgres.Payments.update
    ficmart_payment_gateway.Postgres.Payments.rows_affected
    ficmart_payment_gateway.Domain.can_transition_to ficmart_payment_gateway.Domain.refund
    ficmart_payment_gateway.Domain.fail ficmart_payment_gateway.Domain.mark_refunding
    ficmart_payment_gateway.Domain.transition ficmart_payment_gateway.Exec.deref
    ficmart_payment_gateway.Exec.raise ficmart_payment_gateway.Exec.round_trip
    ficmart_payment_gateway.Exec.send ficmart_payment_gateway.Postgres.Keys.release_lock
    ficmart_payment_gateway.Postgres.Keys.row_or_nil
    ficmart_payment_gateway.Postgres.Keys.store_response
    ficmart_payment_gateway.Postgres.Payments.query_row
    ficmart_payment_gateway.Postgres.Payments.scan_payment
    ficmart_payment_gateway.Postgres.Payments.touch ficmart_payment_gateway.Prelude.Text.equal_fold
    ficmart_payment_gateway.Services.Refund.after_bank
    ficmart_payment_gateway.Services.Refund.after_check
    ficmart_payment_gateway.Services.Refund.after_mark
    ficmart_payment_gateway.Services.Refund.call_bank
    ficmart_payment_gateway.Services.Idempotency.check_idempotency
    ficmart_payment_gateway.Services.Idempotency.check_row
    ficmart_payment_gateway.Services.Idempotency.compute_hash
    ficmart_payment_gateway.Services.Transactions.finalize_payment
    ficmart_payment_gateway.Services.Transactions.finish
    ficmart_payment_gateway.Services.Transactions.mark_payment_transitioning
    ficmart_payment_gateway.Store.update_keys ficmart_payment_gateway.Store.update_rows
refund_meddled_test = refl

void_meddled_test :
    around_calls (void "p1" "k2" meddling start).1.sent ≡ (voiding ∷ [], expired ∷ []) ∷ []
unfolding void ficmart_payment_gateway.Exec.◌>>=◌ ficmart_payment_gateway.Exec.gets
    ficmart_payment_gateway.Exec.or_fail ficmart_payment_gateway.Postgres.Keys.find_by_key
    ficmart_payment_gateway.Exec.attempt ficmart_payment_gateway.Exec.fresh_round_trip
    ficmart_payment_gateway.Exec.pure ficmart_payment_gateway.Exec.atomically
    ficmart_payment_gateway.Postgres.Keys.acquire_lock ficmart_payment_gateway.Exec.ask
    ficmart_payment_gateway.Exec.write ficmart_payment_gateway.Store.find_payment
    ficmart_payment_gateway.Store.find_key
    ficmart_payment_gateway.Postgres.Payments.find_by_id_for_update
    ficmart_payment_gateway.Exec.lift ficmart_payment_gateway.Postgres.Payments.update
    ficmart_payment_gateway.Postgres.Payments.rows_affected
    ficmart_payment_gateway.Domain.can_transition_to ficmart_payment_gateway.Domain.void
    ficmart_payment_gateway.Domain.fail ficmart_payment_gateway.Domain.mark_voiding
    ficmart_payment_gateway.Domain.transition ficmart_payment_gateway.Exec.deref
    ficmart_payment_gateway.Exec.raise ficmart_payment_gateway.Exec.round_trip
    ficmart_payment_gateway.Exec.send ficmart_payment_gateway.Postgres.Keys.release_lock
    ficmart_payment_gateway.Postgres.Keys.row_or_nil
    ficmart_payment_gateway.Postgres.Keys.store_response
    ficmart_payment_gateway.Postgres.Payments.query_row
    ficmart_payment_gateway.Postgres.Payments.scan_payment
    ficmart_payment_gateway.Postgres.Payments.touch ficmart_payment_gateway.Prelude.Text.equal_fold
    ficmart_payment_gateway.Services.Void.after_bank
    ficmart_payment_gateway.Services.Void.after_check
    ficmart_payment_gateway.Services.Void.after_mark ficmart_payment_gateway.Services.Void.call_bank
    ficmart_payment_gateway.Services.Idempotency.check_idempotency
    ficmart_payment_gateway.Services.Idempotency.check_row
    ficmart_payment_gateway.Services.Idempotency.compute_hash
    ficmart_payment_gateway.Services.Transactions.finalize_payment
    ficmart_payment_gateway.Services.Transactions.finish
    ficmart_payment_gateway.Services.Transactions.mark_payment_transitioning
    ficmart_payment_gateway.Store.update_keys ficmart_payment_gateway.Store.update_rows
void_meddled_test = refl
