-- ===== src/Worker/Retries.antt =====
-- internal/worker/retry_worker.go: ProcessRetries, timeoutUnauthorizedPayments and the loop.
--
-- The rows of a query are those of the moment it began. Reading on in the result may fail, which
-- ends the loop over the rows; the columns have the types of the variables, so Scan does not fail.
use ficmart_payment_gateway.Prelude.{
  ℕ, zero, suc, String, Bool, true, ◌&&◌, Option, none, some, List, [], ◌∷◌, ◌++◌, map, is_some,
  str_eq, if◌then◌else◌,
}
use ficmart_payment_gateway.Prelude.Integer.{pos, ltb_ℤ, leb_ℤ, ◌-ℤ◌}
use ficmart_payment_gateway.Failure.{wrap}
use ficmart_payment_gateway.Domain.{
  Payment, Time, pending, capturing, voiding, refunding, same_status, contains, fail,
}
use ficmart_payment_gateway.Store.{IdempotencyKey, Db}
use ficmart_payment_gateway.Exec.{
  Result, ok, err, panic, Exec, ◌>>=◌, ◌>>◌, pure, gets, ask, or_fail, attempt, lift, round_trip,
  fresh_round_trip,
}
use ficmart_payment_gateway.Postgres.Payments.{
  where_rows, order_by, window, is_before, find_by_id, update, on_pool,
}
use ficmart_payment_gateway.Worker.Backoff.{RetryWorker}
use ficmart_payment_gateway.Worker.Resume.{StuckPayment, retry_payment}

-- payments p JOIN idempotency_keys i ON p.id = i.payment_id
abbrev pub Joined : Type 0
Joined = Payment × IdempotencyKey

unfoldable pub join_one : Payment → List IdempotencyKey → List Joined
join_one p [] = []
join_one p (i ∷ is) =
    let rest = join_one p is in if str_eq p.id i.payment_id then (p, i) ∷ rest else rest

unfoldable pub join : List Payment → List IdempotencyKey → List Joined
unfolding join_one
join [] is = []
join (p ∷ ps) is = join_one p is ++ join ps is

abbrev pub due : Option Time → Time → Bool
due none now = true
due (some t) now = leb_ℤ t now

-- The WHERE of ProcessRetries.
unfoldable pub is_stuck : RetryWorker → Time → Joined → Bool
unfolding contains
is_stuck w now (p, i) =
    contains (capturing ∷ voiding ∷ refunding ∷ []) p.status
    && due p.next_retry_at now
    && ltb_ℤ (pos p.attempt_count) w.max_retries
    && is_before i.locked_at (now -ℤ w.interval)

abbrev pub stuck_row : Joined → StuckPayment
stuck_row (p, i) = record { id = p.id; status = p.status; idempotency_key = i.key }

abbrev pub before_payment : Joined → Joined → Bool
before_payment (p, i) (q, j) = leb_ℤ p.created_at q.created_at

abbrev pub fetched : Result (List Joined) → Result (List StuckPayment)
fetched (ok rows) = ok (map stuck_row rows)
fetched (err x) = err x
fetched panic = panic

unfoldable pub stuck_payments : RetryWorker → Time → Db → Result (List StuckPayment)
unfolding is_stuck join where_rows order_by
stuck_payments w now db = fetched (
    window w.batch_size (pos 0)
      (order_by before_payment (where_rows (is_stuck w now) (join db.payments db.keys))))

-- The loop over the rows: an error of one payment is logged; the last step is rows.Err.
unfoldable pub process_rows : RetryWorker → List StuckPayment → Exec Unit
unfolding retry_payment
process_rows w [] = round_trip
process_rows w (sp ∷ rest) = do round_trip; _ ← attempt (retry_payment w sp); process_rows w rest

unfoldable pub process_retries : RetryWorker → Exec Unit
unfolding process_rows stuck_payments
process_retries w = do
  or_fail (wrap "query stuck payments") fresh_round_trip
  now ← ask (λ e n. e.now n)
  found ← gets (λ e db. stuck_payments w now db)
  rows ← lift found
  process_rows w rows

abbrev pub ten_minutes : Time
ten_minutes = pos 600000000000

-- The WHERE of timeoutUnauthorizedPayments.
unfoldable pub is_orphan : Time → Joined → Bool
is_orphan now (p, i) =
    same_status p.status pending && ltb_ℤ p.created_at (now -ℤ ten_minutes) && is_some i.locked_at

abbrev pub row_id : Joined → String
row_id (p, i) = p.id

-- FindByID's result: an error goes on with the next row. The error of Fail is only logged, and the
-- payment is written either way.
unfoldable pub give_up : Exec Unit → Result Payment → Exec Unit
unfolding fail update
give_up again (ok p) = do update on_pool (fail p).0; again
give_up again (err x) = again
give_up again panic = lift panic

-- rows.Next: where it fails the loop ends, and rows.Err is not looked at.
unfoldable pub after_next : String → Exec Unit → Result Unit → Exec Unit
unfolding give_up find_by_id
after_next id again (ok _) = attempt (find_by_id id) >>= give_up again
after_next id again (err x) = pure tt
after_next id again panic = lift panic

unfoldable pub timeout_rows : List String → Exec Unit
unfolding after_next
timeout_rows [] = pure tt
timeout_rows (id ∷ rest) = attempt round_trip >>= after_next id (timeout_rows rest)

unfoldable pub timeout_unauthorized_payments : Exec Unit
unfolding timeout_rows is_orphan join where_rows
timeout_unauthorized_payments = do
  fresh_round_trip
  now ← ask (λ e n. e.now n)
  ids ← gets (λ e db. map row_id (where_rows (is_orphan now) (join db.payments db.keys)))
  timeout_rows ids

-- Start, for as many ticks as come before the context is done.
unfoldable pub start : RetryWorker → ℕ → Exec Unit
unfolding process_retries timeout_unauthorized_payments
start w zero = pure tt
start w (suc ticks) = do
  _ ← attempt (process_retries w)
  _ ← attempt timeout_unauthorized_payments
  start w ticks
