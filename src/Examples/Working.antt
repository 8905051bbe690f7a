-- ===== src/Examples/Working.antt =====
-- The workers and the requests that come again, run.
use ficmart_payment_gateway.Prelude.{◌≡◌, refl, none, some, List, [], ◌∷◌, map, arith, ◌*◌}
use ficmart_payment_gateway.Prelude.Integer.{pos}
use ficmart_payment_gateway.Failure.{Error}
use ficmart_payment_gateway.Domain.{Status, Payment, capturing, voiding, refunding}
use ficmart_payment_gateway.Domain.Invariant.{IsWellFormed}
use ficmart_payment_gateway.Store.{IdempotencyKey, find_key, find_payment}
use ficmart_payment_gateway.Exec.{Exec, World, ok}
use ficmart_payment_gateway.Exec.Triple.{Pred, Ends}
use ficmart_payment_gateway.Services.Intent.{Sound, Marked}
use ficmart_payment_gateway.Services.Authorize.{authorize}
use ficmart_payment_gateway.Services.Capture.{capture}
use ficmart_payment_gateway.Services.Void.{void}
use ficmart_payment_gateway.Services.Refund.{refund}
use ficmart_payment_gateway.Services.Once.{Held}
use ficmart_payment_gateway.Services.Once.Opening.{serving_once}
use ficmart_payment_gateway.Worker.Backoff.{RetryWorker, calculate_backoff}
use ficmart_payment_gateway.Worker.Resume.{resume_capture, resume_void, resume_refund}
use ficmart_payment_gateway.Worker.Retries.{timeout_unauthorized_payments}
use ficmart_payment_gateway.Worker.Expiration.{process_expirations}
use ficmart_payment_gateway.Worker.Ensures.{timeout_unauthorized_payments-IsSafe}
use ficmart_payment_gateway.Worker.Ensures.Delays.{calculate_backoff_lem}
use ficmart_payment_gateway.Worker.Ensures.Expiring.{process_expirations-IsSafe}
use ficmart_payment_gateway.Worker.Retries.{Joined, join, is_stuck, stuck_row, stuck_payments}
use ficmart_payment_gateway.Worker.Ensures.Selecting.{Selection, stuck_payments-Selection}
use ficmart_payment_gateway.Worker.Ensures.Resuming.{resume_lem}
use ficmart_payment_gateway.Examples.{
  calm, calm_honest, calm_keys, calm_rows, order_command, order_payment, start, start-Sound,
}

-- How the action ends when it is run from a world.
abbrev RunsFrom : World → {A : Type 0} → Exec A → (A → Pred) → (Error → Pred) → Type 0
RunsFrom w m Q E = Ends Q E (m calm w).0 (m calm w).1.db (m calm w).1.sent

start-Held : Held "k1" [] start.db start.sent
unfolding find_key
start-Held = (refl, refl)

serving_once_example :
    RunsFrom start (authorize order_command "k1") (λ _. Held "k1" []) (λ _. Held "k1" [])
    × RunsFrom start (capture "p1" "k1") (λ _. Held "k1" []) (λ _. Held "k1" [])
    × RunsFrom start (void "p1" "k1") (λ _. Held "k1" []) (λ _. Held "k1" [])
    × RunsFrom start (refund "p1" "k1") (λ _. Held "k1" []) (λ _. Held "k1" [])
serving_once_example = (
  (serving_once calm calm_honest calm_keys "k1" [] order_command "p1").0.at start start-Held,
  (serving_once calm calm_honest calm_keys "k1" [] order_command "p1").1.at start start-Held,
  (serving_once calm calm_honest calm_keys "k1" [] order_command "p1").2.at start start-Held,
  (serving_once calm calm_honest calm_keys "k1" [] order_command "p1").3.at start start-Held,
)

abbrev worker : RetryWorker
worker = record {
  interval = pos 60000000000;
  batch_size = pos 10;
  max_retries = pos 5;
  max_backoff = pos 30;
}

abbrev stuck_key : IdempotencyKey
stuck_key = record {
  key = "k2";
  payment_id = "p1";
  request_hash = "hash";
  locked_at = some (pos 3);
  response_payload = none;
}

-- The payment has been left in the state of an operation.
abbrev stuck : Status → Payment
stuck t = record order_payment { status = t }

abbrev stuck_refund : Payment
stuck_refund = record order_payment {
  status = refunding;
  bank_capture_id = some "cap-1";
  captured_at = some (pos 3);
}

abbrev stuck_world : Payment → World
stuck_world p = record {
  db = record { payments = p ∷ []; keys = stuck_key ∷ [] };
  step = 0;
  sent = [];
}

stuck_capture-IsWellFormed : IsWellFormed (stuck capturing)
stuck_capture-IsWellFormed = ground arith

stuck_void-IsWellFormed : IsWellFormed (stuck voiding)
stuck_void-IsWellFormed = ground arith

stuck_refund-IsWellFormed : IsWellFormed stuck_refund
stuck_refund-IsWellFormed = ground arith

stuck_capture-Marked : Marked capturing "k2" (stuck capturing) (stuck_world (stuck capturing)).db []
unfolding find_key find_payment
stuck_capture-Marked = (
  ((stuck_capture-IsWellFormed, tt), tt),
  stuck_capture-IsWellFormed,
  refl,
  record { row = stuck_key; found = refl; locked = refl; owner = refl; stored = refl },
)

stuck_void-Marked : Marked voiding "k2" (stuck voiding) (stuck_world (stuck voiding)).db []
unfolding find_key find_payment
stuck_void-Marked = (
  ((stuck_void-IsWellFormed, tt), tt),
  stuck_void-IsWellFormed,
  refl,
  record { row = stuck_key; found = refl; locked = refl; owner = refl; stored = refl },
)

stuck_refund-Marked : Marked refunding "k2" stuck_refund (stuck_world stuck_refund).db []
unfolding find_key find_payment
stuck_refund-Marked = (
  ((stuck_refund-IsWellFormed, tt), tt),
  stuck_refund-IsWellFormed,
  refl,
  record { row = stuck_key; found = refl; locked = refl; owner = refl; stored = refl },
)

resume_lem_example :
    RunsFrom
      (stuck_world (stuck capturing))
      (resume_capture worker (stuck capturing) "k2")
      (λ _. Sound)
      (λ _. Sound)
    × RunsFrom
        (stuck_world (stuck voiding))
        (resume_void worker (stuck voiding) "k2")
        (λ _. Sound)
        (λ _. Sound)
    × RunsFrom
        (stuck_world stuck_refund)
        (resume_refund worker stuck_refund "k2")
        (λ _. Sound)
        (λ _. Sound)
resume_lem_example = (
  (resume_lem calm calm_honest calm_rows worker (stuck capturing) "k2").0.at
      (stuck_world (stuck capturing)) stuck_capture-Marked,
  (resume_lem calm calm_honest calm_rows worker (stuck voiding) "k2").1.at
      (stuck_world (stuck voiding)) stuck_void-Marked,
  (resume_lem calm calm_honest calm_rows worker stuck_refund "k2").2.at (stuck_world stuck_refund)
      stuck_refund-Marked,
)

timeout_unauthorized_payments-IsSafe_example :
    RunsFrom start timeout_unauthorized_payments (λ _. Sound) (λ _. Sound)
timeout_unauthorized_payments-IsSafe_example =
    (timeout_unauthorized_payments-IsSafe calm calm_honest calm_rows).at start start-Sound

process_expirations-IsSafe_example : RunsFrom start process_expirations (λ _. Sound) (λ _. Sound)
process_expirations-IsSafe_example =
    (process_expirations-IsSafe calm calm_honest calm_rows).at start start-Sound

-- No more than MaxBackoff after six.
calculate_backoff_lem_example : calculate_backoff worker 6 ≡ pos (30 * 60000000000)
calculate_backoff_lem_example = calculate_backoff_lem worker 6 30 (omega arith) (omega arith) refl

stuck_payments-Selection_example :
    (js : List Joined) × (stuck_payments worker (pos 70000000000) (stuck_world (stuck capturing)).db
      ≡ ok (map stuck_row js))
    × Selection worker (pos 70000000000) (stuck_world (stuck capturing)).db 10 js
stuck_payments-Selection_example =
    stuck_payments-Selection worker (pos 70000000000) (stuck_world (stuck capturing)).db 10 refl

-- The one stuck payment is selected.
stuck_test :
    stuck_payments worker (pos 70000000000) (stuck_world (stuck capturing)).db
    ≡ ok (record { id = "p1"; status = capturing; idempotency_key = "k2" } ∷ [])
unfolding stuck_payments is_stuck join ficmart_payment_gateway.Worker.Retries.join_one
    ficmart_payment_gateway.Postgres.Payments.where_rows
    ficmart_payment_gateway.Postgres.Payments.order_by
    ficmart_payment_gateway.Postgres.Payments.insert_ordered ficmart_payment_gateway.Domain.contains
    ficmart_payment_gateway.Prelude.Integer.◌-ℤ◌
stuck_test = refl
