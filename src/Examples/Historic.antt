-- ===== src/Examples/Historic.antt =====
-- Several requests, repeated requests and recovered payments, run.
use ficmart_payment_gateway.Prelude.{◌≡◌, refl, Bool, true, false, none, some, List, [], ◌∷◌}
use ficmart_payment_gateway.Prelude.Integer.{pos}
use ficmart_payment_gateway.Prelude.Text.{equal_fold}
use ficmart_payment_gateway.Failure.{Error}
use ficmart_payment_gateway.Domain.{Payment, capturing}
use ficmart_payment_gateway.Bank.{CaptureResponse, RefundResponse, capture_call, refund_call}
use ficmart_payment_gateway.Store.{IdempotencyKey, find_key, find_payment}
use ficmart_payment_gateway.Exec.{Exec, World, ◌>>=◌}
use ficmart_payment_gateway.Exec.Triple.{Pred, Ends}
use ficmart_payment_gateway.Services.Capture.{capture, capture_request}
use ficmart_payment_gateway.Services.Refund.{refund, refund_request}
use ficmart_payment_gateway.Services.History.Steps.{Orderly}
use ficmart_payment_gateway.Services.History.Requests.{
  Request, authorizing, capturing_of, voiding_of, refunding_of, serve_all, at_most_once,
}
use ficmart_payment_gateway.Services.Quiet.{IsQuiet, Never}
use ficmart_payment_gateway.Services.Quiet.Moving.{Before, Stage}
use ficmart_payment_gateway.Services.Quiet.Entity.{captured_as, refunded_as}
use ficmart_payment_gateway.Services.Quiet.Replay.{capture_twice, refund_twice}
use ficmart_payment_gateway.Worker.Backoff.{RetryWorker}
use ficmart_payment_gateway.Worker.Resume.{retry_payment}
use ficmart_payment_gateway.Worker.Ensures.Recovering.{capture_recovered}
use ficmart_payment_gateway.Examples.{
  captured_payment, captured_start, calm, calm_honest, calm_keys, calm_rows, order_command,
  order_payment, start, start-Sound,
}

abbrev RunsFrom : {A : Type 0} → World → Exec A → (A → Pred) → (Error → Pred) → Type 0
RunsFrom w m Q E = Ends Q E (m calm w).0 (m calm w).1.db (m calm w).1.sent

-- Two captures under one key, a void and a refund under others, and an authorization.
abbrev five_requests : List Request
five_requests =
    capturing_of "p1" "k2"
    ∷ capturing_of "p1" "k2"
    ∷ voiding_of "p1" "k3"
    ∷ refunding_of "p1" "k4"
    ∷ authorizing order_command "k5"
    ∷ []

at_most_once_example : RunsFrom start (serve_all five_requests) (λ _. Orderly) (λ x d s. ⊥)
at_most_once_example =
    (at_most_once calm calm_honest calm_rows calm_keys five_requests).at start
      (start-Sound, (tt, tt))

calm-IsQuiet : IsQuiet calm
calm-IsQuiet = record { no_fault = λ n. refl; alone = λ n d. refl }

-- What the bank of the small world answers to the capture.
abbrev order_captured : CaptureResponse
order_captured = record {
  amount = pos 5000;
  currency = "USD";
  authorization_id = "auth-1";
  capture_id = "cap-1";
  status = "captured";
  captured_at = pos 30;
}

start-Before : Before "p1" "k2" order_payment [] start.db start.sent
unfolding find_key find_payment
start-Before = record { found = refl; calls = refl; absent = refl }

unexpired : equal_fold order_captured.status "authorization_expired" ≡ false
unfolding equal_fold
unexpired = refl

abbrev CapturedOnce : Bool → Pred
CapturedOnce b =
    Stage "p1" "k2" "hash" (captured_as order_payment order_captured)
      (capture_call (capture_request order_payment "auth-1") "k2" ∷ []) b (some "{}")

capture_twice_example :
    RunsFrom start
      (capture "p1" "k2" >>= λ _. capture "p1" "k2")
      (λ q d s. CapturedOnce false d s × (q ≡ captured_as order_payment order_captured))
      Never
capture_twice_example =
    (capture_twice calm-IsQuiet 2 refl (λ k. refl) "p1" "k2" order_payment [] "auth-1" "{}"
        order_captured refl refl refl unexpired (λ k. refl) refl).at
      start start-Before

abbrev night_worker : RetryWorker
night_worker = record {
  interval = pos 60000000000;
  batch_size = pos 10;
  max_retries = pos 5;
  max_backoff = pos 30;
}

abbrev left_key : IdempotencyKey
left_key = record {
  key = "k2";
  payment_id = "p1";
  request_hash = "hash";
  locked_at = some (pos 3);
  response_payload = none;
}

abbrev left_payment : Payment
left_payment = record order_payment { status = capturing }

-- The tables as a crash before the bank's answer leaves them.
abbrev after_crash : World
after_crash = record {
  db = record { payments = left_payment ∷ []; keys = left_key ∷ [] };
  step = 0;
  sent = [];
}

after_crash-Stage : Stage "p1" "k2" "hash" left_payment [] true none after_crash.db after_crash.sent
unfolding find_key find_payment
after_crash-Stage = record {
  found = refl;
  calls = refl;
  keyed = record {
    row = left_key;
    found = refl;
    owner = refl;
    hashed = refl;
    locked = refl;
    stored = refl;
  };
}

capture_recovered_example :
    RunsFrom after_crash
      (retry_payment night_worker
        (record { id = "p1"; status = capturing; idempotency_key = "k2" }))
      (λ _. CapturedOnce false)
      Never
capture_recovered_example =
    (capture_recovered calm-IsQuiet night_worker "p1" "k2" "hash" order_payment [] "auth-1" "{}"
        order_captured refl refl unexpired (λ n. refl) refl).at
      after_crash after_crash-Stage

abbrev order_refunded : RefundResponse
order_refunded = record {
  amount = pos 5000;
  currency = "USD";
  status = "refunded";
  capture_id = "cap-1";
  refund_id = "ref-1";
  refunded_at = pos 40;
}

captured_start-Before : Before "p1" "k2" captured_payment [] captured_start.db captured_start.sent
unfolding find_key find_payment
captured_start-Before = record { found = refl; calls = refl; absent = refl }

refund_twice_example :
    RunsFrom captured_start
      (refund "p1" "k2" >>= λ _. refund "p1" "k2")
      (λ q d s.
        Stage "p1" "k2" "hash"
          (refunded_as captured_payment order_refunded)
          (refund_call (refund_request captured_payment "cap-1") "k2" ∷ [])
          false
          (some "{}")
          d
          s
        × (q ≡ refunded_as captured_payment order_refunded))
      Never
refund_twice_example =
    (refund_twice calm-IsQuiet 2 refl (λ k. refl) "p1" "k2" captured_payment [] "cap-1" "{}"
        order_refunded refl refl refl (λ k. refl) refl).at
      captured_start captured_start-Before
