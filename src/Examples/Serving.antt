-- ===== src/Examples/Serving.antt =====
-- The services, run.
use ficmart_payment_gateway.Prelude.{some, ◌≡◌, refl, some}
use ficmart_payment_gateway.Failure.{Error, bank_error}
use ficmart_payment_gateway.Domain.{capturing, mark_capturing}
use ficmart_payment_gateway.Store.{find_key}
use ficmart_payment_gateway.Exec.{Exec}
use ficmart_payment_gateway.Exec.Triple.{Pred, Ends}
use ficmart_payment_gateway.Services.Idempotency.{wait_for_completion, check_idempotency}
use ficmart_payment_gateway.Services.Idempotency.Waiting.{
  KeyIn, Stored, Cached, Triple-wait_for_completion, Triple-check_idempotency,
}
use ficmart_payment_gateway.Services.Idempotency.Refusing.{
  IsBadOrInternal, check_idempotency-Refusal, check_idempotency_mismatch,
}
use ficmart_payment_gateway.Services.Intent.{Sound, Marked, mark_capturing-MovesTo}
use ficmart_payment_gateway.Services.Transactions.{mark_payment_transitioning, bank_failed}
use ficmart_payment_gateway.Services.Transactions.Ensures.{
  Refused, Triple-mark_payment_transitioning,
}
use ficmart_payment_gateway.Services.Transactions.Settle.{Triple-bank_failed}
use ficmart_payment_gateway.Examples.{
  authorization_key, calm, calm_honest, calm_keys, calm_rows, order_payment,
  order_payment-IsWellFormed, start, start-Sound,
}

-- How the action ends when it is run from the small world.
abbrev RunsTo : {A : Type 0} → Exec A → (A → Pred) → (Error → Pred) → Type 0
RunsTo m Q E = Ends Q E (m calm start).0 (m calm start).1.db (m calm start).1.sent

abbrev decline : Error
decline = bank_error (record { code = "insufficient_funds"; message = "no"; status_code = 402 })

Triple-mark_payment_transitioning_example :
    RunsTo
      (mark_payment_transitioning "p1" "k2" "hash" mark_capturing)
      (Marked capturing "k2")
      (Refused "k2")
Triple-mark_payment_transitioning_example =
    (Triple-mark_payment_transitioning calm calm_honest calm_rows capturing "p1" "k2" "hash"
        mark_capturing mark_capturing-MovesTo).at
      start start-Sound

Triple-bank_failed_example :
    RunsTo (bank_failed order_payment "k1" decline) (λ q d s. ⊥) (λ _. Sound)
Triple-bank_failed_example =
    (Triple-bank_failed calm calm_honest calm_rows order_payment "k1" decline
        order_payment-IsWellFormed).at
      start start-Sound

key_there : KeyIn "k1" start.db start.sent
unfolding find_key
key_there = refl

waiting_test :
    RunsTo (wait_for_completion "k1") (λ p d s. KeyIn "k1" d s × Stored p d s) (λ _. KeyIn "k1")
waiting_test =
    (Triple-wait_for_completion calm (KeyIn "k1") "k1" calm_honest (λ n d s h. h) (λ d s h. h)).at
      start key_there

Triple-check_idempotency_example :
    RunsTo (check_idempotency "k1" "hash") (λ p d s. Sound d s × Cached p d s) (λ _. Sound)
Triple-check_idempotency_example =
    (Triple-check_idempotency calm Sound "k1" "hash" calm_honest calm_keys (λ n d s h. h)).at start
      start-Sound

check_idempotency-Refusal_example :
    RunsTo (check_idempotency "k1" "hash") (λ o. Sound) (λ x d s. Sound d s × IsBadOrInternal x)
check_idempotency-Refusal_example =
    (check_idempotency-Refusal calm Sound "k1" "hash" calm_honest calm_keys (λ n d s h. h)).at start
      start-Sound

-- The key's row is the one of the small world, whose hash is another.
abbrev IsForeign : Pred
IsForeign d s = find_key "k1" d.keys ≡ some authorization_key

check_idempotency_mismatch_example :
    RunsTo
      (check_idempotency "k1" "other")
      (λ p d s. ⊥)
      (λ x d s. IsForeign d s × IsBadOrInternal x)
unfolding find_key
check_idempotency_mismatch_example =
    (check_idempotency_mismatch calm IsForeign "k1" "other" calm_honest calm_keys (λ n d s h. h)
        (λ d s h. (authorization_key, h, refl))).at
      start refl
