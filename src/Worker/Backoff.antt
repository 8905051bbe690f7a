-- ===== src/Worker/Backoff.antt =====
-- internal/worker/helpers.go: calculateBackoff and scheduleRetry, and the settings of
-- retry_worker.go. The repositories, the bank and the clock are the environment's.
use ficmart_payment_gateway.Prelude.{ℕ}
use ficmart_payment_gateway.Prelude.Integer.{ℤ, pos, min_ℤ, ◌*ℤ◌, to_int64}
use ficmart_payment_gateway.Domain
use ficmart_payment_gateway.Domain.{Payment, Time}
use ficmart_payment_gateway.Bank.Retry.{shift_left_one}
use ficmart_payment_gateway.Exec.{Exec, ◌>>=◌, ask}
use ficmart_payment_gateway.Postgres.Payments.{update, on_pool}

pub record RetryWorker : Type 0 where
  pub interval : Time
  pub batch_size : ℤ
  pub max_retries : ℤ
  pub max_backoff : ℤ

abbrev pub minute : Time
minute = pos 60000000000

unfoldable pub calculate_backoff : RetryWorker → ℕ → Time
calculate_backoff w attempt_count =
    to_int64 (min_ℤ (shift_left_one attempt_count) w.max_backoff *ℤ minute)

unfoldable pub schedule_retry : RetryWorker → Payment → Exec Unit
unfolding Domain.schedule_retry calculate_backoff
schedule_retry w p = do
  now ← ask (λ e n. e.now n)
  update on_pool (Domain.schedule_retry p now (calculate_backoff w p.attempt_count))
