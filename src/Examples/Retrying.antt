-- ===== src/Examples/Retrying.antt =====
-- The client that repeats calls, run.
use ficmart_payment_gateway.Prelude.{
  ℕ, zero, suc, ◌≤◌, ◌<◌, ◌≡◌, refl, true, none, some, length, arith, String,
}
use ficmart_payment_gateway.Prelude.Integer.{pos}
use ficmart_payment_gateway.Failure.{Error, BankError, bank_error}
use ficmart_payment_gateway.Bank.Retry.{
  RetryBankClient, Outside, reply, fault, exhausted, is_retryable, retry,
}
use ficmart_payment_gateway.Bank.Retry.Bounds.{
  Continues, Ends, retry_bound, retry_first_final, retry_exhausts,
}

abbrev three_tries : RetryBankClient
three_tries = record { base_delay = pos 1000000000; max_retries = pos 3 }

abbrev unavailable : Error
unavailable = bank_error (record { code = "unavailable"; message = "try again"; status_code = 503 })

-- Unavailable twice, then an answer.
abbrev recovering : Outside String
recovering = record {
  cancelled = λ n. none;
  operation = elim [
    | zero ↦ fault unavailable
    | suc zero ↦ fault unavailable
    | suc (suc _) ↦ reply "done"
  ];
  draw = λ n. 5;
}

abbrev broken : Outside String
broken = record { cancelled = λ n. none; operation = λ n. fault unavailable; draw = λ n. 5 }

unavailable_retryable : is_retryable unavailable ≡ true
unfolding is_retryable ficmart_payment_gateway.Failure.as_bank_error
unavailable_retryable = refl

recovering_before : (k : ℕ) → k < 2 → Continues three_tries recovering k unavailable
recovering_before zero lt = record {
  alive = refl;
  failed = refl;
  transient = unavailable_retryable;
}
recovering_before (suc zero) lt = record {
  alive = refl;
  failed = refl;
  transient = unavailable_retryable;
}
recovering_before (suc (suc n)) lt = absurd (omega arith)

recovering-ends : Ends three_tries recovering 2 (reply "done")
recovering-ends = record { alive = refl; answered = refl; final = refl }

broken_before : (k : ℕ) → k < 3 → Continues three_tries broken k unavailable
broken_before k lt = record { alive = refl; failed = refl; transient = unavailable_retryable }

retry_bound_example : (retry three_tries recovering).calls ≤ 3
retry_bound_example = retry_bound three_tries recovering

retry_first_final_example :
    ((retry three_tries recovering).answer ≡ reply "done")
    × ((retry three_tries recovering).calls ≡ 3)
retry_first_final_example =
    retry_first_final three_tries recovering (λ n. unavailable) 2 (reply "done") (omega arith)
      recovering_before recovering-ends

retry_exhausts_example :
    ((retry three_tries broken).answer ≡ fault (exhausted (some unavailable)))
    × ((retry three_tries broken).calls ≡ 3)
    × (length (retry three_tries broken).sleeps ≡ 2)
retry_exhausts_example = retry_exhausts three_tries broken (λ n. unavailable) 2 refl broken_before
