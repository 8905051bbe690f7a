-- ===== src/Bank/Retry.antt =====
-- internal/infrastructure/bank/retry.go: the client that repeats a call of the inner client.
use ficmart_payment_gateway.Prelude.{
  ℕ, zero, suc, ◌+◌, ◌-◌, ◌*◌, ◌^◌, String, Bool, true, false, Option, none, some, List, [], ◌∷◌,
  leb, ltb, str_eq, if◌then◌else◌,
}
use ficmart_payment_gateway.Prelude.Integer.{
  ℤ, pos, pos_part, ltb_ℤ, ◌+ℤ◌, ◌-ℤ◌, ◌*ℤ◌, wrap_int64, to_int64,
}
use ficmart_payment_gateway.Failure.{
  Error, BankError, wrap, plain, sentinel, is_error, as_bank_error, deadline_exceeded,
}
use ficmart_payment_gateway.Domain.{Time}
pub mod Bounds

-- isRetryable of the bank package
unfoldable pub is_retryable : Error → Bool
is_retryable e = elim (as_bank_error e) [
  | some b ↦
      if leb 500 b.status_code then true else if str_eq b.code "internal_error" then true else false
  | none ↦ if is_error e deadline_exceeded then true else false
]

pub record RetryBankClient : Type 0 where
  pub base_delay : Time
  pub max_retries : ℤ

-- NewRetryBankClient, from the fields BaseDelay (seconds) and MaxRetries of the configuration.
unfoldable pub new_retry_bank_client : ℤ → ℤ → RetryBankClient
new_retry_bank_client base_delay max_retries = record {
  base_delay = to_int64 (base_delay *ℤ pos 1000000000);
  max_retries = max_retries;
}

-- `1 << n` on an int64
abbrev pub shift_left_one : ℕ → ℤ
shift_left_one n = wrap_int64 (2 ^ n)

-- `draw` is what rand.Intn(1000) returns.
unfoldable pub backoff : RetryBankClient → ℕ → ℕ → Time
backoff r attempt draw =
    let base = to_int64 (r.base_delay *ℤ shift_left_one attempt) in
    let jitter = to_int64 (pos draw *ℤ pos 1000000) in to_int64 (base +ℤ jitter)

pub data Answer {ℓ} (T : Type ℓ) : Type ℓ where
  reply : T → Answer T
  fault : Error → Answer T

-- What a call of `retry` does: its result, how often it called the operation, and its sleeps.
pub record Attempted {ℓ} (T : Type ℓ) : Type ℓ where
  pub answer : Answer T
  pub calls : ℕ
  pub sleeps : List Time

-- What the loop meets at each attempt: the context's error if it is done, the operation's result,
-- and the number drawn for the jitter.
pub record Outside {ℓ} (T : Type ℓ) : Type ℓ where
  pub cancelled : ℕ → Option Error
  pub operation : ℕ → Answer T
  pub draw : ℕ → ℕ

-- `fmt.Errorf("maximum retries exceeded: %w", lastErr)`; a nil lastErr is printed and not wrapped.
abbrev pub exhausted : Option Error → Error
exhausted none = plain "maximum retries exceeded: %!w(<nil>)"
exhausted (some e) = wrap "maximum retries exceeded" e

module _ {ℓ} {T : Type ℓ} where
  abbrev pub stop : Answer T → ℕ → Attempted T
  stop a n = record { answer = a; calls = n; sleeps = [] }

  -- One more call of the operation, and the sleep after it if there is one.
  abbrev pub after_call : Option Time → Attempted T → Attempted T
  after_call none t = record t { calls = t.calls + 1 }
  after_call (some d) t = record t { calls = t.calls + 1; sleeps = d ∷ t.sleeps }

  abbrev pub sleep_after : RetryBankClient → Outside T → ℕ → Option Time
  sleep_after r w attempt =
      if ltb_ℤ (pos attempt) (r.max_retries -ℤ pos 1)
      then some (backoff r attempt (w.draw attempt))
      else none

  -- The loop, by the rounds that are left; the attempt and lastErr are its variables.
  unfoldable pub retry_loop : RetryBankClient → Outside T → ℕ → ℕ → Option Error → Attempted T
  retry_loop r w zero attempt last = stop (fault (exhausted last)) 0
  retry_loop r w (suc rounds) attempt last = elim (w.cancelled attempt) [
    | some e ↦ stop (fault e) 0
    | none ↦ elim (w.operation attempt) [
      | reply v ↦ stop (reply v) 1
      | fault e ↦ elim (is_retryable e) [
        | false ↦ stop (fault e) 1
        | true ↦ after_call (sleep_after r w attempt) (retry_loop r w rounds (attempt + 1) (some e))
      ]
    ]
  ]

  -- `attempt < r.maxRetries` holds for that many attempts from 0; for none if it is negative.
  unfoldable pub retry : RetryBankClient → Outside T → Attempted T
  unfolding retry_loop
  retry r w = retry_loop r w (pos_part r.max_retries) 0 none
