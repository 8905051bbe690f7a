-- ===== src/Bank/Retry/Bounds.antt =====
-- How often and with what result the client of infrastructure/bank/retry.go calls the bank.
use native.Mathlib.Decide.{ℕ_discrete}
use native.Mathlib.Nat.{add-zero, zero-add}
use ficmart_payment_gateway.Prelude.{
  ℕ, zero, suc, ◌+◌, ◌≤◌, ◌<◌, ◌≡◌, Bool, true, false, Option, none, some, arith, length, ap, ◌∙◌,
  ltb,
}
use ficmart_payment_gateway.Prelude.Integer.{pos, pos_part, ltb_ℤ, ◌-ℤ◌}
use ficmart_payment_gateway.Failure.{Error}
use ficmart_payment_gateway.Bank.Retry.{
  RetryBankClient, Outside, Answer, reply, fault, exhausted, is_retryable, retry, retry_loop,
}

-- A result after which the loop does not go on.
abbrev pub is_final {ℓ} : {T : Type ℓ} → Answer T → Bool
is_final (reply v) = true
is_final (fault e) = elim (is_retryable e) [ true ↦ false | false ↦ true ]

-- `attempt < r.maxRetries-1` with `m` more attempts to come.
last_attempt : (attempt m : ℕ) → ltb_ℤ (pos attempt) (pos (attempt + suc m) -ℤ pos 1) ≡ ltb 0 m
unfolding ◌-ℤ◌
last_attempt attempt m = ground arith

module _ {ℓ} {T : Type ℓ} (r : RetryBankClient) (w : Outside T) where
  -- Attempt `n` calls the operation, gets the error `e`, and the loop goes on.
  pub record Continues (n : ℕ) (e : Error) : Type ℓ where
    pub alive : w.cancelled n ≡ none
    pub failed : w.operation n ≡ fault e
    pub transient : is_retryable e ≡ true

  -- Attempt `n` calls the operation and ends the loop with `a`.
  pub record Ends (n : ℕ) (a : Answer T) : Type ℓ where
    pub alive : w.cancelled n ≡ none
    pub answered : w.operation n ≡ a
    pub final : is_final a ≡ true

  loop_bound :
      (rounds attempt : ℕ) (last : Option Error)
      → (retry_loop r w rounds attempt last).calls ≤ rounds
  unfolding retry_loop
  loop_bound zero attempt last = omega arith
  loop_bound (suc rounds) attempt last = grind (arith, loop_bound rounds (attempt + 1))

  -- retry calls the operation at most MaxRetries times, and never if MaxRetries is not positive.
  pub retry_bound : (retry r w).calls ≤ pos_part r.max_retries
  unfolding retry
  retry_bound = loop_bound (pos_part r.max_retries) 0 none

  loop_ends :
      (errors : ℕ → Error) (n : ℕ) (a : Answer T) (rounds attempt : ℕ) (last : Option Error)
      → attempt ≤ n
      → n < attempt + rounds
      → ((k : ℕ) → attempt ≤ k → k < n → Continues k (errors k))
      → Ends n a
      → let t = retry_loop r w rounds attempt last in (t.answer ≡ a) × (t.calls + attempt ≡ n + 1)
  unfolding retry_loop
  loop_ends errors n a zero attempt last le lt before h = absurd (omega arith)
  loop_ends errors n a (suc rounds) attempt last le lt before h = elim (ℕ_discrete attempt n) [
    | yes e ↦ rw e (ground (arith, h.alive, h.answered, h.final))
    | no ne ↦
        let c = before attempt (omega arith) (omega arith) in
        let ih =
          loop_ends errors n a rounds (attempt + 1) (some (errors attempt)) (omega arith)
            (omega arith) (λ k lo hi. before k (omega arith) hi) h in
        ground (arith, c.alive, c.failed, c.transient, ih)
  ]

  -- If every attempt before the n-th, counted from 0, is made and fails with an error that may be
  -- retried, and the n-th, below MaxRetries, is made and succeeds or fails for good, then retry
  -- returns its result after n + 1 calls.
  pub retry_first_final :
      (errors : ℕ → Error) (n : ℕ) (a : Answer T)
      → n < pos_part r.max_retries
      → ((k : ℕ) → k < n → Continues k (errors k))
      → Ends n a
      → ((retry r w).answer ≡ a) × ((retry r w).calls ≡ n + 1)
  unfolding retry
  retry_first_final errors n a lt before h =
      let t =
        loop_ends errors n a (pos_part r.max_retries) 0 none (omega arith) (omega arith)
          (λ k lo hi. before k hi) h in
      (t.0, omega arith)

  loop_exhausts :
      (errors : ℕ → Error) (m attempt : ℕ) (last : Option Error)
      → r.max_retries ≡ pos (attempt + suc m)
      → ((k : ℕ) → attempt ≤ k → k < attempt + suc m → Continues k (errors k))
      → let t = retry_loop r w (suc m) attempt last in
        (t.answer ≡ fault (exhausted (some (errors (attempt + m)))))
        × (t.calls ≡ suc m)
        × (length t.sleeps ≡ m)
  unfolding retry_loop
  loop_exhausts errors zero attempt last e all =
      let c = all attempt (omega arith) (omega arith) in
      rw (add-zero attempt)
        (ground (arith, c.alive, c.failed, c.transient, last_attempt attempt 0, e))
  loop_exhausts errors (suc m) attempt last e all =
      let c = all attempt (omega arith) (omega arith) in
      let ih =
        loop_exhausts errors m (attempt + 1) (some (errors attempt)) (e ∙ ap pos (omega arith))
          (λ k lo hi. all k (omega arith) (omega arith)) in
      let shift : attempt + suc m ≡ attempt + 1 + m = omega arith in
      rw shift (ground (arith, c.alive, c.failed, c.transient, last_attempt attempt (suc m), e, ih))

  -- If MaxRetries is m + 1 and every attempt is made and fails with an error that may be retried,
  -- then retry returns the last error, wrapped, after m + 1 calls and m sleeps.
  pub retry_exhausts :
      (errors : ℕ → Error) (m : ℕ)
      → r.max_retries ≡ pos (suc m)
      → ((k : ℕ) → k < suc m → Continues k (errors k))
      → ((retry r w).answer ≡ fault (exhausted (some (errors m))))
        × ((retry r w).calls ≡ suc m)
        × (length (retry r w).sleeps ≡ m)
  unfolding retry
  retry_exhausts errors m e all =
      let rounds : pos_part r.max_retries ≡ suc m = ap pos_part e in
      let t =
        loop_exhausts errors m 0 none (e ∙ ap pos (omega arith)) (λ k lo hi. all k (omega arith)) in
      rw rounds (rw zero-add at t)
