-- ===== src/Services/History/Steps.antt =====
-- At most one call of the bank for each key: the steps that the services share.
use ficmart_payment_gateway.Prelude.{ℕ, String, ◌≡◌, true, some, if◌then◌else◌}
use ficmart_payment_gateway.Failure.{Error, is_error, duplicate_idempotency_key}
use ficmart_payment_gateway.Domain.{Payment, Changed, Status}
use ficmart_payment_gateway.Bank
use ficmart_payment_gateway.Bank.{CaptureResponse, VoidResponse, RefundResponse}
use ficmart_payment_gateway.Exec.{Env, Exec, raise, BankClient, send, attempt}
use ficmart_payment_gateway.Exec.Triple.{
  Pred, Ends, Triple, Triple-raise, Triple-if, Triple-attempt, Triple-send, Triple-weaken,
  Triple-both,
}
use ficmart_payment_gateway.Exec.Fair.{KeysStay, RowsStayWellFormed, FaultsAreHonest}
use ficmart_payment_gateway.Services.Idempotency.{check_idempotency, wait_for_completion}
use ficmart_payment_gateway.Services.Idempotency.Waiting.{
  KeyIn, Triple-check_idempotency, Triple-wait_for_completion,
}
use ficmart_payment_gateway.Services.Intent.{Sound, Sound-IsStable, Marked, MovesTo}
use ficmart_payment_gateway.Services.Transactions.{mark_payment_transitioning}
use ficmart_payment_gateway.Services.Transactions.Ensures.{Triple-mark_payment_transitioning}
use ficmart_payment_gateway.Services.History.{
  key_of, Once, Fresh, Fresh-send, Once-IsMonotone, monotone-IsStable,
}
use ficmart_payment_gateway.Services.History.Keeping.{}
use ficmart_payment_gateway.Bank.Retry.{Answer}
use ficmart_payment_gateway.Services.History.Locking.{mark_payment_transitioning-Fresh}

-- Tables and calls in order, and at most one call for each key.
abbrev pub Orderly : Pred
Orderly d s = Sound d s × Once d s

module _ (e : Env) (honest : FaultsAreHonest e) (stay : RowsStayWellFormed e)
    (keys : KeysStay e) where
  abbrev pub KeepsOnce : {A : Type 0} → Exec A → Type 0
  KeepsOnce m = Triple e Orderly m (λ _. Once) (λ _. Once)

  -- An error, and the key is in the table where the error says so.
  abbrev pub Turned : String → Error → Pred
  Turned key x d s = Once d s × (is_error x duplicate_idempotency_key ≡ true → KeyIn key d s)

  pub wait_once :
      (key : String)
      → Triple e (λ d s. Once d s × KeyIn key d s) (wait_for_completion key) (λ _. Once) (λ _. Once)
  wait_once key =
      Triple-weaken _ (λ d s h. h) (λ p d s h. h.0.0) (λ x d s h. h.0)
        (Triple-wait_for_completion e (λ d s. Once d s × KeyIn key d s) key honest
          (λ n d s h. (monotone-IsStable e Once keys Once-IsMonotone n d s h.0, keys n key d h.1))
          (λ d s h. h.1))

  pub wait_or_raise-Once :
      (key : String) (x : Error)
      → Triple e
          (Turned key x)
          (if is_error x duplicate_idempotency_key then wait_for_completion key else raise x)
          (λ _. Once)
          (λ _. Once)
  wait_or_raise-Once key x =
      Triple-if (is_error x duplicate_idempotency_key) _ _
        (λ taken.
          Triple-weaken _ (λ d s h. (h.0, h.1 taken)) (λ p d s h. h) (λ x d s h. h) (wait_once key))
        (λ other. Triple-raise x (λ d s h. h.0))

  pub mark_once :
      (t : Status) (f : Payment → Changed) (moves : MovesTo t f)
      (payment_id key request_hash : String)
      → Triple e Orderly
          (mark_payment_transitioning payment_id key request_hash f)
          (λ q d s. Marked t key q d s × Fresh key d s)
          (Turned key)
  mark_once t f moves payment_id key request_hash =
      Triple-weaken _ (λ d s h. h) (λ q d s h. h) (λ x d s h. (h.1, h.0.1))
        (Triple-both _
          (Triple-mark_payment_transitioning e honest stay t payment_id key request_hash f moves)
          (mark_payment_transitioning-Fresh e honest keys payment_id key request_hash f))

  pub check_once :
      (key request_hash : String)
      → Triple e Orderly (check_idempotency key request_hash) (λ _. Orderly) (λ _. Once)
  check_once key request_hash =
      Triple-weaken _ (λ d s h. h) (λ o d s h. h.0) (λ x d s h. h.1)
        (Triple-check_idempotency e Orderly key request_hash honest keys (λ n d s h. (
          Sound-IsStable e stay n d s h.0,
          monotone-IsStable e Once keys Once-IsMonotone n d s h.1,
        )))

  pub send-Once :
      {A : Type 0} (key : String) (c : Bank.BankCall) (f : BankClient → ℕ → Answer A)
      → key_of c ≡ some key
      → Triple e (Fresh key) (attempt (send c f)) (Ends (λ _. Once) (λ _. Once)) (λ _. Once)
  send-Once key c f same = Triple-attempt _ _ (
      Triple-send c f (λ a n d s h. Fresh-send key c d (e.others n d) s same (λ k. keys n k d) h)
        (λ x n d s h. Fresh-send key c d (e.others n d) s same (λ k. keys n k d) h))
