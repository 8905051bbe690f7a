-- ===== src/Services/Quiet/Replay.antt =====
-- A request that is repeated with its key after it has been carried out, where no statement fails and
-- nobody else commits: the stored payment is returned.
use ficmart_payment_gateway.Prelude.{
  ℕ, suc, String, ◌≡◌, refl, true, false, Option, none, some, List, ◌∷◌,
}
use ficmart_payment_gateway.Prelude.Text.{equal_fold}
use ficmart_payment_gateway.Failure.{is_error, duplicate_idempotency_key}
use ficmart_payment_gateway.Domain.{
  Payment, authorized, captured, mark_capturing, mark_voiding, mark_refunding,
}
use ficmart_payment_gateway.Bank
use ficmart_payment_gateway.Bank.{BankCall, CaptureResponse, RefundResponse}
use ficmart_payment_gateway.Bank.Retry.{reply}
use ficmart_payment_gateway.Exec.{Env, Result, ok, err, panic, ◌>>=◌}
use ficmart_payment_gateway.Exec.Triple.{
  Pred, Ends, Triple, Triple-bind, Triple-gets, Triple-attempt,
}
use ficmart_payment_gateway.Services.Idempotency.{compute_hash}
use ficmart_payment_gateway.Services.Capture
use ficmart_payment_gateway.Services.Void
use ficmart_payment_gateway.Services.Refund
use ficmart_payment_gateway.Services.Quiet.{IsQuiet, Never, Triple-dead, Triple-then}
use ficmart_payment_gateway.Services.Quiet.Moving.{Before, Stage}
use ficmart_payment_gateway.Services.Quiet.Completing.{capture_completes, refund_completes}
use ficmart_payment_gateway.Services.Quiet.Entity.{captured_as, refunded_as}
use ficmart_payment_gateway.Services.Quiet.Waiting.{
  Done, check_replayed, mark_replayed, raised_replayed,
}

module _ {e : Env} (quiet : IsQuiet e) (id key hash : String) (p : Payment) (cs : List BankCall)
    (payload : Option String) (n : ℕ) (ticks : e.ticks ≡ suc n)
    (live : (k : ℕ) → e.is_done k ≡ false) where
  abbrev Replayed : Pred
  Replayed = Done quiet id key hash p cs payload n ticks live

  after_mark_capture_replayed :
      (r : Result Payment)
      → Triple e
          (Ends
            (λ q d s. ⊥)
            (λ x d s. Replayed d s × (is_error x duplicate_idempotency_key ≡ true))
            r)
          (Capture.after_mark key r)
          (λ q d s. Replayed d s × (q ≡ p))
          Never
  unfolding Capture.after_mark
  after_mark_capture_replayed (ok q) = Triple-dead
  after_mark_capture_replayed (err x) =
      raised_replayed quiet id key hash p cs payload n ticks live x
  after_mark_capture_replayed panic = Triple-dead

  pub capture_replayed :
      e.sha256_hex id ≡ hash
      → Triple e Replayed (Capture.capture id key) (λ q d s. Replayed d s × (q ≡ p)) Never
  unfolding Capture.capture Capture.after_check compute_hash
  capture_replayed same = Triple-then {R = Replayed} _ _ hash (Triple-gets _ (λ d s h. (h, same))) (
      Triple-then {R = Replayed} _ _ none
        (check_replayed quiet id key hash p cs payload n ticks live)
        (Triple-bind _ _
          (Triple-attempt Never _
            (mark_replayed quiet id key hash p cs payload n ticks live mark_capturing))
          after_mark_capture_replayed))

  after_mark_void_replayed :
      (r : Result Payment)
      → Triple e
          (Ends
            (λ q d s. ⊥)
            (λ x d s. Replayed d s × (is_error x duplicate_idempotency_key ≡ true))
            r)
          (Void.after_mark key r)
          (λ q d s. Replayed d s × (q ≡ p))
          Never
  unfolding Void.after_mark
  after_mark_void_replayed (ok q) = Triple-dead
  after_mark_void_replayed (err x) = raised_replayed quiet id key hash p cs payload n ticks live x
  after_mark_void_replayed panic = Triple-dead

  pub void_replayed :
      e.sha256_hex id ≡ hash
      → Triple e Replayed (Void.void id key) (λ q d s. Replayed d s × (q ≡ p)) Never
  unfolding Void.void Void.after_check compute_hash
  void_replayed same = Triple-then {R = Replayed} _ _ hash (Triple-gets _ (λ d s h. (h, same))) (
      Triple-then {R = Replayed} _ _ none
        (check_replayed quiet id key hash p cs payload n ticks live)
        (Triple-bind _ _
          (Triple-attempt Never _
            (mark_replayed quiet id key hash p cs payload n ticks live mark_voiding))
          after_mark_void_replayed))

  after_mark_refund_replayed :
      (r : Result Payment)
      → Triple e
          (Ends
            (λ q d s. ⊥)
            (λ x d s. Replayed d s × (is_error x duplicate_idempotency_key ≡ true))
            r)
          (Refund.after_mark key r)
          (λ q d s. Replayed d s × (q ≡ p))
          Never
  unfolding Refund.after_mark
  after_mark_refund_replayed (ok q) = Triple-dead
  after_mark_refund_replayed (err x) = raised_replayed quiet id key hash p cs payload n ticks live x
  after_mark_refund_replayed panic = Triple-dead

  pub refund_replayed :
      e.sha256_hex id ≡ hash
      → Triple e Replayed (Refund.refund id key) (λ q d s. Replayed d s × (q ≡ p)) Never
  unfolding Refund.refund Refund.after_check compute_hash
  refund_replayed same = Triple-then {R = Replayed} _ _ hash (Triple-gets _ (λ d s h. (h, same))) (
      Triple-then {R = Replayed} _ _ none
        (check_replayed quiet id key hash p cs payload n ticks live)
        (Triple-bind _ _
          (Triple-attempt Never _
            (mark_replayed quiet id key hash p cs payload n ticks live mark_refunding))
          after_mark_refund_replayed))

module _ {e : Env} (quiet : IsQuiet e) (n : ℕ) (ticks : e.ticks ≡ suc n)
    (live : (k : ℕ) → e.is_done k ≡ false) where
  -- Where no statement fails and nobody else commits: if an authorized payment with a bank
  -- reference is stored, the key is new, the bank answers the capture at any step with a response
  -- that is not authorization_expired, and the response can be printed, then Capture followed by
  -- Capture with the same key, which may wait for at least one tick and is not cancelled, end
  -- without an error, and the second returns the captured payment; it is stored so, the bank has
  -- been sent exactly one more call, and the key is in the table unlocked with the stored
  -- response.
  pub capture_twice :
      (id key : String) (p : Payment) (cs : List BankCall) (reference payload : String)
      (r : CaptureResponse)
      → p.status ≡ authorized
      → p.id ≡ id
      → p.bank_auth_id ≡ some reference
      → equal_fold r.status "authorization_expired" ≡ false
      → ((k : ℕ) → e.bank.capture k (Capture.capture_request p reference) key ≡ reply r)
      → e.marshal_response (Bank.capture r) ≡ reply payload
      → Triple e
          (Before id key p cs)
          (Capture.capture id key >>= λ _. Capture.capture id key)
          (λ q d s.
            Stage id key
              (e.sha256_hex id)
              (captured_as p r)
              (Bank.capture_call (Capture.capture_request p reference) key ∷ cs)
              false
              (some payload)
              d
              s
            × (q ≡ captured_as p r))
          Never
  capture_twice id key p cs reference payload r ready same referenced unexpired answers text =
      Triple-then _ _ (captured_as p r)
        (capture_completes quiet id key p cs reference payload r ready same referenced unexpired
          answers text)
        (capture_replayed quiet id key (e.sha256_hex id) (captured_as p r) _ (some payload) n ticks
          live refl)

  -- Where no statement fails and nobody else commits: if a captured payment with the bank's
  -- capture reference is stored, the key is new, the bank answers the refund at any step, and the
  -- response can be printed, then Refund followed by Refund with the same key, which may wait for
  -- at least one tick and is not cancelled, end without an error, and the second returns the
  -- refunded payment; it is stored so, the bank has been sent exactly one more call, and the key
  -- is in the table unlocked with the stored response.
  pub refund_twice :
      (id key : String) (p : Payment) (cs : List BankCall) (reference payload : String)
      (r : RefundResponse)
      → p.status ≡ captured
      → p.id ≡ id
      → p.bank_capture_id ≡ some reference
      → ((k : ℕ) → e.bank.refund k (Refund.refund_request p reference) key ≡ reply r)
      → e.marshal_response (Bank.refund r) ≡ reply payload
      → Triple e
          (Before id key p cs)
          (Refund.refund id key >>= λ _. Refund.refund id key)
          (λ q d s.
            Stage id key
              (e.sha256_hex id)
              (refunded_as p r)
              (Bank.refund_call (Refund.refund_request p reference) key ∷ cs)
              false
              (some payload)
              d
              s
            × (q ≡ refunded_as p r))
          Never
  refund_twice id key p cs reference payload r ready same referenced answers text =
      Triple-then _ _ (refunded_as p r)
        (refund_completes quiet id key p cs reference payload r ready same referenced answers text)
        (refund_replayed quiet id key (e.sha256_hex id) (refunded_as p r) _ (some payload) n ticks
          live refl)
