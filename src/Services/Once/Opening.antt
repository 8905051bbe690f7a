-- ===== src/Services/Once/Opening.antt =====
-- A key that is in the table is not carried out again by the service of authorize.go.
use ficmart_payment_gateway.Prelude.{String, List, Option, none, some}
use ficmart_payment_gateway.Failure.{is_error, duplicate_idempotency_key}
use ficmart_payment_gateway.Domain.{Payment, NewResult, created, refused}
use ficmart_payment_gateway.Command.{AuthorizeCommand}
use ficmart_payment_gateway.Exec.{Result, ok, err, panic, Env, Sent}
use ficmart_payment_gateway.Exec.Triple.{
  Ends, Triple, Triple-bind, Triple-pure, Triple-raise, Triple-if, Triple-lift, Triple-gets,
  Triple-ask, Triple-attempt, Triple-weaken,
}
use ficmart_payment_gateway.Exec.Fair.{FaultsAreHonest, KeysStay}
use ficmart_payment_gateway.Services.Idempotency.{compute_hash}
use ficmart_payment_gateway.Services.Idempotency.Waiting.{Triple-check_idempotency}
use ficmart_payment_gateway.Services.Once.{
  Held, Held-IsStable, Triple-unreached, acquire_idempotency_lock-Held,
}
use ficmart_payment_gateway.Services.Once.Moving.{
  IsHeld, wait-IsHeld, capture_once, void_once, refund_once,
}
use ficmart_payment_gateway.Services.Capture.{capture}
use ficmart_payment_gateway.Services.Void.{void}
use ficmart_payment_gateway.Services.Refund.{refund}
use ficmart_payment_gateway.Services.Authorize.{after_lock, with_payment, after_check, authorize}

module _ (e : Env) (honest : FaultsAreHonest e) (stay : KeysStay e) (key : String)
    (calls : List Sent) where
  after_lock_once :
      (cmd : AuthorizeCommand) (p : Payment) (r : Result Unit)
      → Triple e
          (Ends (λ q d s. ⊥) (λ _. Held key calls) r)
          (after_lock cmd p key r)
          (λ _. Held key calls)
          (λ _. Held key calls)
  unfolding after_lock
  after_lock_once cmd p (ok _) = Triple-unreached
  after_lock_once cmd p (err x) =
      Triple-if (is_error x duplicate_idempotency_key) _ _
        (λ taken. wait-IsHeld e honest stay key calls) (λ other. Triple-raise _ (λ d s h. h))
  after_lock_once cmd p panic = Triple-lift panic (λ d s h. h)

  with_payment_once :
      (cmd : AuthorizeCommand) (request_hash : String) (n : NewResult)
      → IsHeld e honest stay key calls (with_payment cmd key request_hash n)
  unfolding with_payment
  with_payment_once cmd request_hash (refused x) = Triple-raise _ (λ d s h. h)
  with_payment_once cmd request_hash (created p) =
      Triple-bind _ _
        (Triple-attempt _ _ (acquire_idempotency_lock-Held e honest stay key calls p request_hash))
        (after_lock_once cmd p)

  after_check_once :
      (cmd : AuthorizeCommand) (request_hash : String) (o : Option Payment)
      → IsHeld e honest stay key calls (after_check cmd key request_hash o)
  unfolding after_check
  after_check_once cmd request_hash (some p) = Triple-pure p (λ d s h. h)
  after_check_once cmd request_hash none =
      Triple-bind {Q = λ _. Held key calls} _ _ (Triple-ask _ (λ n d s h. h)) λ id.
        Triple-bind {Q = λ _. Held key calls} _ _ (Triple-ask _ (λ n d s h. h))
          λ now. with_payment_once cmd request_hash _

  -- Under FaultsAreHonest and KeysStay: if the key of the request is in the table when Authorize
  -- begins, the service sends the bank nothing, leaves the key in the table and does not panic,
  -- whatever it returns.
  pub authorize_once : (cmd : AuthorizeCommand) → IsHeld e honest stay key calls (authorize cmd key)
  unfolding authorize
  authorize_once cmd =
      Triple-bind {Q = λ _. Held key calls} _ _ (Triple-gets _ (λ d s h. h)) λ text.
        Triple-bind {Q = λ _. Held key calls} _ _
          (unfold compute_hash in Triple-gets _ (λ d s h. h))
          λ request_hash.
            Triple-bind {Q = λ _. Held key calls} _ _
              (Triple-weaken _ (λ d s h. h) (λ o d s h. h.0) (λ x d s h. h)
                (Triple-check_idempotency e (Held key calls) key request_hash honest stay
                  (Held-IsStable e key calls stay)))
              (after_check_once cmd request_hash)

  -- Under FaultsAreHonest and KeysStay: if the key of the request is in the table when Authorize,
  -- Capture, Void or Refund begins, the service sends the bank nothing, leaves the key in the
  -- table and does not panic, whatever it returns.
  pub serving_once :
      (cmd : AuthorizeCommand) (payment_id : String)
      → IsHeld e honest stay key calls (authorize cmd key)
        × IsHeld e honest stay key calls (capture payment_id key)
        × IsHeld e honest stay key calls (void payment_id key)
        × IsHeld e honest stay key calls (refund payment_id key)
  serving_once cmd payment_id = (
    authorize_once cmd,
    capture_once e honest stay key calls payment_id,
    void_once e honest stay key calls payment_id,
    refund_once e honest stay key calls payment_id,
  )
