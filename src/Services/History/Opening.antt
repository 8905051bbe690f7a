-- ===== src/Services/History/Opening.antt =====
-- At most one call of the bank for each key: the service of authorize.go.
use ficmart_payment_gateway.Prelude.{String, ◌≡◌, refl, Option, none, some}
use ficmart_payment_gateway.Failure.{is_error, duplicate_idempotency_key}
use ficmart_payment_gateway.Domain
use ficmart_payment_gateway.Domain.{Payment, NewResult, created, refused, pending}
use ficmart_payment_gateway.Domain.Invariant.{IsWellFormed}
use ficmart_payment_gateway.Command.{AuthorizeCommand}
use ficmart_payment_gateway.Bank.{AuthorizationResponse, authorize_call, authorization}
use ficmart_payment_gateway.Exec.{Result, ok, err, panic, Env}
use ficmart_payment_gateway.Exec.Triple.{
  Ends, Triple, Triple-bind, Triple-pure, Triple-raise, Triple-if, Triple-lift, Triple-gets,
  Triple-ask, Triple-attempt, Triple-weaken, Triple-both,
}
use ficmart_payment_gateway.Exec.Fair.{KeysStay, RowsStayWellFormed, FaultsAreHonest}
use ficmart_payment_gateway.Services.Idempotency.{compute_hash}
use ficmart_payment_gateway.Services.Transactions.{acquire_idempotency_lock}
use ficmart_payment_gateway.Services.Transactions.Opening.{Triple-acquire_idempotency_lock}
use ficmart_payment_gateway.Services.Authorize.{
  after_bank, after_lock, with_payment, after_check, authorize, authorization_request,
}
use ficmart_payment_gateway.Services.Authorize.Ensures.{For, new_payment-For}
use ficmart_payment_gateway.Services.History.{Once, Fresh, Once-IsMonotone}
use ficmart_payment_gateway.Services.History.Keeping.{bank_failed-Keeps, finish-Keeps}
use ficmart_payment_gateway.Services.History.Locking.{acquire_idempotency_lock-Fresh}
use ficmart_payment_gateway.Services.History.Steps.{
  Orderly, KeepsOnce, Turned, wait_once, check_once, send-Once,
}

module _ (e : Env) (honest : FaultsAreHonest e) (stay : RowsStayWellFormed e)
    (keys : KeysStay e) where
  after_bank_authorize_once :
      (p : Payment) (key : String) (r : Result AuthorizationResponse)
      → Triple e (Ends (λ _. Once) (λ _. Once) r) (after_bank p key r) (λ _. Once) (λ _. Once)
  unfolding after_bank
  after_bank_authorize_once p key (ok r) =
      finish-Keeps e honest keys Once Once-IsMonotone
        (Domain.authorize p r.authorization_id r.created_at r.expires_at) key (authorization r)
  after_bank_authorize_once p key (err x) =
      bank_failed-Keeps e honest keys Once Once-IsMonotone p key x
  after_bank_authorize_once p key panic = Triple-lift panic (λ d s h. h)

  after_lock_authorize_once :
      (cmd : AuthorizeCommand) (p : Payment) (key : String) (r : Result Unit)
      → Triple e
          (Ends (λ _. Fresh key) (Turned e honest stay keys key) r)
          (after_lock cmd p key r)
          (λ _. Once)
          (λ _. Once)
  unfolding after_lock
  after_lock_authorize_once cmd p key (ok t) =
      Triple-bind _ _
        (send-Once e honest stay keys key (authorize_call (authorization_request cmd) key) _ refl)
        (after_bank_authorize_once p key)
  after_lock_authorize_once cmd p key (err x) =
      Triple-if (is_error x duplicate_idempotency_key) _ _
        (λ taken.
          Triple-weaken _ (λ d s h. (h.0, h.1 taken)) (λ p d s h. h) (λ x d s h. h)
            (wait_once e honest stay keys key))
        (λ other. Triple-raise _ (λ d s h. h.0))
  after_lock_authorize_once cmd p key panic = Triple-lift panic (λ d s h. h)

  lock_once :
      (p : Payment) (key request_hash : String)
      → IsWellFormed p
      → p.status ≡ pending
      → Triple e Orderly
          (acquire_idempotency_lock p key request_hash)
          (λ _. Fresh key)
          (Turned e honest stay keys key)
  lock_once p key request_hash wf status =
      Triple-weaken _ (λ d s h. h) (λ q d s h. h.1) (λ x d s h. (h.1, h.0.1))
        (Triple-both _ (Triple-acquire_idempotency_lock e honest stay p key request_hash wf status)
          (acquire_idempotency_lock-Fresh e honest keys p key request_hash))

  with_payment_once :
      (cmd : AuthorizeCommand) (key request_hash : String) (n : NewResult)
      → For cmd n
      → KeepsOnce e honest stay keys (with_payment cmd key request_hash n)
  unfolding with_payment
  with_payment_once cmd key request_hash (refused x) h = Triple-raise _ (λ d s h. h.1)
  with_payment_once cmd key request_hash (created p) (wf, status, amount) =
      Triple-bind _ _ (Triple-attempt _ _ (lock_once p key request_hash wf status))
        (after_lock_authorize_once cmd p key)

  after_check_authorize_once :
      (cmd : AuthorizeCommand) (key request_hash : String) (o : Option Payment)
      → KeepsOnce e honest stay keys (after_check cmd key request_hash o)
  unfolding after_check
  after_check_authorize_once cmd key request_hash (some p) = Triple-pure p (λ d s h. h.1)
  after_check_authorize_once cmd key request_hash none =
      Triple-bind {Q = λ _. Orderly} _ _ (Triple-ask _ (λ n d s h. h)) λ id.
        Triple-bind {Q = λ _. Orderly} _ _ (Triple-ask _ (λ n d s h. h))
          λ now. with_payment_once cmd key request_hash _ (new_payment-For now id cmd _ refl)

  pub authorize-KeepsOnce :
      (cmd : AuthorizeCommand) (key : String) → KeepsOnce e honest stay keys (authorize cmd key)
  unfolding authorize
  authorize-KeepsOnce cmd key =
      Triple-bind {Q = λ _. Orderly} _ _ (Triple-gets _ (λ d s h. h)) λ text.
        Triple-bind {Q = λ _. Orderly} _ _ (unfold compute_hash in Triple-gets _ (λ d s h. h))
          λ request_hash.
            Triple-bind _ _ (check_once e honest stay keys key request_hash)
              (after_check_authorize_once cmd key request_hash)
