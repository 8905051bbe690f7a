-- ===== src/Services/Authorize/Ensures.antt =====
-- What the service of internal/application/services/authorize.go ensures.
use ficmart_payment_gateway.Prelude.{String, ◌≡◌, refl, Option, none, some, arith}
use ficmart_payment_gateway.Prelude.Integer.{ℤ}
use ficmart_payment_gateway.Failure.{is_error, duplicate_idempotency_key}
use ficmart_payment_gateway.Domain
use ficmart_payment_gateway.Domain.{
  Payment, Time, NewResult, created, refused, new_payment, pending,
}
use ficmart_payment_gateway.Domain.Invariant.{IsWellFormed, new_payment-IsWellFormed}
use ficmart_payment_gateway.Command.{AuthorizeCommand}
use ficmart_payment_gateway.Bank.{AuthorizationResponse, authorization}
use ficmart_payment_gateway.Exec.{Result, ok, err, panic, Env}
use ficmart_payment_gateway.Exec.Triple.{
  Ends, Triple, Triple-bind, Triple-pure, Triple-raise, Triple-if, Triple-lift, Triple-gets,
  Triple-ask, Triple-attempt, Triple-send, Triple-weaken, Triple-given,
}
use ficmart_payment_gateway.Exec.Fair.{KeysStay, RowsStayWellFormed, FaultsAreHonest}
use ficmart_payment_gateway.Services.Idempotency.Waiting.{
  KeyIn, Cached, Triple-check_idempotency, Triple-wait_for_completion,
}
use ficmart_payment_gateway.Services.Idempotency.{compute_hash}
use ficmart_payment_gateway.Services.Intent.{Sound, Sound-IsStable, Marked, Served, Stored-Served}
use ficmart_payment_gateway.Services.Transactions.Ensures.{Refused}
use ficmart_payment_gateway.Services.Transactions.Opening.{Triple-acquire_idempotency_lock}
use ficmart_payment_gateway.Services.Transactions.Settle.{Triple-bank_failed, Triple-finish}
use ficmart_payment_gateway.Services.Authorize.{
  after_bank, after_lock, with_payment, after_check, authorize,
}

authorize_kept :
    (p : Payment) (id : String) (at expires : Time)
    → IsWellFormed p
    → IsWellFormed (Domain.authorize p id at expires).0
unfolding Domain.authorize
authorize_kept p id at expires h = ground arith

-- What NewPayment makes of the command's fields.
new_payment_fields :
    (now : Time) (id order customer : String) (amount : ℤ) (currency : String) (p : Payment)
    → new_payment now id order customer amount currency ≡ created p
    → (p.status ≡ pending) × (p.amount_cents ≡ amount)
unfolding new_payment
new_payment_fields now id order customer amount currency p h = ground arith

-- A new payment for the command.
abbrev pub For : AuthorizeCommand → NewResult → Type 0
For cmd (refused x) = Unit
For cmd (created p) = IsWellFormed p × (p.status ≡ pending) × (p.amount_cents ≡ cmd.amount)

pub new_payment-For :
    (now : Time) (id : String) (cmd : AuthorizeCommand) (n : NewResult)
    → new_payment now id cmd.order_id cmd.customer_id cmd.amount cmd.currency ≡ n
    → For cmd n
new_payment-For now id cmd (refused x) h = tt
new_payment-For now id cmd (created p) h =
    let (status, amount) =
      new_payment_fields now id cmd.order_id cmd.customer_id cmd.amount cmd.currency p h in
    (
      new_payment-IsWellFormed now id cmd.order_id cmd.customer_id cmd.amount cmd.currency h,
      status,
      amount,
    )

module _ (e : Env) (honest : FaultsAreHonest e) (stay : RowsStayWellFormed e)
    (keys : KeysStay e) where
  after_bank-Served :
      (p : Payment) (key : String) (r : Result AuthorizationResponse)
      → Triple e (Ends (λ _. Served p) (λ _. Served p) r) (after_bank p key r) Served (λ _. Sound)
  unfolding after_bank
  after_bank-Served p key (ok r) = Triple-given λ wf.
      Triple-weaken _ (λ d s h. h) (λ q d s h. (h.0, h.1)) (λ x d s h. h)
        (Triple-finish e honest stay
          (Domain.authorize p r.authorization_id r.created_at r.expires_at) key (authorization r)
          (authorize_kept p r.authorization_id r.created_at r.expires_at wf))
  after_bank-Served p key (err x) = Triple-given λ wf.
      Triple-weaken _ (λ d s h. h) (λ q d s h. absurd h) (λ x d s h. h)
        (Triple-bank_failed e honest stay p key x wf)
  after_bank-Served p key panic = Triple-lift panic (λ d s h. h)

  after_lock-Served :
      (cmd : AuthorizeCommand) (p : Payment) (key : String) (r : Result Unit)
      → p.amount_cents ≡ cmd.amount
      → Triple e
          (Ends (λ _. Marked pending key p) (Refused key) r)
          (after_lock cmd p key r)
          Served
          (λ _. Sound)
  unfolding after_lock
  after_lock-Served cmd p key (ok t) same =
      Triple-bind _ _
        (Triple-attempt {Q = λ _. Served p} {E = λ _. Served p} _ _ (
          Triple-send _ _ (λ a n d s h. ((stay n d h.0.0, ((p, h.3, h.2, same), h.0.1)), h.1))
            (λ x n d s h. ((stay n d h.0.0, ((p, h.3, h.2, same), h.0.1)), h.1))))
        (λ r. after_bank-Served p key r)
  after_lock-Served cmd p key (err x) same =
      Triple-if (is_error x duplicate_idempotency_key) _ _
        (λ taken.
          Triple-weaken _ (λ d s h. (h.0, h.1 taken)) (λ p d s h. Stored-Served p d s h.0.0 h.1)
            (λ x d s h. h.0)
            (Triple-wait_for_completion e (λ d s. Sound d s × KeyIn key d s) key honest
              (λ n d s h. (Sound-IsStable e stay n d s h.0, keys n key d h.1)) (λ d s h. h.1)))
        (λ other. Triple-raise _ (λ d s h. h.0))
  after_lock-Served cmd p key panic same = Triple-lift panic (λ d s h. h)

  with_payment-Served :
      (cmd : AuthorizeCommand) (key request_hash : String) (n : NewResult)
      → For cmd n
      → Triple e Sound (with_payment cmd key request_hash n) Served (λ _. Sound)
  unfolding with_payment
  with_payment-Served cmd key request_hash (refused x) h = Triple-raise _ (λ d s h. h)
  with_payment-Served cmd key request_hash (created p) (wf, status, amount) =
      Triple-bind _ _
        (Triple-attempt _ _
          (Triple-acquire_idempotency_lock e honest stay p key request_hash wf status))
        (λ r. after_lock-Served cmd p key r amount)

  after_check-Served :
      (cmd : AuthorizeCommand) (key request_hash : String) (o : Option Payment)
      → Triple e
          (λ d s. Sound d s × Cached o d s)
          (after_check cmd key request_hash o)
          Served
          (λ _. Sound)
  unfolding after_check
  after_check-Served cmd key request_hash (some p) =
      Triple-pure p (λ d s h. Stored-Served p d s h.0 h.1)
  after_check-Served cmd key request_hash none =
      Triple-bind {Q = λ _. Sound} _ _ (Triple-ask _ (λ n d s h. h.0)) λ id.
        Triple-bind {Q = λ _. Sound} _ _ (Triple-ask _ (λ n d s h. h))
          λ now. with_payment-Served cmd key request_hash _ (new_payment-For now id cmd _ refl)

  -- Under the assumptions FaultsAreHonest, RowsStayWellFormed and KeysStay on the environment:
  -- from tables where every payment is well formed and a history where every call was recorded,
  -- AuthorizeService.Authorize does not panic, keeps both, and returns a well-formed payment or an
  -- error; recorded means that in the tables as the service had committed them before it called
  -- the bank, the payment was stored in the state for that operation, with the amount of the
  -- request, under the call's key, locked for it. What others commit between that commit and the
  -- call is part of the run, and may change the payment.
  pub authorize-Served :
      (cmd : AuthorizeCommand) (key : String)
      → Triple e Sound (authorize cmd key) Served (λ _. Sound)
  unfolding authorize
  authorize-Served cmd key = Triple-bind {Q = λ _. Sound} _ _ (Triple-gets _ (λ d s h. h)) λ text.
      Triple-bind {Q = λ _. Sound} _ _ (unfold compute_hash in Triple-gets _ (λ d s h. h))
        λ request_hash.
          Triple-bind _ _
            (Triple-check_idempotency e Sound key request_hash honest keys (Sound-IsStable e stay))
            (λ o. after_check-Served cmd key request_hash o)
