-- ===== src/Services/Refund/Ensures.antt =====
-- What the service of internal/application/services/refund.go ensures.
use ficmart_payment_gateway.Prelude.{ℕ, String, ◌≡◌, refl, Option, none, some, List, ◌∷◌, arith}
use ficmart_payment_gateway.Failure.{is_error, duplicate_idempotency_key}
use ficmart_payment_gateway.Domain
use ficmart_payment_gateway.Domain.{Payment, Time, refunding, mark_refunding}
use ficmart_payment_gateway.Domain.Invariant.{IsWellFormed}
use ficmart_payment_gateway.Bank
use ficmart_payment_gateway.Bank.{RefundResponse, refund_call}
use ficmart_payment_gateway.Store.{Db}
use ficmart_payment_gateway.Exec.{Result, ok, err, panic, Env, Sent}
use ficmart_payment_gateway.Exec.Triple.{
  Ends, Triple, Triple-bind, Triple-pure, Triple-raise, Triple-if, Triple-lift, Triple-gets,
  Triple-attempt, Triple-deref, Triple-send, Triple-weaken, Triple-given,
}
use ficmart_payment_gateway.Exec.Fair.{KeysStay, RowsStayWellFormed, FaultsAreHonest}
use ficmart_payment_gateway.Services.Idempotency.Waiting.{
  KeyIn, Cached, Triple-check_idempotency, Triple-wait_for_completion,
}
use ficmart_payment_gateway.Services.Intent.{
  Sound, Sound-IsStable, Marked, Served, Stored-Served, mark_refunding-MovesTo,
}
use ficmart_payment_gateway.Services.Transactions.Ensures.{
  Refused, Triple-mark_payment_transitioning,
}
use ficmart_payment_gateway.Services.Transactions.Settle.{Triple-bank_failed, Triple-finish}
use ficmart_payment_gateway.Services.Refund.{
  after_bank, call_bank, after_mark, after_check, refund, refund_request,
}

-- The domain method keeps the payment well formed.
refund_kept :
    (p : Payment) (id : String) (at : Time)
    → IsWellFormed p
    → IsWellFormed (Domain.refund p id at).0
unfolding Domain.refund
refund_kept p id at h = ground arith

-- A payment in this state has the bank's reference that the request needs.
pub refunding_reference :
    (p : Payment)
    → IsWellFormed p
    → p.status ≡ refunding
    → (reference : String) × (p.bank_capture_id ≡ some reference)
refunding_reference p h e = ground arith

module _ (e : Env) (honest : FaultsAreHonest e) (stay : RowsStayWellFormed e)
    (keys : KeysStay e) where
  after_bank-Served :
      (p : Payment) (key : String) (r : Result RefundResponse)
      → Triple e (Ends (λ _. Served p) (λ _. Served p) r) (after_bank p key r) Served (λ _. Sound)
  unfolding after_bank
  after_bank-Served p key (ok r) = Triple-given λ wf.
      Triple-weaken _ (λ d s h. h) (λ q d s h. (h.0, h.1)) (λ x d s h. h)
        (Triple-finish e honest stay (Domain.refund p r.refund_id r.refunded_at) key (Bank.refund r)
          (refund_kept p r.refund_id r.refunded_at wf))
  after_bank-Served p key (err x) = Triple-given λ wf.
      Triple-weaken _ (λ d s h. h) (λ q d s h. absurd h) (λ x d s h. h)
        (Triple-bank_failed e honest stay p key x wf)
  after_bank-Served p key panic = Triple-lift panic (λ d s h. h)

  -- The call is recorded when it is made, and the reference that it needs is there.
  call_bank-Served :
      (p : Payment) (key : String)
      → Triple e (Marked refunding key p) (call_bank p key) Served (λ _. Sound)
  unfolding call_bank
  call_bank-Served q key =
      Triple-bind
        {Q = λ reference d s. Marked refunding key q d s × (q.bank_capture_id ≡ some reference)} _ _
        (Triple-deref q.bank_capture_id (λ d s h.
          let (reference, found) = refunding_reference q h.1 h.2 in (reference, found, (h, found))))
        λ reference.
          Triple-bind _ _
            (Triple-attempt {Q = λ _. Served q} {E = λ _. Served q} _ _
              (Triple-send _ _ (λ a. recorded reference) (λ x. recorded reference)))
            (λ r. after_bank-Served q key r)
    where
      recorded :
          (reference : String) (n : ℕ) (d : Db) (s : List Sent)
          → Marked refunding key q d s × (q.bank_capture_id ≡ some reference)
          → Served q (e.others n d) (
              record {
                call = refund_call (refund_request q reference) key;
                seen = d;
                at = e.others n d;
              }
              ∷ s)
      recorded reference n d s (h, found) =
          ((stay n d h.0.0, ((q, h.3, h.2, found, refl), h.0.1)), h.1)

  after_mark-Served :
      (key : String) (r : Result Payment)
      → Triple e
          (Ends (Marked refunding key) (Refused key) r)
          (after_mark key r)
          Served
          (λ _. Sound)
  unfolding after_mark
  after_mark-Served key (ok p) = call_bank-Served p key
  after_mark-Served key (err x) =
      Triple-if (is_error x duplicate_idempotency_key) _ _
        (λ taken.
          Triple-weaken _ (λ d s h. (h.0, h.1 taken)) (λ p d s h. Stored-Served p d s h.0.0 h.1)
            (λ x d s h. h.0)
            (Triple-wait_for_completion e (λ d s. Sound d s × KeyIn key d s) key honest
              (λ n d s h. (Sound-IsStable e stay n d s h.0, keys n key d h.1)) (λ d s h. h.1)))
        (λ other. Triple-raise x (λ d s h. h.0))
  after_mark-Served key panic = Triple-lift panic (λ d s h. h)

  after_check-Served :
      (payment_id key request_hash : String) (o : Option Payment)
      → Triple e
          (λ d s. Sound d s × Cached o d s)
          (after_check payment_id key request_hash o)
          Served
          (λ _. Sound)
  unfolding after_check
  after_check-Served payment_id key request_hash (some p) =
      Triple-pure p (λ d s h. Stored-Served p d s h.0 h.1)
  after_check-Served payment_id key request_hash none =
      Triple-bind _ _
        (Triple-attempt _ _ (
          Triple-weaken _ (λ d s h. h.0) (λ q d s h. h) (λ x d s h. h)
            (Triple-mark_payment_transitioning e honest stay refunding payment_id key request_hash
              mark_refunding mark_refunding-MovesTo)))
        (λ r. after_mark-Served key r)

  -- Under the assumptions FaultsAreHonest, RowsStayWellFormed and KeysStay on the environment:
  -- from tables where every payment is well formed and a history where every call was recorded,
  -- RefundService.Refund does not panic, keeps both, and returns a well-formed payment or an
  -- error; recorded means that in the tables as the service had committed them before it called
  -- the bank, the payment was stored in the state for that operation, with the amount and capture
  -- reference of the request, under the call's key, locked for it. What others commit between that
  -- commit and the call is part of the run, and may change the payment.
  pub refund-Served :
      (payment_id key : String) → Triple e Sound (refund payment_id key) Served (λ _. Sound)
  unfolding refund
  refund-Served payment_id key =
      Triple-bind {Q = λ _. Sound} _ _ (Triple-gets _ (λ d s h. h)) λ request_hash.
        Triple-bind _ _
          (Triple-check_idempotency e Sound key request_hash honest keys (Sound-IsStable e stay))
          (λ o. after_check-Served payment_id key request_hash o)
