-- ===== src/Services/Transactions/Opening.antt =====
-- What the transaction that begins an authorization ensures (services/helpers.go:
-- acquireIdempotencyLock).
use ficmart_payment_gateway.Prelude.{
  String, ◌≡◌, refl, ap, subst, none, some, List, [], ◌∷◌, ◌++◌, All, eq_refl,
}
use ficmart_payment_gateway.Failure.{is_error, new_internal_error}
use ficmart_payment_gateway.Domain.{Payment, pending}
use ficmart_payment_gateway.Domain.Invariant.{IsWellFormed}
use ficmart_payment_gateway.Store.{Db, find_payment}
use ficmart_payment_gateway.Store.Rows.{find_payment-append, append-IsWellFormed}
use ficmart_payment_gateway.Exec.{Env}
use ficmart_payment_gateway.Exec.Triple.{
  Triple, Triple-bind, Triple-or_fail, Triple-atomically, Triple-weaken,
}
use ficmart_payment_gateway.Exec.Fair.{FaultsAreHonest, RowsStayWellFormed}
use ficmart_payment_gateway.Postgres.Keys.{locked_key}
use ficmart_payment_gateway.Postgres.Ensures.{Triple-create, Triple-acquire_lock}
use ficmart_payment_gateway.Services.Intent.{Sound, Marked}
use ficmart_payment_gateway.Services.Transactions.{acquire_idempotency_lock}
use ficmart_payment_gateway.Services.Transactions.Ensures.{
  Refused, untaken_refused, find_locked_key, begin-refused, commit-refused,
}

find_created :
    (p : Payment) (rows : List Payment)
    → find_payment p.id rows ≡ none
    → find_payment p.id (rows ++ p ∷ []) ≡ some p
find_created p rows new =
    rw (find_payment-append p.id rows _, new) (unfold find_payment in rw (eq_refl p.id) refl)

module _ (e : Env) (honest : FaultsAreHonest e) (stay : RowsStayWellFormed e) where
  -- Committed, the new payment is stored as pending under its locked key.
  pub Triple-acquire_idempotency_lock :
      (p : Payment) (key request_hash : String)
      → IsWellFormed p
      → p.status ≡ pending
      → Triple e Sound
          (acquire_idempotency_lock p key request_hash)
          (λ _. Marked pending key p)
          (Refused key)
  unfolding acquire_idempotency_lock is_error new_internal_error
  Triple-acquire_idempotency_lock p key request_hash wf new_status =
      Triple-bind {Q = λ _. Sound} _ _ (begin-refused e honest stay key) λ _.
        Triple-atomically _ λ before.
          Triple-bind
            {Q = λ _ d s.
              Sound before s
              × All IsWellFormed d.payments
              × (find_payment p.id d.payments ≡ some p)
              × (d.keys ≡ before.keys)}
            _ _
            (Triple-or_fail _ _ (
              Triple-create p honest
                (λ d s new h. (
                  subst (λ b. Sound b s) h.1 h.0,
                  append-IsWellFormed d.payments p h.0.0 wf,
                  find_created p d.payments new,
                  ap (λ (b : Db). b.keys) h.1,
                ))
                (λ x d s u h.
                  untaken_refused key (new_internal_error x) before s u
                    (subst (λ b. Sound b s) h.1 h.0))))
            λ _.
              Triple-bind {Q = λ _ d s. Sound before s × Marked pending key p d s} _ _
                (Triple-acquire_lock key p.id request_hash honest
                  (λ now d s new h. (
                    h.0,
                    (
                      (h.1, h.0.1),
                      wf,
                      new_status,
                      record {
                        row = locked_key key p.id request_hash now;
                        found = find_locked_key key p.id request_hash now d.keys new;
                        locked = refl;
                        owner = refl;
                        stored = h.2;
                      },
                    ),
                  ))
                  (λ x d s taken h. (h.0, λ dup. rw (← h.3) (taken dup))))
                λ _.
                  Triple-weaken _ (λ d s h. h) (λ _ d s h. h.1) (λ x d s h. h)
                    (commit-refused e honest stay key before
                      (λ d s. Sound before s × Marked pending key p d s) (λ d s h. h.0))
