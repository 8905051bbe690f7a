-- ===== src/Services/Idempotency/Refusing.antt =====
-- The errors of the idempotency check (internal/application/services/helpers.go).
use ficmart_payment_gateway.Prelude.{
  String, ◌≡◌, refl, false, ◌⊎◌, inl, inr, Option, none, some, List, arith, str_eq,
}
use ficmart_payment_gateway.Failure.{
  Error, new_internal_error, new_idempotency_mismatch_error, as_service_error,
}
use ficmart_payment_gateway.Failure.Response.{to_http_status}
use ficmart_payment_gateway.Domain.{Time}
use ficmart_payment_gateway.Store.{IdempotencyKey, Db, find_key}
use ficmart_payment_gateway.Exec.{Env, Sent, or_fail}
use ficmart_payment_gateway.Postgres.Keys.{find_by_key}
use ficmart_payment_gateway.Exec.Triple.{
  Pred, Triple, Triple-bind, Triple-pure, Triple-raise, Triple-if, Triple-or_fail, Triple-weaken,
}
use ficmart_payment_gateway.Exec.Fair.{KeysStay, FaultsAreHonest, IsStable}
use ficmart_payment_gateway.Postgres.Reading.{Triple-find_by_key}
use ficmart_payment_gateway.Services.Idempotency.{check_lock, check_row, check_idempotency}
use ficmart_payment_gateway.Services.Idempotency.Waiting.{KeyIn, Triple-wait_for_completion}

-- A bad request, or an internal error.
abbrev pub IsBadOrInternal : Error → Type 0
IsBadOrInternal x = (to_http_status (some x) ≡ 400) ⊎ (to_http_status (some x) ≡ 500)

internal_status : (x : Error) → IsBadOrInternal (new_internal_error x)
unfolding to_http_status new_internal_error as_service_error
internal_status x = inr refl

mismatch_status : to_http_status (some new_idempotency_mismatch_error) ≡ 400
unfolding to_http_status new_idempotency_mismatch_error as_service_error
mismatch_status = refl

module _ (e : Env) (J : Pred) (key request_hash : String) (honest : FaultsAreHonest e)
    (stay : KeysStay e) (stable : IsStable e J) where
  abbrev Refusal : Error → Pred
  Refusal x d s = J d s × IsBadOrInternal x

  find-Refusal :
      Triple e J
        (or_fail new_internal_error (find_by_key key))
        (λ o d s. J d s × (o ≡ find_key key d.keys))
        Refusal
  find-Refusal =
      Triple-or_fail _ _ (Triple-find_by_key key honest stable (λ x d s j. (j, internal_status x)))

  check_lock-Refusal :
      (o : Option Time)
      → Triple e (λ d s. J d s × KeyIn key d s) (check_lock key o) (λ p. J) Refusal
  unfolding check_lock
  check_lock-Refusal none = Triple-pure none (λ d s h. h.0)
  check_lock-Refusal (some at) =
      Triple-bind {Q = λ p. J} _ _
        (Triple-or_fail _ _ (
          Triple-weaken _ (λ d s h. h) (λ p d s h. h.0.0) (λ x d s h. (h.0, internal_status x))
            (Triple-wait_for_completion e (λ d s. J d s × KeyIn key d s) key honest
              (λ n d s h. (stable n d s h.0, stay n key d h.1)) (λ d s h. h.1))))
        (λ p. Triple-pure (some p) (λ d s h. h))

  check_row-Refusal :
      (o : Option IdempotencyKey)
      → Triple e
          (λ d s. J d s × (o ≡ find_key key d.keys))
          (check_row key request_hash o)
          (λ p. J)
          Refusal
  unfolding check_row
  check_row-Refusal none = Triple-pure none (λ d s h. h.0)
  check_row-Refusal (some k) =
      Triple-if (str_eq k.request_hash request_hash) _ _
        (λ same.
          Triple-weaken _ (λ d s h. (h.0, rw (← h.1) refl)) (λ p d s h. h) (λ x d s h. h)
            (check_lock-Refusal k.locked_at))
        (λ other. Triple-raise _ (λ d s h. (h.0, inl mismatch_status)))

  -- Under FaultsAreHonest and KeysStay, for any claim J on tables and calls that the commits of
  -- others keep: checkIdempotency keeps J, does not panic, and an error that it returns has HTTP
  -- status 400 or 500, also where the wait ended with a timeout or with a request that is still
  -- processed.
  pub check_idempotency-Refusal : Triple e J (check_idempotency key request_hash) (λ p. J) Refusal
  unfolding check_idempotency
  check_idempotency-Refusal = Triple-bind _ _ find-Refusal check_row-Refusal

  module _
      (foreign : (d : Db) (s : List Sent)
        → J d s
        → (k : IdempotencyKey) × (find_key key d.keys ≡ some k)
          × (str_eq k.request_hash request_hash ≡ false)) where
    check_row_mismatch :
        (o : Option IdempotencyKey)
        → Triple e
            (λ d s. J d s × (o ≡ find_key key d.keys))
            (check_row key request_hash o)
            (λ p d s. ⊥)
            Refusal
    unfolding check_row
    check_row_mismatch none =
        Triple-pure none (λ d s h. let f = foreign d s h.0 in ground (arith, f.1, h.1))
    check_row_mismatch (some k) =
        Triple-if (str_eq k.request_hash request_hash) _ _
          (λ same.
            Triple-weaken {P' = λ d s. ⊥} {Q' = λ p d s. ⊥} {E' = λ x d s. ⊥} _
              (λ d s h. let f = foreign d s h.0 in ground (arith, f.1, f.2, h.1, same))
              (λ p d s h. h) (λ x d s h. absurd h) (record { at = λ w p. absurd p }))
          (λ other. Triple-raise _ (λ d s h. (h.0, inl mismatch_status)))

    -- Under FaultsAreHonest and KeysStay, for any claim J that the commits of others keep and that
    -- says that the key is in the table with another request's hash: checkIdempotency lets no
    -- request through and returns no payment; it keeps J and returns an error with HTTP status 400
    -- or 500.
    pub check_idempotency_mismatch :
        Triple e J (check_idempotency key request_hash) (λ p d s. ⊥) Refusal
    unfolding check_idempotency
    check_idempotency_mismatch = Triple-bind _ _ find-Refusal check_row_mismatch
