-- ===== src/Worker/Ensures.antt =====
-- What the workers of internal/worker ensure: the statement on the pool that all of them use, and
-- the payments that are given up (retry_worker.go).
pub mod Recovering
pub mod Resuming
pub mod Selecting
pub mod Expiring
pub mod Delays
use ficmart_payment_gateway.Prelude.{String, List, [], ◌∷◌, arith}
use ficmart_payment_gateway.Domain.{Payment, fail}
use ficmart_payment_gateway.Domain.Invariant.{IsWellFormed}
use ficmart_payment_gateway.Exec.{Env, Exec, Result, ok, err, panic, attempt, ◌>>=◌}
use ficmart_payment_gateway.Exec.Triple.{
  Ends, Triple, Triple-bind, Triple-pure, Triple-lift, Triple-gets, Triple-ask, Triple-or_fail,
  Triple-attempt, Triple-write, Triple-round_trip, Triple-fresh_round_trip, Triple-given,
  Triple-weaken,
}
use ficmart_payment_gateway.Exec.Fair.{FaultsAreHonest, RowsStayWellFormed}
use ficmart_payment_gateway.Store.Rows.{find_payment-IsWellFormed, update_rows-IsWellFormed}
use ficmart_payment_gateway.Postgres.Payments.{update, on_pool, update_payment}
use ficmart_payment_gateway.Postgres.Ensures.{updated_rows}
use ficmart_payment_gateway.Postgres.Reading.{Triple-find_by_id}
use ficmart_payment_gateway.Services.Intent.{Sound, Sound-IsStable, Served}
use ficmart_payment_gateway.Worker.Retries.{
  give_up, after_next, timeout_rows, timeout_unauthorized_payments,
}

-- The action keeps the tables and the calls in order, and does not panic.
abbrev pub IsSafe : Env → {A : Type 0} → Exec A → Type 0
IsSafe e m = Triple e Sound m (λ _. Sound) (λ _. Sound)

fail_kept : (p : Payment) → IsWellFormed p → IsWellFormed (fail p).0
unfolding fail
fail_kept p h = ground arith

-- An action whose result or error is dropped.
pub attempt_then :
    {e : Env} {A B : Type 0} (m : Exec A) (k : Exec B)
    → IsSafe e m
    → IsSafe e k
    → IsSafe e (attempt m >>= λ _. k)
attempt_then m k hm hk = Triple-bind _ _ (Triple-attempt _ m hm) (elim [
  | ok a ↦ hk
  | err x ↦ hk
  | panic ↦ Triple-weaken _ (λ d s h. absurd h) (λ a d s h. h) (λ x d s h. h) hk
])

module _ (e : Env) (honest : FaultsAreHonest e) (stay : RowsStayWellFormed e) where
  pub update-IsSafe : (p : Payment) → IsWellFormed p → IsSafe e (update on_pool p)
  unfolding update
  update-IsSafe p wf =
      Triple-bind {Q = λ _. Sound} _ _
        (Triple-or_fail _ _ (
          Triple-fresh_round_trip (λ n d s h. Sound-IsStable e stay n d s h)
            (λ x n d s f h. Sound-IsStable e stay n d s h)))
        λ _.
          Triple-write (update_payment p)
            (λ d d' s f h.
              rw (updated_rows p d d' f) (update_rows-IsWellFormed p d.payments wf h.0, h.1))
            (λ x d s f h. h)

  give_up-IsSafe :
      (again : Exec Unit) (r : Result Payment)
      → IsSafe e again
      → Triple e (Ends Served (λ _. Sound) r) (give_up again r) (λ _. Sound) (λ _. Sound)
  unfolding give_up
  give_up-IsSafe again (ok p) h =
      Triple-given λ wf. Triple-bind _ _ (update-IsSafe (fail p).0 (fail_kept p wf)) (λ _. h)
  give_up-IsSafe again (err x) h = h
  give_up-IsSafe again panic h = Triple-lift panic (λ d s f. f)

  after_next-IsSafe :
      (id : String) (again : Exec Unit) (r : Result Unit)
      → IsSafe e again
      → Triple e
          (Ends (λ _. Sound) (λ _. Sound) r)
          (after_next id again r)
          (λ _. Sound)
          (λ _. Sound)
  unfolding after_next
  after_next-IsSafe id again (ok t) h =
      Triple-bind _ _
        (Triple-attempt _ _ (
          Triple-weaken _ (λ d s k. k)
            (λ p d s k. (k.0, find_payment-IsWellFormed id d.payments k.0.0 k.1)) (λ x d s k. k)
            (Triple-find_by_id {E = λ _. Sound} id honest (Sound-IsStable e stay)
              (λ x d s u k. k))))
        (λ r. give_up-IsSafe again r h)
  after_next-IsSafe id again (err x) h = Triple-pure tt (λ d s k. k)
  after_next-IsSafe id again panic h = Triple-lift panic (λ d s k. k)

  timeout_rows-IsSafe : (ids : List String) → IsSafe e (timeout_rows ids)
  unfolding timeout_rows
  timeout_rows-IsSafe [] = Triple-pure tt (λ d s h. h)
  timeout_rows-IsSafe (id ∷ rest) =
      Triple-bind _ _
        (Triple-attempt {E = λ _. Sound} _ _ (Triple-round_trip (λ d s h. h) (λ x n d s f h. h)))
        (λ r. after_next-IsSafe id (timeout_rows rest) r (timeout_rows-IsSafe rest))

  -- Under FaultsAreHonest and RowsStayWellFormed: giving up old pending payments does not panic
  -- and keeps every payment well formed and every call recorded.
  pub timeout_unauthorized_payments-IsSafe : IsSafe e timeout_unauthorized_payments
  unfolding timeout_unauthorized_payments
  timeout_unauthorized_payments-IsSafe =
      Triple-bind {Q = λ _. Sound} _ _
        (Triple-fresh_round_trip (λ n d s h. Sound-IsStable e stay n d s h)
          (λ x n d s f h. Sound-IsStable e stay n d s h))
        λ _. Triple-bind {Q = λ _. Sound} _ _ (Triple-ask _ (λ n d s h. h)) λ now.
          Triple-bind {Q = λ _. Sound} _ _ (Triple-gets _ (λ d s h. h))
            (λ ids. timeout_rows-IsSafe ids)
