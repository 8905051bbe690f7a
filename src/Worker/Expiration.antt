-- ===== src/Worker/Expiration.antt =====
-- internal/worker/expiration_worker.go.
use ficmart_payment_gateway.Prelude.{ℕ, zero, suc, none, some, List, [], ◌∷◌, str_eq, if◌then◌else◌}
use ficmart_payment_gateway.Prelude.Integer.{pos, ltb_ℤ, ◌-ℤ◌}
use ficmart_payment_gateway.Failure.{as_bank_error}
use ficmart_payment_gateway.Domain.{Payment, Time, Changed, mark_expired}
use ficmart_payment_gateway.Bank.{AuthorizationResponse, status_call}
use ficmart_payment_gateway.Exec.{
  Result, ok, err, panic, Exec, ◌>>=◌, pure, raise, ask, attempt, deref, lift, send,
}
use ficmart_payment_gateway.Postgres.Payments.{find_expired_authorizations, update, on_pool}

abbrev pub eight_days : Time
eight_days = pos 691200000000000

abbrev pub nine_days : Time
nine_days = pos 777600000000000

-- MarkExpired's result.
unfoldable pub after_mark : Changed → Exec Unit
unfolding update
after_mark (p, some x) = raise x
after_mark (p, none) = update on_pool p

unfoldable pub mark_as_expired : Payment → Exec Unit
unfolding after_mark mark_expired
mark_as_expired p = after_mark (mark_expired p)

-- An authorization that the bank still reports as AUTHORIZED.
unfoldable pub still_active : Payment → Exec Unit
unfolding mark_as_expired
still_active p = do
  at ← deref p.authorized_at
  now ← ask (λ e n. e.now n)
  if ltb_ℤ nine_days (now -ℤ at) then mark_as_expired p else pure tt

-- GetAuthorization's result.
unfoldable pub after_status : Payment → Result AuthorizationResponse → Exec Unit
unfolding still_active as_bank_error
after_status p (ok a) = if str_eq a.status "AUTHORIZED" then still_active p else mark_as_expired p
after_status p (err x) = elim (as_bank_error x) [
  | some b ↦ if str_eq b.code "authorization_expired" then mark_as_expired p else raise x
  | none ↦ raise x
]
after_status p panic = lift panic

unfoldable pub check_and_mark_expired : Payment → Exec Unit
unfolding after_status
check_and_mark_expired p = do
  id ← deref p.bank_auth_id
  r ← attempt (send (status_call id) (λ b n. b.get_authorization n id))
  after_status p r

-- An error of one payment is logged.
unfoldable pub check_each : List Payment → Exec Unit
unfolding check_and_mark_expired
check_each [] = pure tt
check_each (p ∷ ps) = do _ ← attempt (check_and_mark_expired p); check_each ps

unfoldable pub process_expirations : Exec Unit
unfolding check_each find_expired_authorizations
process_expirations = do
  now ← ask (λ e n. e.now n)
  rows ← find_expired_authorizations (now -ℤ eight_days) (pos 100)
  check_each rows

-- Start, for as many ticks as come before the context is done.
unfoldable pub start : ℕ → Exec Unit
unfolding process_expirations
start zero = pure tt
start (suc ticks) = do _ ← attempt process_expirations; start ticks
