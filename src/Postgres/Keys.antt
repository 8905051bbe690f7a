-- ===== src/Postgres/Keys.antt =====
-- internal/infrastructure/persistence/postgres/idempotency_repository.go.
use ficmart_payment_gateway.Prelude.{String, Option, none, some, [], ◌∷◌, ◌++◌, if◌then◌else◌}
use ficmart_payment_gateway.Failure.{
  Error, sentinel, wrap, pg_error, is_error, is_unique_violation, no_rows,
  duplicate_idempotency_key,
}
use ficmart_payment_gateway.Domain.{Time}
use ficmart_payment_gateway.Bank.Retry.{Answer, reply, fault}
use ficmart_payment_gateway.Store.{IdempotencyKey, Db, find_payment, find_key, update_keys}
use ficmart_payment_gateway.Exec.{
  Result, ok, err, panic, Exec, ◌>>=◌, ◌>>◌, pure, raise, gets, write, ask, or_fail, attempt,
  round_trip, fresh_round_trip, lift,
}

-- The INSERT: the key is unique and the payment must be there.
abbrev pub insert_key : IdempotencyKey → Db → Answer Db
insert_key i db = elim (find_key i.key db.keys) [
  | some _ ↦ fault (pg_error "23505")
  | none ↦ elim (find_payment i.payment_id db.payments) [
    | none ↦ fault (pg_error "23503")
    | some _ ↦ reply (record db { keys = db.keys ++ i ∷ [] })
  ]
]

abbrev pub locked_key : String → String → String → Time → IdempotencyKey
locked_key key payment_id request_hash now = record {
  key = key;
  payment_id = payment_id;
  request_hash = request_hash;
  locked_at = some now;
  response_payload = none;
}

abbrev pub lock_error : Error → Error
lock_error x =
    if is_unique_violation x
    then sentinel duplicate_idempotency_key
    else wrap "failed to acquire idempotency lock" x

unfoldable pub acquire_lock : String → String → String → Exec Unit
acquire_lock key payment_id request_hash = do
  now ← ask (λ e n. e.now n)
  or_fail lock_error
      (do round_trip; write (insert_key (locked_key key payment_id request_hash now)))

-- A row, or nil where the driver reports that there is none.
unfoldable pub row_or_nil : Result Unit → String → Exec (Option IdempotencyKey)
row_or_nil (ok _) key = gets (λ e db. find_key key db.keys)
row_or_nil (err x) key = if is_error x no_rows then pure none else raise x
row_or_nil panic key = lift panic

unfoldable pub find_by_key : String → Exec (Option IdempotencyKey)
unfolding row_or_nil
find_by_key key = do r ← attempt fresh_round_trip; row_or_nil r key

abbrev pub set_payload : String → IdempotencyKey → IdempotencyKey
set_payload payload i = record i { response_payload = some payload }

abbrev pub unlock : IdempotencyKey → IdempotencyKey
unlock i = record i { locked_at = none }

unfoldable pub store_response : String → String → Exec Unit
store_response key payload = or_fail (wrap "failed to store idempotency response") (do
  round_trip
  write (λ db. reply (record db { keys = update_keys (set_payload payload) key db.keys })))

unfoldable pub release_lock : String → Exec Unit
release_lock key =
    or_fail (wrap "failed to release idempotency lock")
      (do round_trip; write (λ db. reply (record db { keys = update_keys unlock key db.keys })))
