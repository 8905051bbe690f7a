-- ===== src/Store.antt =====
-- The two tables of internal/db/migrations/001_init.up.sql, as rows in the order of insertion, and
-- the row types of infrastructure/persistence/postgres (models.go; a payment row is a Payment).
pub mod Rows
use ficmart_payment_gateway.Prelude.{
  String, Bool, Option, none, some, List, [], ◌∷◌, str_eq, if◌then◌else◌,
}
use ficmart_payment_gateway.Domain.{Payment, Time}

pub record IdempotencyKey : Type 0 where
  pub key : String
  pub payment_id : String
  pub request_hash : String
  pub locked_at : Option Time
  pub response_payload : Option String

pub record Db : Type 0 where
  pub payments : List Payment
  pub keys : List IdempotencyKey

-- SELECT … FROM payments WHERE id = $1; the column is the primary key.
unfoldable pub find_payment : String → List Payment → Option Payment
find_payment id [] = none
find_payment id (p ∷ ps) = if str_eq p.id id then some p else find_payment id ps

-- SELECT … FROM idempotency_keys WHERE key = $1; the column is the primary key.
unfoldable pub find_key : String → List IdempotencyKey → Option IdempotencyKey
find_key k [] = none
find_key k (i ∷ is) = if str_eq i.key k then some i else find_key k is

-- The columns that Update writes; the others keep their values.
abbrev pub overwrite : Payment → Payment → Payment
overwrite p row = record row {
  status = p.status;
  bank_auth_id = p.bank_auth_id;
  bank_capture_id = p.bank_capture_id;
  bank_void_id = p.bank_void_id;
  bank_refund_id = p.bank_refund_id;
  authorized_at = p.authorized_at;
  captured_at = p.captured_at;
  voided_at = p.voided_at;
  refunded_at = p.refunded_at;
  expires_at = p.expires_at;
  attempt_count = p.attempt_count;
  next_retry_at = p.next_retry_at;
}

-- UPDATE payments SET … WHERE id = $13
unfoldable pub update_rows : Payment → List Payment → List Payment
update_rows p [] = []
update_rows p (row ∷ rows) =
    (if str_eq row.id p.id then overwrite p row else row) ∷ update_rows p rows

-- UPDATE idempotency_keys SET … WHERE key = $…
unfoldable pub update_keys :
    (IdempotencyKey → IdempotencyKey) → String → List IdempotencyKey → List IdempotencyKey
update_keys f k [] = []
update_keys f k (i ∷ is) = (if str_eq i.key k then f i else i) ∷ update_keys f k is
