-- ===== src/Services/Intent.antt =====
-- What the tables must hold before the bank is called: the intent-first rule of docs/ARCHITECTURE.md
-- (intermediate states, the idempotency lock, and the write-ahead record of an authorization).
use ficmart_payment_gateway.Prelude.{
  String, ◌≡◌, true, false, none, some, List, All, arith, is_some,
}
use ficmart_payment_gateway.Failure.{Error, is_error, duplicate_idempotency_key}
use ficmart_payment_gateway.Domain.{
  Status, Payment, Changed, pending, capturing, voiding, refunding, mark_capturing, mark_voiding,
  mark_refunding,
}
use ficmart_payment_gateway.Domain.Invariant.{IsWellFormed}
use ficmart_payment_gateway.Bank.{
  BankCall, authorize_call, capture_call, void_call, refund_call, status_call,
}
use ficmart_payment_gateway.Store.{IdempotencyKey, Db, find_payment, find_key}
use ficmart_payment_gateway.Store.Rows.{find_payment-IsWellFormed}
use ficmart_payment_gateway.Services.Idempotency.Waiting.{Stored}
use ficmart_payment_gateway.Exec.{Env, Sent}
use ficmart_payment_gateway.Exec.Triple.{Pred}
use ficmart_payment_gateway.Exec.Fair.{RowsStayWellFormed, IsStable}

-- The key is in the table, locked, and belongs to the payment, which is stored as `p`.
pub record Locks (key : String) (p : Payment) (d : Db) : Type 0 where
  pub row : IdempotencyKey
  pub found : find_key key d.keys ≡ some row
  pub locked : is_some row.locked_at ≡ true
  pub owner : row.payment_id ≡ p.id
  pub stored : find_payment p.id d.payments ≡ some p

-- A call of the bank is recorded when the tables say what is being done, to which payment, under
-- which key, and the request is for that payment's amount and reference. Asking for an
-- authorization changes nothing at the bank, so no record is wanted.
abbrev pub Recorded : BankCall → Db → Type 0
Recorded (authorize_call req key) d =
    (p : Payment) × Locks key p d × (p.status ≡ pending) × (p.amount_cents ≡ req.amount)
Recorded (capture_call req key) d =
    (p : Payment) × Locks key p d
    × (p.status ≡ capturing)
    × (p.bank_auth_id ≡ some req.authorization_id)
    × (p.amount_cents ≡ req.amount)
Recorded (void_call req key) d =
    (p : Payment) × Locks key p d
    × (p.status ≡ voiding)
    × (p.bank_auth_id ≡ some req.authorization_id)
Recorded (refund_call req key) d =
    (p : Payment) × Locks key p d
    × (p.status ≡ refunding)
    × (p.bank_capture_id ≡ some req.capture_id)
    × (p.amount_cents ≡ req.amount)
Recorded (status_call id) d = Unit

abbrev pub IsRecorded : Sent → Type 0
IsRecorded r = Recorded r.call r.seen

-- Every payment is well formed, and every call so far was recorded in the tables that the caller
-- had committed before it.
abbrev pub Sound : Pred
Sound d s = All IsWellFormed d.payments × All IsRecorded s

pub Sound-IsStable : (e : Env) → RowsStayWellFormed e → IsStable e Sound
Sound-IsStable e rows n d s h = (rows n d h.0, h.1)

-- The payment as the service holds it after its transaction: in the state, stored and locked.
abbrev pub Marked : Status → String → Payment → Pred
Marked t key q d s = Sound d s × IsWellFormed q × (q.status ≡ t) × Locks key q d

-- A service's result: the tables and the calls are in order, and so is the payment it returns.
abbrev pub Served : Payment → Pred
Served p d s = Sound d s × IsWellFormed p

pub Stored-Served : (p : Payment) (d : Db) (s : List Sent) → Sound d s → Stored p d s → Served p d s
Stored-Served p d s h (id, found) = (h, find_payment-IsWellFormed id d.payments h.0 found)

-- A method that marks a payment for an operation.
pub record MovesTo (t : Status) (f : Payment → Changed) : Type 0 where
  pub moved : (p q : Payment) → f p ≡ (q, none) → q ≡ record p { status = t }
  pub kept : (p : Payment) → IsWellFormed p → IsWellFormed (f p).0
  pub refused :
      (p q : Payment) (x : Error) → f p ≡ (q, some x) → is_error x duplicate_idempotency_key ≡ false

mark_capturing_moved :
    (p q : Payment) → mark_capturing p ≡ (q, none) → q ≡ record p { status = capturing }
unfolding mark_capturing
mark_capturing_moved p q h = ground arith

mark_capturing_kept : (p : Payment) → IsWellFormed p → IsWellFormed (mark_capturing p).0
unfolding mark_capturing
mark_capturing_kept p h = ground arith

mark_capturing_refused :
    (p q : Payment) (x : Error)
    → mark_capturing p ≡ (q, some x)
    → is_error x duplicate_idempotency_key ≡ false
unfolding mark_capturing is_error
mark_capturing_refused p q x h = ground arith

pub mark_capturing-MovesTo : MovesTo capturing mark_capturing
mark_capturing-MovesTo = record {
  moved = mark_capturing_moved;
  kept = mark_capturing_kept;
  refused = mark_capturing_refused;
}

mark_voiding_moved :
    (p q : Payment) → mark_voiding p ≡ (q, none) → q ≡ record p { status = voiding }
unfolding mark_voiding
mark_voiding_moved p q h = ground arith

mark_voiding_kept : (p : Payment) → IsWellFormed p → IsWellFormed (mark_voiding p).0
unfolding mark_voiding
mark_voiding_kept p h = ground arith

mark_voiding_refused :
    (p q : Payment) (x : Error)
    → mark_voiding p ≡ (q, some x)
    → is_error x duplicate_idempotency_key ≡ false
unfolding mark_voiding is_error
mark_voiding_refused p q x h = ground arith

pub mark_voiding-MovesTo : MovesTo voiding mark_voiding
mark_voiding-MovesTo = record {
  moved = mark_voiding_moved;
  kept = mark_voiding_kept;
  refused = mark_voiding_refused;
}

mark_refunding_moved :
    (p q : Payment) → mark_refunding p ≡ (q, none) → q ≡ record p { status = refunding }
unfolding mark_refunding
mark_refunding_moved p q h = ground arith

mark_refunding_kept : (p : Payment) → IsWellFormed p → IsWellFormed (mark_refunding p).0
unfolding mark_refunding
mark_refunding_kept p h = ground arith

mark_refunding_refused :
    (p q : Payment) (x : Error)
    → mark_refunding p ≡ (q, some x)
    → is_error x duplicate_idempotency_key ≡ false
unfolding mark_refunding is_error
mark_refunding_refused p q x h = ground arith

pub mark_refunding-MovesTo : MovesTo refunding mark_refunding
mark_refunding-MovesTo = record {
  moved = mark_refunding_moved;
  kept = mark_refunding_kept;
  refused = mark_refunding_refused;
}
