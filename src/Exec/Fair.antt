-- ===== src/Exec/Fair.antt =====
-- What is assumed of the other requests and workers, and of the driver.
use ficmart_payment_gateway.Prelude.{ℕ, String, ◌≡◌, true, false, some, List, All, is_some}
use ficmart_payment_gateway.Failure.{
  Error, is_error, is_unique_violation, duplicate_idempotency_key, no_rows,
}
use ficmart_payment_gateway.Domain.Invariant.{IsWellFormed}
use ficmart_payment_gateway.Store.{Db, find_key}
use ficmart_payment_gateway.Exec.{Env, Sent}
use ficmart_payment_gateway.Exec.Triple.{Pred}

-- A key, once in the table, is never deleted by others.
abbrev pub KeysStay : Env → Type 0
KeysStay e =
    (n : ℕ) (k : String) (d : Db)
    → is_some (find_key k d.keys) ≡ true
    → is_some (find_key k (e.others n d).keys) ≡ true

-- Others keep every payment well formed.
abbrev pub RowsStayWellFormed : Env → Type 0
RowsStayWellFormed e =
    (n : ℕ) (d : Db) → All IsWellFormed d.payments → All IsWellFormed (e.others n d).payments

-- An error that says nothing of a unique constraint, or of a result without rows.
pub record IsHonest (x : Error) : Type 0 where
  pub not_unique : is_unique_violation x ≡ false
  pub not_duplicate : is_error x duplicate_idempotency_key ≡ false
  pub not_absent : is_error x no_rows ≡ false

-- Where a statement fails for a reason outside the tables, the driver does not report a violated
-- constraint or a missing row.
abbrev pub FaultsAreHonest : Env → Type 0
FaultsAreHonest e = (n : ℕ) (x : Error) → e.fault n ≡ some x → IsHonest x

-- A claim that the commits of others do not break.
abbrev pub IsStable : Env → Pred → Type 0
IsStable e J = (n : ℕ) (d : Db) (s : List Sent) → J d s → J (e.others n d) s
