-- ===== src/Services/History.antt =====
-- At most one call of the bank for each idempotency key, over any requests
-- (internal/application/services): the claim, and the transactions that keep it.
pub mod Keeping
pub mod Locking
pub mod Moving
pub mod Opening
pub mod Requests
pub mod Steps
use ficmart_payment_gateway.Prelude.{
  String, ◌≡◌, refl, ap, subst, true, false, Option, none, some, List, [], ◌∷◌, ◌++◌, All, arith,
  is_some,
}
use ficmart_payment_gateway.Failure.{Error, new_internal_error}
use ficmart_payment_gateway.Failure.Category.{categorize_error, is_permanent}
use ficmart_payment_gateway.Domain.{Payment, Changed, fail}
use ficmart_payment_gateway.Bank.{
  BankCall, BankResponse, authorize_call, capture_call, void_call, refund_call, status_call,
}
use ficmart_payment_gateway.Bank.Retry.{Answer, reply, fault}
use ficmart_payment_gateway.Store.{IdempotencyKey, Db, find_key, update_keys}
use ficmart_payment_gateway.Store.Rows.{find_key-append, find_key-update_keys}
use ficmart_payment_gateway.Exec.{Env, Exec, Sent, Result, ok, err, panic}
use ficmart_payment_gateway.Exec.Triple.{
  Pred, Ends, Triple, Triple-bind, Triple-pure, Triple-raise, Triple-if, Triple-lift, Triple-gets,
  Triple-or_fail, Triple-attempt, Triple-round_trip, Triple-fresh_round_trip, Triple-atomically,
  Triple-weaken,
}
use ficmart_payment_gateway.Exec.Fair.{FaultsAreHonest, KeysStay, IsStable}
use ficmart_payment_gateway.Postgres.Keys.{set_payload, unlock}
use ficmart_payment_gateway.Postgres.Ensures.{
  Triple-acquire_lock, Triple-create, Triple-update, Triple-store_response, Triple-release_lock,
}
use ficmart_payment_gateway.Postgres.Reading.{Triple-find_by_id_for_update}
use ficmart_payment_gateway.Services.Idempotency.Waiting.{KeyIn}
use ficmart_payment_gateway.Services.Transactions.{
  begin, commit, mark_payment_transitioning, acquire_idempotency_lock, accepted, record_failure,
  finalize_payment, fail_payment, handle_bank_failure, report, bank_failed, finish,
}

-- The idempotency key of a call; asking for an authorization has none.
abbrev pub key_of : BankCall → Option String
key_of (authorize_call req key) = some key
key_of (capture_call req key) = some key
key_of (void_call req key) = some key
key_of (refund_call req key) = some key
key_of (status_call id) = none

-- No call so far has the key.
abbrev pub Unsent : String → List Sent → Type 0
Unsent key s = All (λ (r : Sent). key_of r.call ≡ some key → ⊥) s

-- Each key has at most one call, and was in the table when the call was made.
abbrev pub AtMostOnce : List Sent → Type 0
AtMostOnce [] = Unit
AtMostOnce (r ∷ s) =
    ((key : String)
      → key_of r.call ≡ some key
      → Unsent key s × (is_some (find_key key r.at.keys) ≡ true))
    × AtMostOnce s

-- The key of every call is in the table.
abbrev pub Known : Pred
Known d s =
    All
      (λ (r : Sent).
        (key : String) → key_of r.call ≡ some key → is_some (find_key key d.keys) ≡ true)
      s

abbrev pub Once : Pred
Once d s = AtMostOnce s × Known d s

-- The key is in the table and may be sent.
abbrev pub Fresh : String → Pred
Fresh key d s = Once d s × KeyIn key d s × Unsent key s

-- No key is lost.
abbrev pub KeysKept : Db → Db → Type 0
KeysKept d d' =
    (key : String) → is_some (find_key key d.keys) ≡ true → is_some (find_key key d'.keys) ≡ true

Known-kept : (d d' : Db) (s : List Sent) → KeysKept d d' → Known d s → Known d' s
Known-kept d d' [] kept h = tt
Known-kept d d' (r ∷ s) kept h = (λ key e. kept key (h.0 key e), Known-kept d d' s kept h.1)

-- A claim that keeping the keys keeps.
abbrev pub IsMonotone : Pred → Type 0
IsMonotone J = (d d' : Db) (s : List Sent) → KeysKept d d' → J d s → J d' s

pub Once-IsMonotone : IsMonotone Once
Once-IsMonotone d d' s kept h = (h.0, Known-kept d d' s kept h.1)

pub monotone-IsStable : (e : Env) (J : Pred) → KeysStay e → IsMonotone J → IsStable e J
monotone-IsStable e J stay mono n d s h = mono d (e.others n d) s (λ key. stay n key d) h

pub known-Unsent :
    (key : String) (d : Db) (s : List Sent) → Known d s → find_key key d.keys ≡ none → Unsent key s
known-Unsent key d [] h absent = tt
known-Unsent key d (r ∷ s) h absent =
    (λ e. let there = h.0 key e in ground (arith, there, absent), known-Unsent key d s h.1 absent)

-- Sending a fresh key.
pub Fresh-send :
    (key : String) (c : BankCall) (d d' : Db) (s : List Sent)
    → key_of c ≡ some key
    → KeysKept d d'
    → Fresh key d s
    → Once d' (record { call = c; seen = d; at = d' } ∷ s)
Fresh-send key c d d' s e kept h = (
  (
    λ k f.
        let same : key ≡ k = cc in subst (λ k. Unsent k s × KeyIn k d' s) same (h.2, kept key h.1),
    h.0.0,
  ),
  (
    λ k f. let same : key ≡ k = cc in subst (λ k. KeyIn k d' s) same (kept key h.1),
    Known-kept d d' s kept h.0.1,
  ),
)
