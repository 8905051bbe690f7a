-- ===== src/Services/Once.antt =====
-- A key that is in the table is not carried out again (internal/application/services): the two
-- transactions that lock a key refuse it.
pub mod Moving
pub mod Opening
use ficmart_payment_gateway.Prelude.{String, List, ◌≡◌, none, arith, subst}
use ficmart_payment_gateway.Failure.{Error, new_internal_error}
use ficmart_payment_gateway.Domain.{Payment, Changed}
use ficmart_payment_gateway.Store.{Db, find_key}
use ficmart_payment_gateway.Store.Rows
use ficmart_payment_gateway.Exec.{Env, Exec, Sent}
use ficmart_payment_gateway.Exec.Triple.{
  Pred, Triple, Triple-bind, Triple-or_fail, Triple-fresh_round_trip, Triple-atomically,
}
use ficmart_payment_gateway.Exec.Fair.{FaultsAreHonest, KeysStay, IsStable}
use ficmart_payment_gateway.Postgres.Ensures.{Triple-acquire_lock, Triple-create}
use ficmart_payment_gateway.Services.Idempotency.Waiting.{KeyIn}
use ficmart_payment_gateway.Services.Transactions.{
  begin, keep_duplicate, mark_payment_transitioning, acquire_idempotency_lock,
}

-- The key is in the table, and these are all the calls that the bank has been sent.
abbrev pub Held : String → List Sent → Pred
Held key calls d s = KeyIn key d s × (s ≡ calls)

pub Held-IsStable :
    (e : Env) (key : String) (calls : List Sent) → KeysStay e → IsStable e (Held key calls)
Held-IsStable e key calls stay n d s h = (stay n key d h.0, h.1)

-- Code that is not reached.
pub Triple-unreached :
    {e : Env} {A : Type 0} {m : Exec A} {Q : A → Pred} {E : Error → Pred}
    → Triple e (λ d s. ⊥) m Q E
Triple-unreached = record { at = λ w p. absurd p }

key_absent :
    (key : String) (d : Db) (s : List Sent) → KeyIn key d s → find_key key d.keys ≡ none → ⊥
key_absent key d s there absent = ground (arith, there, absent)

module _ (e : Env) (honest : FaultsAreHonest e) (stay : KeysStay e) (key : String)
    (calls : List Sent) where
  begin-Held : Triple e (Held key calls) begin (λ _. Held key calls) (λ _. Held key calls)
  begin-Held = Triple-or_fail _ _ (
      Triple-fresh_round_trip (λ n d s h. Held-IsStable e key calls stay n d s h)
        (λ x n d s f h. Held-IsStable e key calls stay n d s h))

  -- Nothing is committed, and no payment is returned.
  pub mark_payment_transitioning-Held :
      (payment_id request_hash : String) (f : Payment → Changed)
      → Triple e
          (Held key calls)
          (mark_payment_transitioning payment_id key request_hash f)
          (λ q d s. ⊥)
          (λ _. Held key calls)
  unfolding mark_payment_transitioning
  mark_payment_transitioning-Held payment_id request_hash f = Triple-bind _ _ begin-Held λ _.
      Triple-atomically _ λ before.
        Triple-bind {Q = λ _ d s. ⊥} _ _
          (Triple-or_fail keep_duplicate _ (
            Triple-acquire_lock key payment_id request_hash honest
              (λ now d s new h. key_absent key d s h.0.0 new)
              (λ x d s taken h. subst (λ b. Held key calls b s) h.1 h.0)))
          (λ _. Triple-unreached)

  pub acquire_idempotency_lock-Held :
      (p : Payment) (request_hash : String)
      → Triple e
          (Held key calls)
          (acquire_idempotency_lock p key request_hash)
          (λ q d s. ⊥)
          (λ _. Held key calls)
  unfolding acquire_idempotency_lock
  acquire_idempotency_lock-Held p request_hash = Triple-bind _ _ begin-Held λ _.
      Triple-atomically _ λ before.
        Triple-bind {Q = λ _ d s. Held key calls d s × Held key calls before s} _ _
          (Triple-or_fail new_internal_error _ (
            Triple-create p honest (λ d s new h. (h.0, subst (λ b. Held key calls b s) h.1 h.0))
              (λ x d s u h. subst (λ b. Held key calls b s) h.1 h.0)))
          λ _.
            Triple-bind {Q = λ _ d s. ⊥} _ _
              (Triple-acquire_lock key p.id request_hash honest
                (λ now d s new h. key_absent key d s h.0.0 new) (λ x d s taken h. h.1))
              (λ _. Triple-unreached)
