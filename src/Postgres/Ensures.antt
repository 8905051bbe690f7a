-- ===== src/Postgres/Ensures.antt =====
-- What each statement of the two repositories that writes ensures.
use ficmart_payment_gateway.Prelude.{
  String, ◌≡◌, refl, true, false, inl, inr, none, List, [], ◌∷◌, ◌++◌, arith, is_some, Option-cases,
}
use ficmart_payment_gateway.Failure.{
  Error, wrap, pg_error, is_error, is_unique_violation, duplicate_idempotency_key,
}
use ficmart_payment_gateway.Domain.{Payment, Time}
use ficmart_payment_gateway.Bank.Retry.{Answer, reply, fault}
use ficmart_payment_gateway.Store.{
  IdempotencyKey, Db, find_payment, find_key, update_rows, update_keys,
}
use ficmart_payment_gateway.Exec.{Env, Sent}
use ficmart_payment_gateway.Exec.Triple.{
  Pred, Triple, Triple-bind, Triple-ask, Triple-write, Triple-or_fail, Triple-round_trip,
}
use ficmart_payment_gateway.Exec.Fair.{FaultsAreHonest, IsHonest}
use ficmart_payment_gateway.Postgres.Payments.{
  in_tx, create, insert_payment, update, update_payment,
}
use ficmart_payment_gateway.Postgres.Keys.{
  acquire_lock, insert_key, locked_key, lock_error, set_payload, unlock, store_response,
  release_lock,
}

pub updated_rows :
    (p : Payment) (d d' : Db)
    → update_payment p d ≡ reply d'
    → d' ≡ record d { payments = update_rows p d.payments }
updated_rows p d d' h = ground arith

inserted_rows :
    (p : Payment) (d d' : Db)
    → insert_payment p d ≡ reply d'
    → (find_payment p.id d.payments ≡ none) × (d' ≡ record d { payments = d.payments ++ p ∷ [] })
inserted_rows p d d' h = ground arith

inserted_key :
    (i : IdempotencyKey) (d d' : Db)
    → insert_key i d ≡ reply d'
    → (find_key i.key d.keys ≡ none) × (d' ≡ record d { keys = d.keys ++ i ∷ [] })
inserted_key i d d' h = ground arith

reply_eq : (d d' : Db) → ◌≡◌ {A = Answer Db} (reply d) (reply d') → d ≡ d'
reply_eq d d' h = cc

honest_fault :
    (key : String) (x : Error) (d : Db)
    → IsHonest x
    → is_error (lock_error x) duplicate_idempotency_key ≡ true
    → is_some (find_key key d.keys) ≡ true
unfolding is_error
honest_fault key x d honest h = ground arith

no_payment :
    (i : IdempotencyKey) (x : Error) (d : Db)
    → find_key i.key d.keys ≡ none
    → insert_key i d ≡ fault x
    → x ≡ pg_error "23503"
no_payment i x d new f = ground arith

refused_key :
    (i : IdempotencyKey) (x : Error) (d : Db)
    → insert_key i d ≡ fault x
    → is_error (lock_error x) duplicate_idempotency_key ≡ true
    → is_some (find_key i.key d.keys) ≡ true
unfolding is_error is_unique_violation
refused_key i x d f h = elim (Option-cases (find_key i.key d.keys)) [
  | inr (j, there) ↦ rw there refl
  | inl new ↦
      let other : x ≡ pg_error "23503" = no_payment i x d new f in
      let wrong : false ≡ true = rw other at h in cc
]

-- The error is not the one for a key that is taken.
abbrev pub IsUntaken : Error → Type 0
IsUntaken x = is_error x duplicate_idempotency_key ≡ false

update-IsUntaken : (p : Payment) (x : Error) (d : Db) → update_payment p d ≡ fault x → IsUntaken x
unfolding is_error
update-IsUntaken p x d f = ground arith

insert-IsUntaken :
    (p : Payment) (x : Error) (d : Db)
    → insert_payment p d ≡ fault x
    → IsUntaken (wrap "failed to create payment" x)
unfolding is_error
insert-IsUntaken p x d f = ground arith

module _ {e : Env} {P : Pred} {Q : Unit {0} → Pred} {E : Error → Pred} where
  -- Update in a transaction: the matching rows are written; with no such row it is an error.
  pub Triple-update :
      (p : Payment)
      → FaultsAreHonest e
      → ((d : Db) (s : List Sent)
          → P d s
          → Q tt (record d { payments = update_rows p d.payments }) s)
      → ((x : Error) (d : Db) (s : List Sent) → IsUntaken x → P d s → E x d s)
      → Triple e P (update in_tx p) Q E
  unfolding update is_error
  Triple-update p honest good bad =
      Triple-bind {Q = λ _. P} _ _
        (Triple-or_fail _ _ (
          Triple-round_trip (λ d s h. h)
            (λ x n d s f h.
              bad (wrap "failed to update payment status" x) d s (honest n x f).not_duplicate h)))
        λ _.
          Triple-write (update_payment p) (λ d d' s f h. rw (updated_rows p d d' f) (good d s h))
            (λ x d s f h. bad x d s (update-IsUntaken p x d f) h)

  -- An insert of a payment whose id is new.
  pub Triple-create :
      (p : Payment)
      → FaultsAreHonest e
      → ((d : Db) (s : List Sent)
          → find_payment p.id d.payments ≡ none
          → P d s
          → Q tt (record d { payments = d.payments ++ p ∷ [] }) s)
      → ((x : Error) (d : Db) (s : List Sent) → IsUntaken x → P d s → E x d s)
      → Triple e P (create p) Q E
  unfolding create is_error
  Triple-create p honest good bad = Triple-or_fail _ _ (
      Triple-bind {Q = λ _. P} _ _
        (Triple-round_trip (λ d s h. h)
          (λ x n d s f h.
            bad (wrap "failed to create payment" x) d s (honest n x f).not_duplicate h))
        λ _.
          Triple-write (insert_payment p)
            (λ d d' s f h. let (new, same) = inserted_rows p d d' f in rw same (good d s new h))
            (λ x d s f h. bad (wrap "failed to create payment" x) d s (insert-IsUntaken p x d f) h))

  -- An insert of a key: it was not there, and its payment was; an error that says that the key is
  -- taken is true.
  pub Triple-acquire_lock :
      (key payment_id request_hash : String)
      → FaultsAreHonest e
      → ((now : Time) (d : Db) (s : List Sent)
          → find_key key d.keys ≡ none
          → P d s
          → Q tt (record d { keys = d.keys ++ locked_key key payment_id request_hash now ∷ [] }) s)
      → ((x : Error) (d : Db) (s : List Sent)
          → (is_error x duplicate_idempotency_key ≡ true → is_some (find_key key d.keys) ≡ true)
          → P d s
          → E x d s)
      → Triple e P (acquire_lock key payment_id request_hash) Q E
  unfolding acquire_lock
  Triple-acquire_lock key payment_id request_hash honest good bad =
      Triple-bind {Q = λ _. P} _ _ (Triple-ask _ (λ n d s h. h)) λ now. Triple-or_fail _ _ (
        Triple-bind {Q = λ _. P} _ _
          (Triple-round_trip (λ d s h. h)
            (λ x n d s f h. bad _ d s (honest_fault key x d (honest n x f)) h))
          λ _.
            Triple-write (insert_key (locked_key key payment_id request_hash now))
              (λ d d' s f h.
                let (new, same) =
                  inserted_key (locked_key key payment_id request_hash now) d d' f in
                rw same (good now d s new h))
              (λ x d s f h.
                bad _ d s (refused_key (locked_key key payment_id request_hash now) x d f) h))

  pub Triple-store_response :
      (key payload : String)
      → ((d : Db) (s : List Sent)
          → P d s
          → Q tt (record d { keys = update_keys (set_payload payload) key d.keys }) s)
      → ((x : Error) (d : Db) (s : List Sent) → P d s → E x d s)
      → Triple e P (store_response key payload) Q E
  unfolding store_response
  Triple-store_response key payload good bad = Triple-or_fail _ _ (
      Triple-bind {Q = λ _. P} _ _ (Triple-round_trip (λ d s h. h) (λ x n d s f h. bad _ d s h))
        λ _.
          Triple-write _ (λ d d' s f h. rw (← reply_eq _ d' f) (good d s h))
            (λ x d s f h. bad _ d s h))

  pub Triple-release_lock :
      (key : String)
      → ((d : Db) (s : List Sent)
          → P d s
          → Q tt (record d { keys = update_keys unlock key d.keys }) s)
      → ((x : Error) (d : Db) (s : List Sent) → P d s → E x d s)
      → Triple e P (release_lock key) Q E
  unfolding release_lock
  Triple-release_lock key good bad = Triple-or_fail _ _ (
      Triple-bind {Q = λ _. P} _ _ (Triple-round_trip (λ d s h. h) (λ x n d s f h. bad _ d s h))
        λ _.
          Triple-write _ (λ d d' s f h. rw (← reply_eq _ d' f) (good d s h))
            (λ x d s f h. bad _ d s h))
