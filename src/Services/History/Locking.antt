-- ===== src/Services/History/Locking.antt =====
-- The transactions of services/helpers.go that lock a new key.
use ficmart_payment_gateway.Prelude.{String, ◌≡◌, refl, subst, none, some, List, [], ◌∷◌, ◌++◌}
use ficmart_payment_gateway.Failure.{new_internal_error}
use ficmart_payment_gateway.Domain.{Payment, Changed, Time}
use ficmart_payment_gateway.Store.{Db, find_key}
use ficmart_payment_gateway.Exec.{Env, Sent, lift}
use ficmart_payment_gateway.Exec.Triple.{
  Pred, Triple, Triple-bind, Triple-pure, Triple-lift, Triple-or_fail, Triple-round_trip,
  Triple-atomically, Triple-weaken,
}
use ficmart_payment_gateway.Exec.Fair.{FaultsAreHonest, KeysStay}
use ficmart_payment_gateway.Postgres.Keys.{locked_key}
use ficmart_payment_gateway.Postgres.Ensures.{Triple-acquire_lock, Triple-create, Triple-update}
use ficmart_payment_gateway.Postgres.Reading.{Triple-find_by_id_for_update}
use ficmart_payment_gateway.Services.Transactions.{
  keep_duplicate, mark_payment_transitioning, acquire_idempotency_lock, accepted,
}
use ficmart_payment_gateway.Services.History.{Once, Fresh, Once-IsMonotone, known-Unsent}
use ficmart_payment_gateway.Services.History.Keeping.{KeysKept-append, inserted_there, begin-Keeps}

module _ (e : Env) (honest : FaultsAreHonest e) (stay : KeysStay e) where
  -- The tables at the beginning of a transaction, and a fresh key in it.
  abbrev Locking : String → Db → Pred
  Locking key before d s = Once before s × Fresh key d s

  lock_fresh :
      (key payment_id request_hash : String) (now : Time) (d : Db) (s : List Sent)
      → find_key key d.keys ≡ none
      → Once d s
      → Fresh key (record d { keys = d.keys ++ locked_key key payment_id request_hash now ∷ [] }) s
  lock_fresh key payment_id request_hash now d s new h = (
    Once-IsMonotone d
        (record d { keys = d.keys ++ locked_key key payment_id request_hash now ∷ [] }) s
        (KeysKept-append d (locked_key key payment_id request_hash now)) h,
    inserted_there d (locked_key key payment_id request_hash now) key refl,
    known-Unsent key d s h.1 new,
  )

  pub mark_payment_transitioning-Fresh :
      (payment_id key request_hash : String) (f : Payment → Changed)
      → Triple e Once
          (mark_payment_transitioning payment_id key request_hash f)
          (λ _. Fresh key)
          (λ _. Once)
  unfolding mark_payment_transitioning
  mark_payment_transitioning-Fresh payment_id key request_hash f =
      Triple-bind _ _ (begin-Keeps e honest stay Once Once-IsMonotone) λ _.
        Triple-atomically _ λ before.
          Triple-bind {Q = λ _. Locking key before} _ _
            (Triple-or_fail keep_duplicate _ (
              Triple-acquire_lock key payment_id request_hash honest
                (λ now d s new h. (
                  subst (λ b. Once b s) h.1 h.0,
                  lock_fresh key payment_id request_hash now d s new h.0,
                ))
                (λ x d s taken h. subst (λ b. Once b s) h.1 h.0)))
            λ _.
              Triple-bind {Q = λ _. Locking key before} _ _
                (Triple-or_fail new_internal_error _ (
                  Triple-weaken _ (λ d s h. h) (λ p d s h. h.0) (λ x d s h. h)
                    (Triple-find_by_id_for_update {J = Locking key before}
                      {E = λ _ _ s. Once before s} payment_id honest (λ x d s u h. h.0))))
                λ p. Triple-bind {Q = λ _. Locking key before} _ _ (moved before (f p)) λ q.
                  Triple-bind {Q = λ _. Locking key before} _ _
                    (Triple-or_fail new_internal_error _ (
                      Triple-update q honest (λ d s h. (h.0, (h.1.0, h.1.1, h.1.2)))
                        (λ x d s u h. h.0)))
                    λ _.
                      Triple-bind {Q = λ _. Fresh key} _ _
                        (Triple-or_fail new_internal_error _
                          (Triple-round_trip (λ d s h. h.1) (λ x n d s g h. h.0)))
                        λ _. Triple-pure q (λ d s h. h)
    where
      moved :
          (before : Db) (c : Changed)
          → Triple e
              (Locking key before)
              (lift (accepted c))
              (λ _. Locking key before)
              (λ _ _ s. Once before s)
      moved before (q, none) = Triple-lift _ (λ d s h. h)
      moved before (q, some x) = Triple-lift _ (λ d s h. h.0)

  pub acquire_idempotency_lock-Fresh :
      (p : Payment) (key request_hash : String)
      → Triple e Once (acquire_idempotency_lock p key request_hash) (λ _. Fresh key) (λ _. Once)
  unfolding acquire_idempotency_lock
  acquire_idempotency_lock-Fresh p key request_hash =
      Triple-bind _ _ (begin-Keeps e honest stay Once Once-IsMonotone) λ _.
        Triple-atomically _ λ before.
          Triple-bind {Q = λ _ d s. Once before s × Once d s} _ _
            (Triple-or_fail new_internal_error _ (
              Triple-create p honest (λ d s new h. (subst (λ b. Once b s) h.1 h.0, h.0))
                (λ x d s u h. subst (λ b. Once b s) h.1 h.0)))
            λ _.
              Triple-bind {Q = λ _. Locking key before} _ _
                (Triple-acquire_lock key p.id request_hash honest
                  (λ now d s new h. (h.0, lock_fresh key p.id request_hash now d s new h.1))
                  (λ x d s taken h. h.0))
                λ _.
                  Triple-or_fail new_internal_error _
                    (Triple-round_trip (λ d s h. h.1) (λ x n d s g h. h.0))
