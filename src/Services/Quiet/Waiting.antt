-- ===== src/Services/Quiet/Waiting.antt =====
-- The check of the key, the lock and the wait for a request that has been carried out, where no
-- statement fails and nobody else commits.
use ficmart_payment_gateway.Prelude.{
  ℕ, suc, String, ◌≡◌, refl, sym, subst, true, false, Option, none, some, List, arith, is_some,
  eq_refl, if◌then◌else◌,
}
use ficmart_payment_gateway.Failure.{
  Error, pg_error, is_error, is_unique_violation, duplicate_idempotency_key,
}
use ficmart_payment_gateway.Domain.{Payment, Changed}
use ficmart_payment_gateway.Bank.{BankCall}
use ficmart_payment_gateway.Bank.Retry.{fault}
use ficmart_payment_gateway.Store.{IdempotencyKey, Db, find_payment, find_key}
use ficmart_payment_gateway.Exec.{Env, Exec, Result, ok, err, panic, raise}
use ficmart_payment_gateway.Exec.Triple.{
  Pred, Ends, Triple, Triple-bind, Triple-gets, Triple-ask, Triple-or_fail, Triple-attempt,
  Triple-if, Triple-raise, Triple-atomically, Triple-weaken, Triple-pure, Triple-write,
  Triple-given,
}
use ficmart_payment_gateway.Postgres.Payments.{on_pool, find_by_id}
use ficmart_payment_gateway.Postgres.Keys.{
  find_by_key, acquire_lock, insert_key, locked_key, lock_error,
}
use ficmart_payment_gateway.Services.Idempotency.{
  check_idempotency, check_row, check_lock, look_at_key, look_at_lock, wait_for_completion,
}
use ficmart_payment_gateway.Services.Transactions.{keep_duplicate, mark_payment_transitioning}
use ficmart_payment_gateway.Services.Quiet.{
  IsQuiet, Never, Triple-dead, Triple-then, quiet_trip, quiet_begin, quiet_find_by_key,
  quiet_query_row,
}
use ficmart_payment_gateway.Services.Quiet.Moving.{Row, Stage}

-- The row of a key that is not locked.
record Released (id hash : String) (o : Option IdempotencyKey) : Type 0 where
  row : IdempotencyKey
  found : o ≡ some row
  owner : row.payment_id ≡ id
  hashed : row.request_hash ≡ hash
  open_lock : row.locked_at ≡ none

not_some : {A : Type 0} (o : Option A) → is_some o ≡ false → o ≡ none
not_some none h = refl
not_some (some a) h = cc

released :
    {id key hash : String} {payload : Option String} {keys : List IdempotencyKey}
    → Row id key hash false payload keys
    → Released id hash (find_key key keys)
released r = record {
  row = r.row;
  found = r.found;
  owner = r.owner;
  hashed = r.hashed;
  open_lock = not_some r.row.locked_at r.locked;
}

of_some :
    {id hash : String} (i : IdempotencyKey)
    → Released id hash (some i)
    → (i.payment_id ≡ id) × (i.request_hash ≡ hash) × (i.locked_at ≡ none)
of_some {id} {hash} i r =
    let same : r.row ≡ i = let f = r.found in cc in
    (
      subst (λ j. j.payment_id ≡ id) same r.owner,
      subst (λ j. j.request_hash ≡ hash) same r.hashed,
      subst (λ j. j.locked_at ≡ none) same r.open_lock,
    )

none-Released : {id hash : String} → Released id hash none → ⊥
none-Released r = let f = r.found in cc

taken_error :
    (i : IdempotencyKey) {j : IdempotencyKey} (x : Error) (d : Db)
    → find_key i.key d.keys ≡ some j
    → insert_key i d ≡ fault x
    → is_error (keep_duplicate (lock_error x)) duplicate_idempotency_key ≡ true
unfolding is_error is_unique_violation
taken_error i x d there f =
    let same : x ≡ pg_error "23505" = ground (arith, there, f) in rw same refl

module _ {e : Env} (quiet : IsQuiet e) (id key hash : String) (p : Payment) (cs : List BankCall)
    (payload : Option String) (n : ℕ) (ticks : e.ticks ≡ suc n)
    (live : (k : ℕ) → e.is_done k ≡ false) where
  abbrev pub Done : Pred
  Done = Stage id key hash p cs false payload

  find_by_key-Released :
      Triple e Done (find_by_key key) (λ o d s. Done d s × Released id hash o) Never
  find_by_key-Released =
      Triple-weaken _ (λ d s h. h)
        (λ o d s h. (h.0, subst (Released id hash) (sym h.1) (released h.0.keyed))) (λ x d s h. h)
        (quiet_find_by_key quiet key)

  check_row_replayed :
      (o : Option IdempotencyKey)
      → Released id hash o
      → Triple e Done (check_row key hash o) (λ r d s. Done d s × (r ≡ none)) Never
  unfolding check_row check_lock
  check_row_replayed none r = absurd (none-Released r)
  check_row_replayed (some i) r =
      let (owner, hashed, unlocked) = of_some i r in
      rw (hashed, eq_refl hash, unlocked) (Triple-pure none (λ d s h. (h, refl)))

  pub check_replayed :
      Triple e Done (check_idempotency key hash) (λ o d s. Done d s × (o ≡ none)) Never
  unfolding check_idempotency
  check_replayed =
      Triple-bind _ _ (Triple-or_fail _ _ find_by_key-Released)
        (λ o. Triple-given (λ r. check_row_replayed o r))

  pub mark_replayed :
      (f : Payment → Changed)
      → Triple e Done
          (mark_payment_transitioning id key hash f)
          (λ q d s. ⊥)
          (λ x d s. Done d s × (is_error x duplicate_idempotency_key ≡ true))
  unfolding mark_payment_transitioning acquire_lock
  mark_replayed f =
      Triple-bind {Q = λ _. Done} _ _
        (Triple-weaken _ (λ d s h. h) (λ _ d s h. h) (λ x d s h. absurd h) (quiet_begin quiet _))
        λ _. Triple-atomically _ λ before.
          Triple-bind {Q = λ _ d s. ⊥} _ _
            (Triple-or_fail keep_duplicate _ (
              Triple-bind {Q = λ _ d s. Done d s × (d ≡ before)} _ _ (Triple-ask _ (λ n d s h. h))
                λ now. Triple-or_fail lock_error _ (
                  Triple-bind {Q = λ _ d s. Done d s × (d ≡ before)} _ _
                    (Triple-weaken _ (λ d s h. h) (λ _ d s h. h) (λ x d s h. absurd h)
                      (quiet_trip quiet))
                    λ _.
                      Triple-write (insert_key (locked_key key id hash now))
                        (λ d d' s g h. let there = h.0.keyed.found in ground (arith, g, there))
                        (λ x d s g h. (
                          subst (λ b. Done b s) h.1 h.0,
                          taken_error (locked_key key id hash now) x d h.0.keyed.found g,
                        )))))
            (λ _. Triple-dead)

  look_replayed :
      (again : Exec Payment) (o : Option IdempotencyKey)
      → Released id hash o
      → Triple e Done (look_at_key again (ok o)) (λ q d s. Done d s × (q ≡ p)) Never
  unfolding look_at_key look_at_lock find_by_id
  look_replayed again none r = absurd (none-Released r)
  look_replayed again (some i) r =
      let (owner, hashed, unlocked) = of_some i r in
      rw (unlocked, owner)
        (Triple-or_fail _ _ (quiet_query_row quiet on_pool p (find_payment id) (λ d s h. h.found)))

  looked_replayed :
      (again : Exec Payment) (r : Result (Option IdempotencyKey))
      → Triple e
          (Ends (λ o d s. Done d s × Released id hash o) Never r)
          (look_at_key again r)
          (λ q d s. Done d s × (q ≡ p))
          Never
  looked_replayed again (ok o) = Triple-given (λ r. look_replayed again o r)
  looked_replayed again (err x) = Triple-dead
  looked_replayed again panic = Triple-dead

  wait_replayed : Triple e Done (wait_for_completion key) (λ q d s. Done d s × (q ≡ p)) Never
  unfolding wait_for_completion
  wait_replayed = Triple-then {R = Done} _ _ (suc n) (Triple-gets _ (λ d s h. (h, ticks))) (
      Triple-then {R = Done} _ _ false (Triple-ask _ (λ k d s h. (h, live k)))
        (Triple-bind _ _ (Triple-attempt Never _ find_by_key-Released) (looked_replayed _)))

  pub raised_replayed :
      (x : Error)
      → Triple e
          (λ d s. Done d s × (is_error x duplicate_idempotency_key ≡ true))
          (if is_error x duplicate_idempotency_key then wait_for_completion key else raise x)
          (λ q d s. Done d s × (q ≡ p))
          Never
  raised_replayed x =
      Triple-if (is_error x duplicate_idempotency_key) _ _
        (λ taken. Triple-weaken _ (λ d s h. h.0) (λ q d s h. h) (λ x d s h. h) wait_replayed)
        (λ other. Triple-raise x (λ d s h. let t = h.1 in ground (arith, t, other)))
