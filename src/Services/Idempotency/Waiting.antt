-- ===== src/Services/Idempotency/Waiting.antt =====
-- What the idempotency check and the wait loop of services/helpers.go ensure: they send nothing to
-- the bank, keep every claim that others keep, never follow the nil key, and a payment that they
-- return is the one that the table held.
use ficmart_payment_gateway.Prelude.{
  ℕ, zero, suc, String, ◌≡◌, refl, true, Option, none, some, List, arith, is_some, str_eq,
}
use ficmart_payment_gateway.Prelude.Integer.{ltb_ℤ, ◌-ℤ◌}
use ficmart_payment_gateway.Domain.{Payment, Time}
use ficmart_payment_gateway.Store.{IdempotencyKey, Db, find_payment, find_key}
use ficmart_payment_gateway.Exec.{Result, ok, err, panic, Env, Sent, Exec}
use ficmart_payment_gateway.Exec.Triple.{
  Pred, Ends, Triple, Triple-bind, Triple-pure, Triple-raise, Triple-if, Triple-lift, Triple-gets,
  Triple-ask, Triple-or_fail, Triple-attempt, Triple-weaken,
}
use ficmart_payment_gateway.Exec.Fair.{KeysStay, FaultsAreHonest, IsStable}
use ficmart_payment_gateway.Postgres.Reading.{Triple-find_by_key, Triple-find_by_id}
use ficmart_payment_gateway.Services.Idempotency.{
  look_at_lock, look_at_key, wait_loop, wait_for_completion, check_lock, check_row,
  check_idempotency, five_minutes,
}

abbrev pub KeyIn : String → Pred
KeyIn key d s = is_some (find_key key d.keys) ≡ true

-- The payment is a row of the table.
abbrev pub Stored : Payment → Pred
Stored p d s = (id : String) × (find_payment id d.payments ≡ some p)

module _ (e : Env) (J : Pred) (key : String) (honest : FaultsAreHonest e) (stable : IsStable e J)
    (keyed : (d : Db) (s : List Sent) → J d s → KeyIn key d s) where
  -- The action returns a stored payment or an error, and keeps `J`.
  abbrev Waits : Exec Payment → Type 0
  Waits m = Triple e J m (λ p d s. J d s × Stored p d s) (λ _. J)

  Waits-lock :
      (again : Exec Payment) (k : IdempotencyKey) (o : Option Time)
      → Waits again
      → Waits (look_at_lock again k o)
  unfolding look_at_lock
  Waits-lock again k none h = Triple-or_fail _ _ (
      Triple-weaken _ (λ d s j. j) (λ p d s q. (q.0, (k.payment_id, q.1))) (λ x d s j. j)
        (Triple-find_by_id k.payment_id honest stable (λ x d s u j. j)))
  Waits-lock again k (some at) h = Triple-bind {Q = λ _. J} _ _ (Triple-ask _ (λ n d s j. j)) λ now.
      Triple-if (ltb_ℤ five_minutes (now -ℤ at)) _ _ (λ stale. Triple-raise _ (λ d s j. j))
        (λ fresh. h)

  Waits-key :
      (again : Exec Payment) (r : Result (Option IdempotencyKey))
      → Waits again
      → Triple e
          (Ends (λ o d s. J d s × (o ≡ find_key key d.keys)) (λ _. J) r)
          (look_at_key again r)
          (λ p d s. J d s × Stored p d s)
          (λ _. J)
  unfolding look_at_key
  Waits-key again (ok none) h =
      Triple-lift panic (λ d s q. let k = keyed d s q.0 in ground (arith, k, q.1))
  Waits-key again (ok (some k)) h =
      Triple-weaken {P' = J} {Q' = λ p d s. J d s × Stored p d s} {E' = λ _. J} _ (λ d s q. q.0)
        (λ p d s q. q) (λ x d s j. j) (Waits-lock again k k.locked_at h)
  Waits-key again (err x) h = h
  Waits-key again panic h = Triple-lift panic (λ d s j. j)

  Waits-loop : (n : ℕ) → Waits (wait_loop key n)
  unfolding wait_loop
  Waits-loop zero = Triple-raise _ (λ d s j. j)
  Waits-loop (suc n) =
      let again = Waits-loop n in
      Triple-bind {Q = λ _. J} _ _ (Triple-ask _ (λ n d s j. j)) λ done.
        Triple-if done _ _ (λ over. Triple-raise _ (λ d s j. j))
          (λ on.
            Triple-bind _ _
              (Triple-attempt _ _ (Triple-find_by_key key honest stable (λ x d s j. j)))
              (λ r. Waits-key (wait_loop key n) r again))

  -- Under FaultsAreHonest, for any claim J that the commits of others keep and that says that the
  -- key is in the table: waitForCompletion keeps J, never follows the nil key, and a payment that
  -- it returns is a row of the payments table.
  pub Triple-wait_for_completion : Waits (wait_for_completion key)
  unfolding wait_for_completion
  Triple-wait_for_completion =
      Triple-bind {Q = λ _. J} _ _ (Triple-gets _ (λ d s j. j)) (λ n. Waits-loop n)

-- A payment that the check returns is stored; without one the caller goes on.
abbrev pub Cached : Option Payment → Pred
Cached none d s = Unit
Cached (some p) d s = Stored p d s

module _ (e : Env) (J : Pred) (key request_hash : String) (honest : FaultsAreHonest e)
    (stay : KeysStay e) (stable : IsStable e J) where
  -- `J`, and the key is in the table.
  abbrev Keyed : Pred
  Keyed d s = J d s × KeyIn key d s

  check_lock-cached :
      (o : Option Time) → Triple e Keyed (check_lock key o) (λ p d s. J d s × Cached p d s) (λ _. J)
  unfolding check_lock
  check_lock-cached none = Triple-pure none (λ d s h. (h.0, tt))
  check_lock-cached (some at) =
      Triple-bind {Q = λ p d s. Keyed d s × Stored p d s} _ _
        (Triple-or_fail _ _ (
          Triple-weaken _ (λ d s h. h) (λ p d s h. h) (λ x d s h. h.0)
            (Triple-wait_for_completion e Keyed key honest
              (λ n d s h. (stable n d s h.0, stay n key d h.1)) (λ d s h. h.1))))
        (λ p. Triple-pure (some p) (λ d s h. (h.0.0, h.1)))

  check_row-cached :
      (o : Option IdempotencyKey)
      → Triple e
          (λ d s. J d s × (o ≡ find_key key d.keys))
          (check_row key request_hash o)
          (λ p d s. J d s × Cached p d s)
          (λ _. J)
  unfolding check_row
  check_row-cached none = Triple-pure none (λ d s h. (h.0, tt))
  check_row-cached (some k) =
      Triple-if (str_eq k.request_hash request_hash) _ _
        (λ same.
          Triple-weaken _ (λ d s h. (h.0, rw (← h.1) refl)) (λ p d s h. h) (λ x d s h. h)
            (check_lock-cached k.locked_at))
        (λ other. Triple-raise _ (λ d s h. h.0))

  -- Under FaultsAreHonest and KeysStay, for any claim J on tables and calls that the commits of
  -- others keep: checkIdempotency keeps J, does not panic, and a payment that it returns is a row
  -- of the payments table.
  pub Triple-check_idempotency :
      Triple e J (check_idempotency key request_hash) (λ p d s. J d s × Cached p d s) (λ _. J)
  unfolding check_idempotency
  Triple-check_idempotency =
      Triple-bind _ _ (Triple-or_fail _ _ (Triple-find_by_key key honest stable (λ x d s j. j)))
        (λ o. check_row-cached o)
