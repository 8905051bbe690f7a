-- ===== src/Worker/Ensures/Expiring.antt =====
-- What the expiration worker ensures (internal/worker/expiration_worker.go).
use ficmart_payment_gateway.Prelude.{
  ℕ, zero, suc, String, ◌≡◌, refl, Bool, true, Option, none, some, List, [], ◌∷◌, ◌&&◌, All, arith,
  Bool-cases, inl, inr, str_eq, if◌then◌else◌, is_some,
}
use ficmart_payment_gateway.Prelude.Integer.{pos, ltb_ℤ, ◌-ℤ◌}
use ficmart_payment_gateway.Failure.{Error, as_bank_error, BankError}
use ficmart_payment_gateway.Domain.{Payment, Time, Changed, authorized, same_status, mark_expired}
use ficmart_payment_gateway.Domain.Invariant.{IsWellFormed}
use ficmart_payment_gateway.Bank.{AuthorizationResponse}
use ficmart_payment_gateway.Exec.{Result, ok, err, panic, Env, raise}
use ficmart_payment_gateway.Exec.Triple.{
  Ends, Triple, Triple-bind, Triple-pure, Triple-raise, Triple-if, Triple-lift, Triple-gets,
  Triple-ask, Triple-or_fail, Triple-attempt, Triple-deref, Triple-send, Triple-round_trip,
  Triple-fresh_round_trip, Triple-given, Triple-weaken,
}
use ficmart_payment_gateway.Exec.Fair.{FaultsAreHonest, RowsStayWellFormed}
use ficmart_payment_gateway.Postgres.Payments.{
  where_rows, insert_ordered, order_by, take, is_before, query_rows, find_expired_authorizations,
}
use ficmart_payment_gateway.Services.Intent.{Sound, Sound-IsStable}
use ficmart_payment_gateway.Worker.Expiration.{
  after_mark, mark_as_expired, still_active, nine_days, after_status, check_and_mark_expired,
  check_each, process_expirations,
}
use ficmart_payment_gateway.Worker.Ensures.{IsSafe, attempt_then, update-IsSafe}

module _ {A : Type 0} where
  where_rows-All :
      (P Q : A → Type 0) (keep : A → Bool)
      → ((x : A) → P x → keep x ≡ true → Q x)
      → (xs : List A) → All P xs
      → All Q (where_rows keep xs)
  unfolding where_rows
  where_rows-All P Q keep f [] h = tt
  where_rows-All P Q keep f (x ∷ xs) h =
      let ih = where_rows-All P Q keep f xs h.1 in
      elim (Bool-cases (keep x)) [
        | inl taken ↦ rw taken (f x h.0 taken, ih)
        | inr other ↦ rw other ih
      ]

  insert_ordered-All :
      (P : A → Type 0) (before : A → A → Bool) (x : A) (xs : List A)
      → P x
      → All P xs
      → All P (insert_ordered before x xs)
  unfolding insert_ordered
  insert_ordered-All P before x [] p h = (p, tt)
  insert_ordered-All P before x (y ∷ ys) p h =
      let ih = insert_ordered-All P before x ys p h.1 in
      elim (Bool-cases (before x y)) [
        | inl taken ↦ rw taken (p, h)
        | inr other ↦ rw other (h.0, ih)
      ]

  order_by-All :
      (P : A → Type 0) (before : A → A → Bool) (xs : List A) → All P xs → All P (order_by before xs)
  unfolding order_by
  order_by-All P before [] h = tt
  order_by-All P before (x ∷ xs) h =
      insert_ordered-All P before x _ h.0 (order_by-All P before xs h.1)

  take-All : (P : A → Type 0) (n : ℕ) (xs : List A) → All P xs → All P (take n xs)
  take-All P zero xs h = tt
  take-All P (suc n) [] h = tt
  take-All P (suc n) (x ∷ xs) h = (h.0, take-All P n xs h.1)

-- An authorized payment with what goes with it.
abbrev pub IsAuthorized : Payment → Type 0
IsAuthorized p = IsWellFormed p × (p.status ≡ authorized)

authorized_status :
    (p : Payment) (cutoff : Time)
    → (same_status p.status authorized && is_before p.authorized_at cutoff) ≡ true
    → p.status ≡ authorized
authorized_status p cutoff h = ground arith

some_of : {A : Type 0} (o : Option A) → is_some o ≡ true → (a : A) × (o ≡ some a)
some_of none h = cc
some_of (some a) h = (a, refl)

authorized_reference : (p : Payment) → IsAuthorized p → (id : String) × (p.bank_auth_id ≡ some id)
authorized_reference p h = some_of p.bank_auth_id (h.0.auth_known (rw h.1 refl))

authorized_time : (p : Payment) → IsAuthorized p → (at : Time) × (p.authorized_at ≡ some at)
authorized_time p h = some_of p.authorized_at (h.0.auth_dated (rw h.1 refl))

mark_expired_kept : (p : Payment) → IsWellFormed p → IsWellFormed (mark_expired p).0
unfolding mark_expired
mark_expired_kept p h = ground arith

module _ (e : Env) (stay : RowsStayWellFormed e) where
  -- The rows of the query are authorized and well formed.
  find_expired_authorizations-All :
      (cutoff : Time) (limit : ℕ)
      → Triple e Sound
          (find_expired_authorizations cutoff (pos limit))
          (λ ps d s. Sound d s × All IsAuthorized ps)
          (λ _. Sound)
  unfolding find_expired_authorizations query_rows
  find_expired_authorizations-All cutoff limit =
      Triple-bind {Q = λ _. Sound} _ _
        (Triple-or_fail _ _ (
          Triple-fresh_round_trip (λ n d s h. Sound-IsStable e stay n d s h)
            (λ x n d s f h. Sound-IsStable e stay n d s h)))
        λ _.
          Triple-bind {Q = λ _. Sound} _ _ (Triple-round_trip (λ d s h. h) (λ x n d s f h. h)) λ _.
            Triple-bind {Q = λ r. Ends (λ ps d s. Sound d s × All IsAuthorized ps) (λ _. Sound) r} _
              _
              (Triple-gets _ (λ d s h. (
                h,
                take-All IsAuthorized limit _ (
                    order_by-All IsAuthorized _ _ (
                      where_rows-All IsWellFormed IsAuthorized _
                        (λ p wf keep. (wf, authorized_status p cutoff keep)) d.payments h.0)),
              )))
              (λ r. Triple-lift r (λ d s h. h))

module _ (e : Env) (honest : FaultsAreHonest e) (stay : RowsStayWellFormed e) where
  after_mark-IsSafe : (c : Changed) → IsWellFormed c.0 → IsSafe e (after_mark c)
  unfolding after_mark
  after_mark-IsSafe (p, some x) wf = Triple-raise x (λ d s h. h)
  after_mark-IsSafe (p, none) wf = update-IsSafe e honest stay p wf

  mark_as_expired-IsSafe : (p : Payment) → IsWellFormed p → IsSafe e (mark_as_expired p)
  unfolding mark_as_expired
  mark_as_expired-IsSafe p wf = after_mark-IsSafe (mark_expired p) (mark_expired_kept p wf)

  still_active-IsSafe : (p : Payment) → IsAuthorized p → IsSafe e (still_active p)
  unfolding still_active
  still_active-IsSafe p h =
      let (at, found) = authorized_time p h in
      Triple-bind {Q = λ _. Sound} _ _ (Triple-deref p.authorized_at (λ d s k. (at, found, k)))
        λ at. Triple-bind {Q = λ _. Sound} _ _ (Triple-ask _ (λ n d s k. k)) λ now.
          Triple-if (ltb_ℤ nine_days (now -ℤ at)) _ _ (λ old. mark_as_expired-IsSafe p h.0)
            (λ recent. Triple-pure tt (λ d s k. k))

  expired_or_raise :
      (p : Payment) (x : Error) (o : Option BankError)
      → IsWellFormed p
      → IsSafe e {A = Unit} (elim o [
        | some b ↦ if str_eq b.code "authorization_expired" then mark_as_expired p else raise x
        | none ↦ raise x
      ])
  expired_or_raise p x (some b) wf =
      Triple-if (str_eq b.code "authorization_expired") _ _ (λ gone. mark_as_expired-IsSafe p wf)
        (λ other. Triple-raise x (λ d s h. h))
  expired_or_raise p x none wf = Triple-raise x (λ d s h. h)

  after_status-IsSafe :
      (p : Payment) (r : Result AuthorizationResponse)
      → IsAuthorized p
      → Triple e (Ends (λ _. Sound) (λ _. Sound) r) (after_status p r) (λ _. Sound) (λ _. Sound)
  unfolding after_status
  after_status-IsSafe p (ok a) h =
      Triple-if (str_eq a.status "AUTHORIZED") _ _ (λ active. still_active-IsSafe p h)
        (λ other. mark_as_expired-IsSafe p h.0)
  after_status-IsSafe p (err x) h = expired_or_raise p x (as_bank_error x) h.0
  after_status-IsSafe p panic h = Triple-lift panic (λ d s k. k)

  check_and_mark_expired-IsSafe :
      (p : Payment) → IsAuthorized p → IsSafe e (check_and_mark_expired p)
  unfolding check_and_mark_expired
  check_and_mark_expired-IsSafe p h =
      let (id, found) = authorized_reference p h in
      Triple-bind {Q = λ _. Sound} _ _ (Triple-deref p.bank_auth_id (λ d s k. (id, found, k))) λ id.
        Triple-bind _ _
          (Triple-attempt {E = λ _. Sound} _ _ (
            Triple-send {P = Sound} {Q = λ _. Sound} {E = λ _. Sound} _ _
              (λ a n d s k. (stay n d k.0, (tt, k.1))) (λ x n d s k. (stay n d k.0, (tt, k.1)))))
          (λ r. after_status-IsSafe p r h)

  check_each-IsSafe : (ps : List Payment) → All IsAuthorized ps → IsSafe e (check_each ps)
  unfolding check_each
  check_each-IsSafe [] h = Triple-pure tt (λ d s k. k)
  check_each-IsSafe (p ∷ ps) h =
      attempt_then _ _ (check_and_mark_expired-IsSafe p h.0) (check_each-IsSafe ps h.1)

  -- Under FaultsAreHonest and RowsStayWellFormed: the expiration check does not panic, for the
  -- payments that it reads have a reference and a time, and it keeps every payment well formed and
  -- every call recorded.
  pub process_expirations-IsSafe : IsSafe e process_expirations
  unfolding process_expirations
  process_expirations-IsSafe = Triple-bind {Q = λ _. Sound} _ _ (Triple-ask _ (λ n d s h. h)) λ now.
      Triple-bind _ _ (find_expired_authorizations-All e stay _ 100) (λ ps.
        Triple-weaken _ (λ d s h. h) (λ t d s h. h) (λ x d s h. h)
          (Triple-given (λ all. check_each-IsSafe ps all)))
