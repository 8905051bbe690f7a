-- ===== src/Services/History/Keeping.antt =====
-- What the transactions of services/helpers.go do to claims about keys and calls.
use ficmart_payment_gateway.Prelude.{
  String, ◌≡◌, refl, ◌∙◌, subst, true, none, some, List, [], ◌∷◌, ◌++◌, Option, arith, is_some,
  eq_refl,
}
use ficmart_payment_gateway.Failure.{Error, new_internal_error}
use ficmart_payment_gateway.Failure.Category.{categorize_error, is_permanent}
use ficmart_payment_gateway.Domain.{Payment, Changed, fail}
use ficmart_payment_gateway.Bank.{BankResponse}
use ficmart_payment_gateway.Bank.Retry.{Answer, reply, fault}
use ficmart_payment_gateway.Store.{IdempotencyKey, Db, find_key, update_keys}
use ficmart_payment_gateway.Store.Rows.{find_key-append, find_key-update_keys}
use ficmart_payment_gateway.Exec.{
  Env, Exec, Sent, ok, err, panic, or_fail, gets, lift, from_answer, ◌>>=◌, atomically,
}
use ficmart_payment_gateway.Exec.Triple.{
  Pred, Ends, Triple, Triple-bind, Triple-pure, Triple-raise, Triple-if, Triple-lift, Triple-gets,
  Triple-or_fail, Triple-attempt, Triple-round_trip, Triple-fresh_round_trip, Triple-atomically,
  Triple-weaken,
}
use ficmart_payment_gateway.Exec.Fair.{FaultsAreHonest, KeysStay}
use ficmart_payment_gateway.Postgres.Payments.{update, in_tx}
use ficmart_payment_gateway.Postgres.Keys.{store_response, release_lock, set_payload, unlock}
use ficmart_payment_gateway.Postgres.Ensures.{
  Triple-update, Triple-store_response, Triple-release_lock,
}
use ficmart_payment_gateway.Services.Transactions.{
  begin, commit, accepted, record_failure, finalize_payment, fail_payment, handle_bank_failure,
  report, bank_failed, finish,
}
use ficmart_payment_gateway.Services.History.{KeysKept, IsMonotone, monotone-IsStable}

pub KeysKept-append :
    (d : Db) (i : IdempotencyKey) → KeysKept d (record d { keys = d.keys ++ i ∷ [] })
KeysKept-append d i key h = rw (find_key-append key d.keys (i ∷ [])) (ground (arith, h))

KeysKept-update :
    (d : Db) (f : IdempotencyKey → IdempotencyKey) (key : String)
    → ((i : IdempotencyKey) → (f i).key ≡ i.key)
    → KeysKept d (record d { keys = update_keys f key d.keys })
KeysKept-update d f key same k h = find_key-update_keys f key k d.keys same ∙ h

pub inserted_there :
    (d : Db) (i : IdempotencyKey) (key : String)
    → i.key ≡ key
    → is_some (find_key key (d.keys ++ i ∷ [])) ≡ true
unfolding find_key
inserted_there d i key e = rw (find_key-append key d.keys (i ∷ []), e, eq_refl key) (ground arith)

module _ (e : Env) (honest : FaultsAreHonest e) (stay : KeysStay e) where
  module _ (J : Pred) (mono : IsMonotone J) where
    -- The action keeps the claim, however it ends.
    abbrev pub Keeps : {A : Type 0} → Exec A → Type 0
    Keeps m = Triple e J m (λ _. J) (λ _. J)

    -- In a transaction: the claim, of the tables at its beginning and as they are.
    abbrev Inside : Db → Pred
    Inside before d s = J before s × J d s

    abbrev KeepsInside : Db → {A : Type 0} → Exec A → Type 0
    KeepsInside before m = Triple e (Inside before) m (λ _. Inside before) (λ _ _ s. J before s)

    pub begin-Keeps : Keeps begin
    begin-Keeps = Triple-or_fail _ _ (
        Triple-fresh_round_trip (λ n d s h. monotone-IsStable e J stay mono n d s h)
          (λ x n d s f h. monotone-IsStable e J stay mono n d s h))

    update-KeepsInside :
        (p : Payment) (before : Db)
        → KeepsInside before (or_fail new_internal_error (update in_tx p))
    update-KeepsInside p before = Triple-or_fail _ _ (
        Triple-update p honest (λ d s h. (h.0, mono d _ s (λ k there. there) h.1))
          (λ x d s u h. h.0))

    marshal-KeepsInside :
        (f : Env → Db → Answer String) (before : Db)
        → KeepsInside before (or_fail new_internal_error (gets f >>= λ a. lift (from_answer a)))
    marshal-KeepsInside f before = Triple-or_fail _ _ (
        Triple-bind {Q = λ _. Inside before} _ _ (Triple-gets _ (λ d s h. h))
          (λ a. Triple-lift _ (λ d s h. any_end a d s h)))
      where
        any_end :
            (a : Answer String) (d : Db) (s : List Sent)
            → Inside before d s
            → Ends (λ _. Inside before) (λ _ _ s. J before s) (from_answer a) d s
        any_end (reply t) d s h = h
        any_end (fault x) d s h = h.0

    store-KeepsInside :
        (key payload : String) (before : Db)
        → KeepsInside before (or_fail new_internal_error (store_response key payload))
    store-KeepsInside key payload before = Triple-or_fail _ _ (
        Triple-store_response key payload
          (λ d s h. (h.0, mono d _ s (KeysKept-update d (set_payload payload) key (λ i. refl)) h.1))
          (λ x d s h. h.0))

    release-KeepsInside :
        (key : String) (before : Db)
        → KeepsInside before (or_fail new_internal_error (release_lock key))
    release-KeepsInside key before = Triple-or_fail _ _ (
        Triple-release_lock key
          (λ d s h. (h.0, mono d _ s (KeysKept-update d unlock key (λ i. refl)) h.1))
          (λ x d s h. h.0))

    commit-KeepsInside :
        (before : Db) → Triple e (Inside before) commit (λ _. J) (λ _ _ s. J before s)
    commit-KeepsInside before =
        Triple-or_fail _ _ (Triple-round_trip (λ d s h. h.1) (λ x n d s f h. h.0))

    entered : (before d : Db) (s : List Sent) → J d s × (d ≡ before) → Inside before d s
    entered before d s h = (subst (λ b. J b s) h.1 h.0, h.0)

    transaction-Keeps :
        (m : Exec Unit)
        → ((before : Db) → Triple e (Inside before) m (λ _. J) (λ _ _ s. J before s))
        → Keeps (atomically m)
    transaction-Keeps m t = Triple-atomically m (λ before.
        Triple-weaken m (λ d s h. entered before d s h) (λ a d s h. h) (λ x d s h. h) (t before))

    record_failure-Keeps : (p : Payment) (key : String) (x : Error) → Keeps (record_failure p key x)
    unfolding record_failure
    record_failure-Keeps p key x = Triple-bind _ _ begin-Keeps λ _. transaction-Keeps _ λ before.
        Triple-bind _ _ (update-KeepsInside p before) λ _.
          Triple-bind _ _ (marshal-KeepsInside _ before) λ payload.
            Triple-bind _ _ (store-KeepsInside key payload before) λ _. commit-KeepsInside before

    finalize_payment-Keeps :
        (p : Payment) (key : String) (response : BankResponse)
        → Keeps (finalize_payment p key response)
    unfolding finalize_payment
    finalize_payment-Keeps p key response = Triple-bind _ _ begin-Keeps λ _.
        transaction-Keeps _ λ before. Triple-bind _ _ (update-KeepsInside p before) λ _.
          Triple-bind _ _ (marshal-KeepsInside _ before) λ payload.
            Triple-bind _ _ (store-KeepsInside key payload before)
              λ _. Triple-bind _ _ (release-KeepsInside key before) λ _. commit-KeepsInside before

    fail_payment-Keeps : (c : Changed) (key : String) (x : Error) → Keeps (fail_payment c key x)
    unfolding fail_payment
    fail_payment-Keeps (p, some y) key x = Triple-pure _ (λ d s h. h)
    fail_payment-Keeps (p, none) key x =
        Triple-bind _ _ (Triple-attempt _ _ (record_failure-Keeps p key x)) (elim [
          | ok t ↦ Triple-pure _ (λ d s h. h)
          | err y ↦ Triple-pure _ (λ d s h. h)
          | panic ↦ Triple-pure _ (λ d s h. absurd h)
        ])

    report-Keeps : (r : Payment × Option Error) → Keeps (report r)
    report-Keeps (p, none) = Triple-pure p (λ d s h. h)
    report-Keeps (p, some x) = Triple-raise x (λ d s h. h)

    pub bank_failed-Keeps : (p : Payment) (key : String) (x : Error) → Keeps (bank_failed p key x)
    unfolding bank_failed handle_bank_failure
    bank_failed-Keeps p key x =
        Triple-bind _ _
          (Triple-if (is_permanent (categorize_error (some x))) _ _
            (λ taken. fail_payment-Keeps (fail p) key x) (λ other. Triple-pure _ (λ d s h. h)))
          report-Keeps

    accepted-Keeps : (c : Changed) → Keeps (lift (accepted c))
    accepted-Keeps (q, none) = Triple-lift _ (λ d s h. h)
    accepted-Keeps (q, some x) = Triple-lift _ (λ d s h. h)

    pub finish-Keeps :
        (c : Changed) (key : String) (response : BankResponse) → Keeps (finish c key response)
    unfolding finish
    finish-Keeps c key response =
        Triple-bind _ _ (accepted-Keeps c) λ q.
          Triple-bind _ _ (finalize_payment-Keeps q key response) λ _. Triple-pure q (λ d s h. h)
