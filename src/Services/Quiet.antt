-- ===== src/Services/Quiet.antt =====
-- The services where no statement fails and nobody else commits: the steps that they are made of
-- (internal/application/services/helpers.go).
pub mod Completing
pub mod Moving
pub mod Network
pub mod Replay
pub mod Waiting
pub mod Entity
use ficmart_payment_gateway.Prelude.{
  ℕ, String, ◌≡◌, refl, sym, ◌∙◌, ap, subst, Bool, true, false, Option, none, some, List, [], ◌∷◌,
  ◌++◌, map, arith, is_some,
}
use ficmart_payment_gateway.Failure.{Error}
use ficmart_payment_gateway.Domain.{Payment, Time}
use ficmart_payment_gateway.Bank.{BankCall}
use ficmart_payment_gateway.Bank.Retry.{Answer, reply, fault}
use ficmart_payment_gateway.Store.{
  IdempotencyKey, Db, find_payment, find_key, overwrite, update_rows, update_keys,
}
use ficmart_payment_gateway.Store.Rows.{find_payment-update_rows, find_key-append}
use ficmart_payment_gateway.Exec.{
  Env, Exec, Sent, Result, ok, err, panic, round_trip, fresh_round_trip, or_fail, ◌>>=◌, ◌>>◌,
  write, atomically, gets, attempt, send, BankClient,
}
use ficmart_payment_gateway.Exec.Triple.{
  Pred, Ends, Triple, Triple-bind, Triple-lift, Triple-gets, Triple-ask, Triple-or_fail,
  Triple-attempt, Triple-round_trip, Triple-fresh_round_trip, Triple-write, Triple-atomically,
  Triple-weaken, Triple-pure,
}
use ficmart_payment_gateway.Postgres.Payments.{
  Conn, in_tx, on_pool, touch, query_row, scan_payment, rows_affected, update, update_payment,
}
use ficmart_payment_gateway.Postgres.Keys.{
  insert_key, locked_key, acquire_lock, find_by_key, row_or_nil, set_payload, unlock,
  store_response, release_lock,
}

pub record IsQuiet (e : Env) : Type 0 where
  pub no_fault : (n : ℕ) → e.fault n ≡ none
  pub alone : (n : ℕ) (d : Db) → e.others n d ≡ d

abbrev pub Never : Error → Pred
Never x d s = ⊥

pub Triple-dead :
    {e : Env} {A : Type 0} {m : Exec A} {Q : A → Pred} {E : Error → Pred}
    → Triple e (λ d s. ⊥) m Q E
Triple-dead = record { at = λ w p. absurd p }

-- The first action returns this value.
pub Triple-then :
    {e : Env} {A B : Type 0} {P R : Pred} {Q : B → Pred} {E : Error → Pred} (m : Exec A)
    (f : A → Exec B) (a : A)
    → Triple e P m (λ b d s. R d s × (b ≡ a)) E
    → Triple e R (f a) Q E
    → Triple e P (m >>= f) Q E
Triple-then {e = e} {R = R} {Q = Q} {E = E} m f a t u =
    Triple-bind m f t
      λ b. record { at = λ w h. (subst (λ c. Triple e R (f c) Q E) (sym h.1) u).at w h.0 }

-- The same for an action whose error is looked at.
pub Triple-attempted :
    {e : Env} {A B : Type 0} {P R : Pred} {Q : B → Pred} {E : Error → Pred} (m : Exec A)
    (f : Result A → Exec B) (a : A)
    → Triple e P m (λ b d s. R d s × (b ≡ a)) Never
    → Triple e R (f (ok a)) Q E
    → Triple e P (attempt m >>= f) Q E
Triple-attempted {e = e} {A = A} {R = R} {Q = Q} {E = E} m f a t u =
    Triple-bind _ f (Triple-attempt E m t) only
  where
    only : (r : Result A) → Triple e (Ends (λ b d s. R d s × (b ≡ a)) Never r) (f r) Q E
    only (ok b) = record {
      at = λ w h. (subst (λ c. Triple e R (f (ok c)) Q E) (sym h.1) u).at w h.0;
    }
    only (err x) = Triple-dead
    only panic = Triple-dead

found_affected :
    (p : Payment) {q : Payment} (ps : List Payment)
    → find_payment p.id ps ≡ some q
    → rows_affected p ps ≡ 0
    → ⊥
unfolding find_payment rows_affected
found_affected p [] h e = cc
found_affected p {q} (r ∷ ps) h e = ground (arith, found_affected p {q = q} ps)

update_fault :
    (p : Payment) {q : Payment} (x : Error) (d : Db)
    → find_payment p.id d.payments ≡ some q
    → update_payment p d ≡ fault x
    → ⊥
update_fault p {q} x d h e = ground (arith, found_affected p {q = q} d.payments h)

update_reply :
    (p : Payment) (d d' : Db)
    → update_payment p d ≡ reply d'
    → d' ≡ record d { payments = update_rows p d.payments }
update_reply p d d' h = ground arith

reply_same : (d d' : Db) → ◌≡◌ {A = Answer Db} (reply d) (reply d') → d ≡ d'
reply_same d d' h = cc

-- The bank's answer is this one at any step.
pub Triple-answered :
    {e : Env} (quiet : IsQuiet e) {A : Type 0} {P R : Pred} {E : Error → Pred} (c : BankCall)
    (f : BankClient → ℕ → Answer A) (a : A)
    → ((n : ℕ) → f e.bank n ≡ reply a)
    → ((d : Db) (s : List Sent) → P d s → R d (record { call = c; seen = d; at = d } ∷ s))
    → Triple e P (send c f) (λ b d s. R d s × (b ≡ a)) E
unfolding send
Triple-answered quiet c f a answers good = record {
  at = λ w h. rw (answers w.step, quiet.alone w.step w.db) (good w.db w.sent h, refl);
}

module _ {e : Env} (quiet : IsQuiet e) {P : Pred} where
  pub quiet_trip : Triple e P round_trip (λ _. P) Never
  quiet_trip =
      Triple-round_trip (λ d s h. h)
        (λ x n d s f h. let c = quiet.no_fault n in ground (arith, c, f))

  quiet_fresh : Triple e P fresh_round_trip (λ _. P) Never
  quiet_fresh =
      Triple-fresh_round_trip (λ n d s h. subst (λ b. P b s) (sym (quiet.alone n d)) h)
        (λ x n d s f h. let c = quiet.no_fault n in ground (arith, c, f))

  pub quiet_begin : (f : Error → Error) → Triple e P (or_fail f fresh_round_trip) (λ _. P) Never
  quiet_begin f = Triple-or_fail _ _ quiet_fresh

  pub quiet_commit : (f : Error → Error) → Triple e P (or_fail f round_trip) (λ _. P) Never
  quiet_commit f = Triple-or_fail _ _ quiet_trip

  quiet_row :
      (key : String) (r : Result Unit)
      → Triple e
          (Ends (λ _. P) Never r)
          (row_or_nil r key)
          (λ o d s. P d s × (o ≡ find_key key d.keys))
          Never
  unfolding row_or_nil
  quiet_row key (ok t) = Triple-gets _ (λ d s h. (h, refl))
  quiet_row key (err x) = Triple-dead
  quiet_row key panic = Triple-dead

  pub quiet_find_by_key :
      (key : String)
      → Triple e P (find_by_key key) (λ o d s. P d s × (o ≡ find_key key d.keys)) Never
  unfolding find_by_key
  quiet_find_by_key key = Triple-bind _ _ (Triple-attempt Never _ quiet_fresh) (quiet_row key)

  quiet_touch : (c : Conn) → Triple e P (touch c) (λ _. P) Never
  unfolding touch
  quiet_touch in_tx = quiet_trip
  quiet_touch on_pool = quiet_fresh

  quiet_scan :
      (p : Payment) (choose : List Payment → Option Payment) (r : Result Unit)
      → ((d : Db) (s : List Sent) → P d s → choose d.payments ≡ some p)
      → Triple e
          (Ends (λ _. P) Never r)
          (gets (λ e db. choose db.payments) >>= scan_payment r)
          (λ q d s. P d s × (q ≡ p))
          Never
  unfolding scan_payment
  quiet_scan p choose (ok t) there =
      Triple-then {R = P} _ _ (some p) (Triple-gets _ (λ d s h. (h, there d s h)))
        (Triple-pure p (λ d s h. (h, refl)))
  quiet_scan p choose (err x) there =
      Triple-bind {Q = λ _ d s. ⊥} _ _ (Triple-gets _ (λ d s h. h)) (λ o. Triple-dead)
  quiet_scan p choose panic there =
      Triple-bind {Q = λ _ d s. ⊥} _ _ (Triple-gets _ (λ d s h. h)) (λ o. Triple-dead)

  -- The row that the query chooses is read.
  pub quiet_query_row :
      (c : Conn) (p : Payment) (choose : List Payment → Option Payment)
      → ((d : Db) (s : List Sent) → P d s → choose d.payments ≡ some p)
      → Triple e P (query_row c choose) (λ q d s. P d s × (q ≡ p)) Never
  unfolding query_row
  quiet_query_row c p choose there =
      Triple-bind _ _ (Triple-attempt Never _ (quiet_touch c)) (λ r. quiet_scan p choose r there)

  module _ {Q : Unit {0} → Pred} where
    pub quiet_update :
        (c : Conn) (p q : Payment)
        → ((d : Db) (s : List Sent) → P d s → find_payment p.id d.payments ≡ some q)
        → ((d : Db) (s : List Sent)
            → P d s
            → Q tt (record d { payments = update_rows p d.payments }) s)
        → Triple e P (update c p) Q Never
    unfolding update
    quiet_update c p q there good =
        Triple-bind {Q = λ _. P} _ _ (Triple-or_fail _ _ (quiet_touch c)) λ _.
          Triple-write (update_payment p) (λ d d' s f h. rw (update_reply p d d' f) (good d s h))
            (λ x d s f h. update_fault p x d (there d s h) f)

    pub quiet_acquire_lock :
        (key payment_id request_hash : String) (p : Payment)
        → ((d : Db) (s : List Sent)
            → P d s
            → (find_key key d.keys ≡ none) × (find_payment payment_id d.payments ≡ some p))
        → ((now : Time) (d : Db) (s : List Sent)
            → P d s
            → Q tt
                (record d { keys = d.keys ++ locked_key key payment_id request_hash now ∷ [] })
                s)
        → Triple e P (acquire_lock key payment_id request_hash) Q Never
    unfolding acquire_lock
    quiet_acquire_lock key payment_id request_hash p there good =
        Triple-bind {Q = λ _. P} _ _ (Triple-ask _ (λ n d s h. h)) λ now. Triple-or_fail _ _ (
          Triple-bind {Q = λ _. P} _ _ quiet_trip λ _.
            Triple-write (insert_key (locked_key key payment_id request_hash now))
              (λ d d' s f h.
                let (new, found) = there d s h in
                let same : d' ≡ record d {
                  keys = d.keys ++ locked_key key payment_id request_hash now ∷ [];
                } =
                  ground (arith, f, new, found) in
                rw same (good now d s h))
              (λ x d s f h. let (new, found) = there d s h in ground (arith, f, new, found)))

    pub quiet_keys :
        (g : Error → Error) (f : IdempotencyKey → IdempotencyKey) (key : String)
        → ((d : Db) (s : List Sent) → P d s → Q tt (record d { keys = update_keys f key d.keys }) s)
        → Triple e P
            (or_fail g
              (round_trip >> write (λ db. reply (record db { keys = update_keys f key db.keys }))))
            Q
            Never
    quiet_keys g f key good = Triple-or_fail _ _ (
        Triple-bind {Q = λ _. P} _ _ quiet_trip λ _.
          Triple-write _ (λ d d' s h p. rw (← reply_same _ d' h) (good d s p))
            (λ x d s h p. ground (arith, h)))
