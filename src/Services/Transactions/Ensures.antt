-- ===== src/Services/Transactions/Ensures.antt =====
-- What the transactions of services/helpers.go ensure, committed or rolled back.
use ficmart_payment_gateway.Prelude.{
  String, ◌≡◌, refl, true, false, ◌∙◌, sym, ap, subst, none, some, List, [], ◌∷◌, ◌++◌, All, arith,
  is_some, eq_refl,
}
use ficmart_payment_gateway.Failure.{
  Error, is_error, duplicate_idempotency_key, new_internal_error, new_invalid_state_error,
}
use ficmart_payment_gateway.Domain.{Status, Payment, Changed, Time}
use ficmart_payment_gateway.Domain.Invariant.{IsWellFormed}
use ficmart_payment_gateway.Store.{IdempotencyKey, Db, find_payment, find_key, update_rows}
use ficmart_payment_gateway.Store.Rows.{
  find_payment_id, find_payment-IsWellFormed, find_payment-update_rows, update_rows-IsWellFormed,
  find_key-append,
}
use ficmart_payment_gateway.Exec.{Env, Sent, lift}
use ficmart_payment_gateway.Exec.Triple.{
  Pred, Triple, Triple-bind, Triple-pure, Triple-lift, Triple-or_fail, Triple-round_trip,
  Triple-fresh_round_trip, Triple-atomically,
}
use ficmart_payment_gateway.Exec.Fair.{FaultsAreHonest, RowsStayWellFormed}
use ficmart_payment_gateway.Postgres.Keys.{locked_key}
use ficmart_payment_gateway.Postgres.Ensures.{Triple-update, Triple-acquire_lock}
use ficmart_payment_gateway.Postgres.Reading.{Triple-find_by_id_for_update}
use ficmart_payment_gateway.Services.Idempotency.Waiting.{KeyIn}
use ficmart_payment_gateway.Services.Intent.{
  Locks, IsRecorded, Sound, Sound-IsStable, Marked, MovesTo,
}
use ficmart_payment_gateway.Services.Transactions.{
  begin, commit, keep_duplicate, accepted, mark_payment_transitioning,
}

-- The error of a transaction that locks a key: if it says that the key is taken, it is.
abbrev pub Refused : String → Error → Pred
Refused key x d s = Sound d s × (is_error x duplicate_idempotency_key ≡ true → KeyIn key d s)

pub untaken_refused :
    (key : String) (x : Error) (d : Db) (s : List Sent)
    → is_error x duplicate_idempotency_key ≡ false
    → Sound d s
    → Refused key x d s
untaken_refused key x d s u h = (h, λ t. let wrong : false ≡ true = sym u ∙ t in cc)

keep_duplicate_same :
    (x : Error)
    → is_error (keep_duplicate x) duplicate_idempotency_key ≡ is_error x duplicate_idempotency_key
unfolding is_error new_internal_error
keep_duplicate_same x = ground arith

-- A new key in the table is found as it was inserted.
pub find_locked_key :
    (key payment_id request_hash : String) (now : Time) (is : List IdempotencyKey)
    → find_key key is ≡ none
    → find_key key (is ++ locked_key key payment_id request_hash now ∷ [])
      ≡ some (locked_key key payment_id request_hash now)
find_locked_key key payment_id request_hash now is new =
    rw (find_key-append key is _, new) (unfold find_key in rw (eq_refl key) refl)

-- The key is locked for a payment id, and the payments are well formed.
pub record Holds (key payment_id : String) (d : Db) : Type 0 where
  pub rows : All IsWellFormed d.payments
  pub row : IdempotencyKey
  pub found : find_key key d.keys ≡ some row
  pub locked : is_some row.locked_at ≡ true
  pub owner : row.payment_id ≡ payment_id

marked_row :
    (t : Status) (id : String) (p : Payment) (rows : List Payment)
    → find_payment id rows ≡ some p
    → find_payment p.id (update_rows (record p { status = t }) rows)
      ≡ some (record p { status = t })
marked_row t id p rows h =
    find_payment-update_rows (record p { status = t }) {p = p} rows
      (ap (λ (k : String). find_payment k rows) (find_payment_id id rows h) ∙ h)

marked-Locks :
    (t : Status) (key id : String) (p : Payment) (d : Db)
    → Holds key id d
    → find_payment id d.payments ≡ some p
    → Locks key
        (record p { status = t })
        (record d { payments = update_rows (record p { status = t }) d.payments })
marked-Locks t key id p d h found = record {
  row = h.row;
  found = h.found;
  locked = h.locked;
  owner = h.owner ∙ sym (find_payment_id id d.payments found);
  stored = marked_row t id p d.payments found;
}

marked_update :
    (t : Status) (key id : String) (p q : Payment) (d : Db) (s : List Sent)
    → Holds key id d
    → All IsRecorded s
    → IsWellFormed q
    → find_payment id d.payments ≡ some p
    → q ≡ record p { status = t }
    → Marked t key q (record d { payments = update_rows q d.payments }) s
marked_update t key id p q d s h recorded wf found same = (
  (update_rows-IsWellFormed q d.payments wf h.rows, recorded),
  wf,
  ap (λ (r : Payment). r.status) same,
  subst (λ r. Locks key r (record d { payments = update_rows r d.payments })) (sym same)
      (marked-Locks t key id p d h found),
)

module _ (e : Env) (honest : FaultsAreHonest e) (stay : RowsStayWellFormed e) where
  pub begin-refused : (key : String) → Triple e Sound begin (λ _. Sound) (Refused key)
  unfolding is_error new_internal_error
  begin-refused key = Triple-or_fail _ _ (
      Triple-fresh_round_trip (λ n d s h. Sound-IsStable e stay n d s h)
        (λ x n d s f h.
          untaken_refused key (new_internal_error x) (e.others n d) s (honest n x f).not_duplicate
            (Sound-IsStable e stay n d s h)))

  -- The commit, in a transaction that began with the tables `before`.
  pub commit-refused :
      (key : String) (before : Db) (P : Pred)
      → ((d : Db) (s : List Sent) → P d s → Sound before s)
      → Triple e P commit (λ _. P) (λ x d s. Refused key x before s)
  unfolding is_error new_internal_error
  commit-refused key before P back = Triple-or_fail _ _ (
      Triple-round_trip (λ d s h. h)
        (λ x n d s f h.
          untaken_refused key (new_internal_error x) before s (honest n x f).not_duplicate
            (back d s h)))

  module _ (t : Status) (payment_id key request_hash : String) (f : Payment → Changed)
      (moves : MovesTo t f) where
    -- The state of the transaction after the lock, after the read, and after the method.
    abbrev Open : Db → Pred
    Open before d s = Sound before s × Holds key payment_id d

    abbrev Moved : Db → Payment → Pred
    Moved before q d s =
        Open before d s
        × IsWellFormed q
        × (p : Payment) × (find_payment payment_id d.payments ≡ some p)
        × (q ≡ record p { status = t })

    accepted-moved :
        (before : Db) (p : Payment) (c : Changed)
        → f p ≡ c
        → Triple e
            (λ d s. Open before d s × (find_payment payment_id d.payments ≡ some p))
            (lift (accepted c))
            (Moved before)
            (λ x d s. Refused key x before s)
    unfolding is_error new_invalid_state_error
    accepted-moved before p (q, none) same = Triple-lift _ (λ d s h. (
      h.0,
      subst IsWellFormed (ap (λ (c : Changed). c.0) same)
          (moves.kept p (find_payment-IsWellFormed payment_id d.payments h.0.1.rows h.1)),
      p,
      h.1,
      moves.moved p q same,
    ))
    accepted-moved before p (q, some x) same = Triple-lift _ (λ d s h.
        untaken_refused key (new_invalid_state_error x) before s (moves.refused p q x same) h.0.0)

    -- Under FaultsAreHonest and RowsStayWellFormed, for a method that moves a payment to the state
    -- t: if markPaymentTransitioning returns a payment, it is well formed, in state t, stored as
    -- it is, and the key is locked for it; if it returns an error, the tables and the calls are
    -- still in order, and where the error is ErrDuplicateIdempotencyKey the key is in the table.
    -- It does not panic.
    pub Triple-mark_payment_transitioning :
        Triple e Sound
          (mark_payment_transitioning payment_id key request_hash f)
          (Marked t key)
          (Refused key)
    unfolding mark_payment_transitioning is_error new_internal_error
    Triple-mark_payment_transitioning = Triple-bind {Q = λ _. Sound} _ _ (begin-refused key) λ _.
        Triple-atomically _ λ before.
          let locking = Triple-or_fail {E = λ x d s. Refused key x before s} keep_duplicate _ (
            Triple-acquire_lock {P = λ d s. Sound d s × (d ≡ before)} {Q = λ _. Open before} key
              payment_id request_hash honest
              (λ now d s new h. (
                subst (λ b. Sound b s) h.1 h.0,
                record {
                  rows = h.0.0;
                  row = locked_key key payment_id request_hash now;
                  found = find_locked_key key payment_id request_hash now d.keys new;
                  locked = refl;
                  owner = refl;
                },
              ))
              (λ x d s taken h. (
                subst (λ b. Sound b s) h.1 h.0,
                λ dup. subst (λ b. KeyIn key b s) h.1 (taken (sym (keep_duplicate_same x) ∙ dup)),
              ))) in
          let reading = Triple-or_fail {E = λ x d s. Refused key x before s} new_internal_error _ (
            Triple-find_by_id_for_update {J = Open before} payment_id honest
              (λ x d s u h. untaken_refused key (new_internal_error x) before s u h.0)) in
          Triple-bind _ _ locking λ _. Triple-bind _ _ reading λ p.
            Triple-bind _ _ (accepted-moved before p (f p) refl) λ q.
              Triple-bind {Q = λ _ d s. Sound before s × Marked t key q d s} _ _
                (Triple-or_fail _ _ (
                  Triple-update q honest
                    (λ d s h.
                      (h.0.0, marked_update t key payment_id h.2 q d s h.0.1 h.0.0.1 h.1 h.3 h.4))
                    (λ x d s u h. untaken_refused key (new_internal_error x) before s u h.0.0)))
                λ _.
                  Triple-bind _ _
                    (commit-refused key before (λ d s. Sound before s × Marked t key q d s)
                      (λ d s h. h.0))
                    λ _. Triple-pure q (λ d s h. h.1)
