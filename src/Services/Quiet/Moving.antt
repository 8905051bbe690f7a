-- ===== src/Services/Quiet/Moving.antt =====
-- The two transactions around the bank's call where nothing fails, and Capture from its check to its
-- result.
use ficmart_payment_gateway.Prelude.{
  String, ◌≡◌, refl, sym, ◌∙◌, ap, subst, Bool, true, false, Option, none, some, List, [], ◌∷◌,
  ◌++◌, map, arith, is_some, eq_refl,
}
use ficmart_payment_gateway.Domain.{Payment, Changed, Time}
use ficmart_payment_gateway.Bank.{BankCall, BankResponse}
use ficmart_payment_gateway.Bank.Retry.{reply}
use ficmart_payment_gateway.Store.{
  IdempotencyKey, Db, find_payment, find_key, overwrite, update_rows, update_keys,
}
use ficmart_payment_gateway.Store.Rows.{find_payment-update_rows, find_key-append}
use ficmart_payment_gateway.Exec.{Env, Sent, from_answer, lift, gets, ◌>>=◌}
use ficmart_payment_gateway.Exec.Triple.{
  Pred, Triple, Triple-bind, Triple-lift, Triple-gets, Triple-or_fail, Triple-atomically,
  Triple-pure,
}
use ficmart_payment_gateway.Postgres.Payments.{in_tx, find_by_id_for_update}
use ficmart_payment_gateway.Postgres.Keys.{
  locked_key, set_payload, unlock, store_response, release_lock,
}
use ficmart_payment_gateway.Services.Transactions.{
  keep_duplicate, mark_payment_transitioning, accepted, finalize_payment, finish,
}
use ficmart_payment_gateway.Services.Quiet.{
  IsQuiet, Never, Triple-then, quiet_begin, quiet_commit, quiet_query_row, quiet_update,
  quiet_acquire_lock, quiet_keys,
}

abbrev pub calls_of : List Sent → List BankCall
calls_of s = map (λ r. r.call) s

-- The payment is stored as `p`, these calls have been sent, and the key is new.
pub record Before (id key : String) (p : Payment) (cs : List BankCall) (d : Db) (s : List Sent)
    : Type 0 where
  pub found : find_payment id d.payments ≡ some p
  pub calls : calls_of s ≡ cs
  pub absent : find_key key d.keys ≡ none

-- The row of the key: its payment, its hash, whether it is locked, and the stored response.
pub record Row (id key hash : String) (is_locked : Bool) (payload : Option String)
    (keys : List IdempotencyKey) : Type 0 where
  pub row : IdempotencyKey
  pub found : find_key key keys ≡ some row
  pub owner : row.payment_id ≡ id
  pub hashed : row.request_hash ≡ hash
  pub locked : is_some row.locked_at ≡ is_locked
  pub stored : row.response_payload ≡ payload

-- The payment is stored as `p`, these calls have been sent, and the key has its row.
pub record Stage (id key hash : String) (p : Payment) (cs : List BankCall) (is_locked : Bool)
    (payload : Option String) (d : Db) (s : List Sent) : Type 0 where
  pub found : find_payment id d.payments ≡ some p
  pub calls : calls_of s ≡ cs
  pub keyed : Row id key hash is_locked payload d.keys

find_inserted :
    (key id hash : String) (now : Time) (keys : List IdempotencyKey)
    → find_key key keys ≡ none
    → find_key key (keys ++ locked_key key id hash now ∷ []) ≡ some (locked_key key id hash now)
unfolding find_key
find_inserted key id hash now keys new =
    rw (find_key-append key keys (locked_key key id hash now ∷ []), new, eq_refl key) refl

find_updated :
    (f : IdempotencyKey → IdempotencyKey) (key : String) {i : IdempotencyKey}
    (keys : List IdempotencyKey)
    → ((j : IdempotencyKey) → (f j).key ≡ j.key)
    → find_key key keys ≡ some i
    → find_key key (update_keys f key keys) ≡ some (f i)
unfolding find_key update_keys
find_updated f key [] same h = cc
find_updated f key {i} (j ∷ keys) same h =
    ground (arith, same j, find_updated f key {i = i} keys same)

-- The new row of a payment that takes its place.
moved_row :
    (id : String) (p q : Payment) (ps : List Payment)
    → q.id ≡ id
    → overwrite q p ≡ q
    → find_payment id ps ≡ some p
    → find_payment id (update_rows q ps) ≡ some q
moved_row id p q ps same whole h =
    subst (λ i. find_payment i (update_rows q ps) ≡ some q) same
      (find_payment-update_rows q {p = p} ps (subst (λ i. find_payment i ps ≡ some p) (sym same) h)
        ∙ ap some whole)

module _ {e : Env} (quiet : IsQuiet e) (id key hash : String) (cs : List BankCall) where
  accepted_quiet :
      {P : Pred} (c : Changed) (q : Payment)
      → c ≡ (q, none)
      → Triple e P (lift (accepted c)) (λ r d s. P d s × (r ≡ q)) Never
  accepted_quiet c q same = Triple-lift _ (λ d s h. rw same (h, refl))

  -- markPaymentTransitioning commits the new state and the locked key.
  pub mark_quiet :
      (f : Payment → Changed) (p q : Payment)
      → f p ≡ (q, none)
      → q.id ≡ id
      → overwrite q p ≡ q
      → Triple e
          (Before id key p cs)
          (mark_payment_transitioning id key hash f)
          (λ r d s. Stage id key hash q cs true none d s × (r ≡ q))
          Never
  unfolding mark_payment_transitioning find_by_id_for_update
  mark_quiet f p q moves same whole = Triple-bind _ _ (quiet_begin quiet _) λ _.
      Triple-atomically _ λ before.
        Triple-bind {Q = λ _. Stage id key hash p cs true none} _ _
          (Triple-or_fail keep_duplicate _ (
            quiet_acquire_lock quiet key id hash p (λ d s h. (h.0.absent, h.0.found))
              (λ now d s h. record {
                found = h.0.found;
                calls = h.0.calls;
                keyed = record {
                  row = locked_key key id hash now;
                  found = find_inserted key id hash now d.keys h.0.absent;
                  owner = refl;
                  hashed = refl;
                  locked = refl;
                  stored = refl;
                };
              })))
          λ _.
            Triple-then _ _ p
              (Triple-or_fail _ _ (quiet_query_row quiet in_tx p _ (λ d s h. h.found)))
              (Triple-then _ _ q (accepted_quiet (f p) q moves) (
                Triple-bind {Q = λ _. Stage id key hash q cs true none} _ _
                  (Triple-or_fail _ _ (
                    quiet_update quiet in_tx q p
                      (λ d s h. subst (λ i. find_payment i d.payments ≡ some p) (sym same) h.found)
                      (λ d s h. record {
                        found = moved_row id p q d.payments same whole h.found;
                        calls = h.calls;
                        keyed = h.keyed;
                      })))
                  λ _.
                    Triple-bind _ _ (quiet_commit quiet _) λ _. Triple-pure q (λ d s h. (h, refl))))

  keys_quiet :
      (f : IdempotencyKey → IdempotencyKey) (q : Payment) (l m : Bool) (x y : Option String)
      (d : Db) (s : List Sent)
      → ((j : IdempotencyKey)
          → ((f j).key ≡ j.key)
            × ((f j).payment_id ≡ j.payment_id)
            × ((f j).request_hash ≡ j.request_hash)
            × (is_some j.locked_at ≡ l → is_some (f j).locked_at ≡ m)
            × (j.response_payload ≡ x → (f j).response_payload ≡ y))
      → Stage id key hash q cs l x d s
      → Stage id key hash q cs m y (record d { keys = update_keys f key d.keys }) s
  keys_quiet f q l m x y d s keeps h =
      let r = h.keyed in
      let (same, owner, hashed, locks, stores) = keeps r.row in
      record {
        found = h.found;
        calls = h.calls;
        keyed = record {
          row = f r.row;
          found = find_updated f key d.keys (λ j. (keeps j).0) r.found;
          owner = owner ∙ r.owner;
          hashed = hashed ∙ r.hashed;
          locked = locks r.locked;
          stored = stores r.stored;
        };
      }

  marshalled :
      (q : Payment) (response : BankResponse) (payload : String)
      → e.marshal_response response ≡ reply payload
      → Triple e
          (Stage id key hash q cs true none)
          (gets (λ e db. e.marshal_response response) >>= λ a. lift (from_answer a))
          (λ r d s. Stage id key hash q cs true none d s × (r ≡ payload))
          Never
  marshalled q response payload text =
      Triple-then {R = Stage id key hash q cs true none} _ _ (reply payload)
        (Triple-gets _ (λ d s h. (h, text))) (Triple-lift _ (λ d s h. (h, refl)))

  -- finalizePayment commits the final state, the response and the released key.
  pub finalize_quiet :
      (p q : Payment) (response : BankResponse) (payload : String)
      → q.id ≡ id
      → overwrite q p ≡ q
      → e.marshal_response response ≡ reply payload
      → Triple e
          (Stage id key hash p cs true none)
          (finalize_payment q key response)
          (λ _. Stage id key hash q cs false (some payload))
          Never
  unfolding finalize_payment store_response release_lock
  finalize_quiet p q response payload same whole text = Triple-bind _ _ (quiet_begin quiet _) λ _.
      Triple-atomically _ λ before.
        Triple-bind {Q = λ _. Stage id key hash q cs true none} _ _
          (Triple-or_fail _ _ (
            quiet_update quiet in_tx q p
              (λ d s h. subst (λ i. find_payment i d.payments ≡ some p) (sym same) h.0.found)
              (λ d s h. record {
                found = moved_row id p q d.payments same whole h.0.found;
                calls = h.0.calls;
                keyed = h.0.keyed;
              })))
          λ _. Triple-then _ _ payload (Triple-or_fail _ _ (marshalled q response payload text)) (
            Triple-bind {Q = λ _. Stage id key hash q cs true (some payload)} _ _
              (Triple-or_fail _ _ (
                quiet_keys quiet _ (set_payload payload) key (λ d s h.
                  keys_quiet (set_payload payload) q true true none (some payload) d s
                    (λ j. (refl, refl, refl, λ l. l, λ x. refl)) h)))
              λ _.
                Triple-bind {Q = λ _. Stage id key hash q cs false (some payload)} _ _
                  (Triple-or_fail _ _ (
                    quiet_keys quiet _ unlock key (λ d s h.
                      keys_quiet unlock q true false (some payload) (some payload) d s
                        (λ j. (refl, refl, refl, λ l. refl, λ x. x)) h)))
                  λ _. quiet_commit quiet _)

  pub finish_quiet :
      (c : Changed) (p q : Payment) (response : BankResponse) (payload : String)
      → c ≡ (q, none)
      → q.id ≡ id
      → overwrite q p ≡ q
      → e.marshal_response response ≡ reply payload
      → Triple e
          (Stage id key hash p cs true none)
          (finish c key response)
          (λ r d s. Stage id key hash q cs false (some payload) d s × (r ≡ q))
          Never
  unfolding finish
  finish_quiet c p q response payload moves same whole text =
      Triple-then _ _ q (accepted_quiet c q moves) (
        Triple-bind _ _ (finalize_quiet p q response payload same whole text)
          λ _. Triple-pure q (λ d s h. (h, refl)))
