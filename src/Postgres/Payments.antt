-- ===== src/Postgres/Payments.antt =====
-- internal/infrastructure/persistence/postgres/payment_repository.go.
use ficmart_payment_gateway.Prelude.{
  ℕ, zero, suc, String, Bool, true, false, ◌&&◌, Option, none, some, List, [], ◌∷◌, ◌++◌, ◌==◌,
  str_eq, if◌then◌else◌,
}
use ficmart_payment_gateway.Prelude.Integer.{ℤ, pos, negsuc, ltb_ℤ, leb_ℤ}
use ficmart_payment_gateway.Failure.{sentinel, wrap, pg_error, is_error, no_rows, payment_not_found}
use ficmart_payment_gateway.Domain.{Payment, Time, same_status, authorized}
use ficmart_payment_gateway.Bank.Retry.{Answer, reply, fault}
use ficmart_payment_gateway.Store.{Db, find_payment, update_rows}
use ficmart_payment_gateway.Exec.{
  Result, ok, err, panic, Exec, ◌>>=◌, ◌>>◌, pure, raise, gets, write, or_fail, attempt, round_trip,
  fresh_round_trip, lift,
}

-- Where a statement runs: in the caller's transaction, or on the pool (a nil `tx`).
pub data Conn : Type 0 where
  in_tx on_pool : Conn

unfoldable pub touch : Conn → Exec Unit
touch in_tx = round_trip
touch on_pool = fresh_round_trip

-- The INSERT of Create; `id` is the primary key.
abbrev pub insert_payment : Payment → Db → Answer Db
insert_payment p db = elim (find_payment p.id db.payments) [
  | some _ ↦ fault (pg_error "23505")
  | none ↦ reply (record db { payments = db.payments ++ p ∷ [] })
]

unfoldable pub create : Payment → Exec Unit
create p = or_fail (wrap "failed to create payment") (do round_trip; write (insert_payment p))

-- scanPayment, on the result of the query.
unfoldable pub scan_payment : Result Unit → Option Payment → Exec Payment
scan_payment (ok _) (some p) = pure p
scan_payment (ok _) none = raise (sentinel payment_not_found)
scan_payment (err x) row =
    if is_error x no_rows
    then raise (sentinel payment_not_found)
    else raise (wrap "failed to scan payment" x)
scan_payment panic row = lift panic

unfoldable pub query_row : Conn → (List Payment → Option Payment) → Exec Payment
unfolding touch scan_payment
query_row c choose = do
  r ← attempt (touch c)
  row ← gets (λ e db. choose db.payments)
  scan_payment r row

unfoldable pub find_by_id : String → Exec Payment
unfolding query_row
find_by_id id = query_row on_pool (find_payment id)

-- FindByIDForUpdate
unfoldable pub find_by_id_for_update : String → Exec Payment
unfolding query_row
find_by_id_for_update id = query_row in_tx (find_payment id)

-- The column is not unique and the query has no order: the first row of the table is taken.
unfoldable pub find_first_by_order : String → List Payment → Option Payment
find_first_by_order order [] = none
find_first_by_order order (p ∷ ps) =
    if str_eq p.order_id order then some p else find_first_by_order order ps

unfoldable pub find_by_order_id : String → Exec Payment
unfolding query_row
find_by_order_id order = query_row on_pool (find_first_by_order order)

-- The rows that a WHERE keeps.
unfoldable pub where_rows : {A : Type 0} → (A → Bool) → List A → List A
where_rows keep [] = []
where_rows keep (p ∷ ps) = let rest = where_rows keep ps in if keep p then p ∷ rest else rest

-- ORDER BY, where `before p q` says that `p` may stand before `q`.
unfoldable pub insert_ordered : {A : Type 0} → (A → A → Bool) → A → List A → List A
insert_ordered before p [] = p ∷ []
insert_ordered before p (q ∷ qs) =
    let rest = insert_ordered before p qs in if before p q then p ∷ q ∷ qs else q ∷ rest

unfoldable pub order_by : {A : Type 0} → (A → A → Bool) → List A → List A
unfolding insert_ordered
order_by before [] = []
order_by before (p ∷ ps) = insert_ordered before p (order_by before ps)

-- OFFSET and LIMIT
abbrev pub drop {ℓ} : {A : Type ℓ} → ℕ → List A → List A
drop zero xs = xs
drop (suc n) [] = []
drop (suc n) (x ∷ xs) = drop n xs

abbrev pub take {ℓ} : {A : Type ℓ} → ℕ → List A → List A
take zero xs = []
take (suc n) [] = []
take (suc n) (x ∷ xs) = x ∷ take n xs

-- The server refuses a negative LIMIT or OFFSET.
abbrev pub window : {A : Type 0} → ℤ → ℤ → List A → Result (List A)
window (negsuc _) offset ps = err (pg_error "2201W")
window (pos limit) (negsuc _) ps = err (pg_error "2201X")
window (pos limit) (pos offset) ps = ok (take limit (drop offset ps))

-- A query of several rows: the first round trip is Query, the second reads the rows (scanPayments).
unfoldable pub query_rows : String → (List Payment → Result (List Payment)) → Exec (List Payment)
query_rows label choose = do
  or_fail (wrap label) fresh_round_trip
  round_trip
  rows ← gets (λ e db. choose db.payments)
  lift rows

unfoldable pub find_by_customer_id : String → ℤ → ℤ → Exec (List Payment)
unfolding query_rows where_rows order_by
find_by_customer_id customer limit offset = query_rows "query payments by customer_id" λ ps.
    window limit offset (
      order_by (λ p q. leb_ℤ q.created_at p.created_at)
        (where_rows (λ p. str_eq p.customer_id customer) ps))

-- A comparison with NULL keeps no row.
abbrev pub is_before : Option Time → Time → Bool
is_before none t = false
is_before (some s) t = ltb_ℤ s t

abbrev pub nulls_last : Option Time → Option Time → Bool
nulls_last (some s) (some t) = leb_ℤ s t
nulls_last (some s) none = true
nulls_last none (some t) = false
nulls_last none none = true

unfoldable pub find_expired_authorizations : Time → ℤ → Exec (List Payment)
unfolding query_rows where_rows order_by
find_expired_authorizations cutoff limit = query_rows "query expired authorizations" λ ps.
    window limit (pos 0) (
      order_by (λ p q. nulls_last p.authorized_at q.authorized_at)
        (where_rows (λ p. same_status p.status authorized && is_before p.authorized_at cutoff) ps))

-- The rows that an UPDATE of this payment matches.
unfoldable pub rows_affected : Payment → List Payment → ℕ
rows_affected p [] = 0
rows_affected p (row ∷ rows) =
    let rest = rows_affected p rows in if str_eq row.id p.id then suc rest else rest

-- The UPDATE, with the test on the number of rows.
abbrev pub update_payment : Payment → Db → Answer Db
update_payment p db =
    if rows_affected p db.payments == 0
    then fault (sentinel payment_not_found)
    else reply (record db { payments = update_rows p db.payments })

unfoldable pub update : Conn → Payment → Exec Unit
unfolding touch
update c p = do or_fail (wrap "failed to update payment status") (touch c); write (update_payment p)
