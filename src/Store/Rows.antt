-- ===== src/Store/Rows.antt =====
-- Looking up rows after an insert or an update.
use ficmart_payment_gateway.Prelude.{
  String, ◌≡◌, refl, Bool, true, false, some, List, [], ◌∷◌, ◌++◌, arith, All, str_eq, eq_iff,
  is_some, if◌then◌else◌,
}
use ficmart_payment_gateway.Domain.{Payment}
use ficmart_payment_gateway.Domain.Invariant.{IsWellFormed}
use ficmart_payment_gateway.Store.{
  IdempotencyKey, find_payment, find_key, overwrite, update_rows, update_keys,
}

pub find_payment_id :
    (id : String) {p : Payment} (ps : List Payment) → find_payment id ps ≡ some p → p.id ≡ id
unfolding find_payment
find_payment_id id [] h = cc
find_payment_id id {p} (q ∷ ps) h = ground (arith, eq_iff q.id id, find_payment_id id {p = p} ps)

pub find_payment-IsWellFormed :
    (id : String) {p : Payment} (ps : List Payment)
    → All IsWellFormed ps
    → find_payment id ps ≡ some p
    → IsWellFormed p
unfolding find_payment
find_payment-IsWellFormed id [] h e = cc
find_payment-IsWellFormed id {p} (q ∷ ps) h e =
    ground (arith, find_payment-IsWellFormed id {p = p} ps h.1)

pub find_payment-append :
    (id : String) (ps qs : List Payment)
    → find_payment id (ps ++ qs)
      ≡ (if is_some (find_payment id ps) then find_payment id ps else find_payment id qs)
unfolding find_payment
find_payment-append id [] qs = refl
find_payment-append id (p ∷ ps) qs = ground (arith, find_payment-append id ps qs)

pub find_payment-update_rows :
    (q : Payment) {p : Payment} (ps : List Payment)
    → find_payment q.id ps ≡ some p
    → find_payment q.id (update_rows q ps) ≡ some (overwrite q p)
unfolding find_payment update_rows
find_payment-update_rows q [] h = cc
find_payment-update_rows q {p} (r ∷ ps) h = ground (arith, find_payment-update_rows q {p = p} ps)

-- An update touches no payment with another id.
pub find_payment-update_rows_ne :
    (q : Payment) (id : String) (ps : List Payment)
    → str_eq q.id id ≡ false
    → find_payment id (update_rows q ps) ≡ find_payment id ps
unfolding find_payment update_rows
find_payment-update_rows_ne q id [] h = refl
find_payment-update_rows_ne q id (r ∷ ps) h =
    ground (
      arith,
      eq_iff r.id q.id,
      eq_iff r.id id,
      eq_iff q.id id,
      find_payment-update_rows_ne q id ps h,
    )

-- What an update writes decides whether the row is well formed.
overwrite-IsWellFormed : (p row : Payment) → IsWellFormed p → IsWellFormed (overwrite p row)
overwrite-IsWellFormed p row h = record {
  auth_known = h.auth_known;
  auth_dated = h.auth_dated;
  auth_absent = h.auth_absent;
  capture_known = h.capture_known;
  capture_dated = h.capture_dated;
  capture_only = h.capture_only;
  void_known = h.void_known;
  void_dated = h.void_dated;
  refund_known = h.refund_known;
  refund_dated = h.refund_dated;
}

pub update_rows-IsWellFormed :
    (p : Payment) (rows : List Payment)
    → IsWellFormed p
    → All IsWellFormed rows
    → All IsWellFormed (update_rows p rows)
unfolding update_rows
update_rows-IsWellFormed p [] h all = tt
update_rows-IsWellFormed p (row ∷ rows) h all =
    (written (str_eq row.id p.id), update_rows-IsWellFormed p rows h all.1)
  where
    written : (b : Bool) → IsWellFormed (if b then overwrite p row else row)
    written true = overwrite-IsWellFormed p row h
    written false = all.0

pub append-IsWellFormed :
    (rows : List Payment) (p : Payment)
    → All IsWellFormed rows
    → IsWellFormed p
    → All IsWellFormed (rows ++ p ∷ [])
append-IsWellFormed [] p all h = (h, tt)
append-IsWellFormed (row ∷ rows) p all h = (all.0, append-IsWellFormed rows p all.1 h)

pub find_key-append :
    (k : String) (is js : List IdempotencyKey)
    → find_key k (is ++ js) ≡ (if is_some (find_key k is) then find_key k is else find_key k js)
unfolding find_key
find_key-append k [] js = refl
find_key-append k (i ∷ is) js = ground (arith, find_key-append k is js)

pub find_key_key :
    (k : String) {i : IdempotencyKey} (is : List IdempotencyKey)
    → find_key k is ≡ some i
    → i.key ≡ k
unfolding find_key
find_key_key k [] h = cc
find_key_key k {i} (j ∷ is) h = ground (arith, eq_iff j.key k, find_key_key k {i = i} is)

-- An update that leaves the column `key` alone keeps every key in the table.
pub find_key-update_keys :
    (f : IdempotencyKey → IdempotencyKey) (k j : String) (is : List IdempotencyKey)
    → ((i : IdempotencyKey) → (f i).key ≡ i.key)
    → is_some (find_key j (update_keys f k is)) ≡ is_some (find_key j is)
unfolding find_key update_keys
find_key-update_keys f k j [] h = refl
find_key-update_keys f k j (i ∷ is) h = ground (arith, h i, find_key-update_keys f k j is h)
