-- ===== src/Worker/Ensures/Selecting.antt =====
-- Which payments the query of ProcessRetries takes (internal/worker/retry_worker.go).
use mathlib.Core.List.{Memᴰ}
use mathlib.Core.List.Memᴰ
use ficmart_payment_gateway.Prelude.{
  ℕ, ◌≤◌, ◌≡◌, refl, sym, ◌∙◌, ap, subst, Bool, true, false, ◌⊎◌, inl, inr, Option, none, some,
  List, [], ◌∷◌, map, All, length, arith, str_eq, eq_iff, if◌then◌else◌,
}
use ficmart_payment_gateway.Prelude.Integer.{pos, ltb_ℤ, leb_ℤ, ◌-ℤ◌}
use ficmart_payment_gateway.Domain.{Payment, Time, capturing, voiding, refunding, contains}
use ficmart_payment_gateway.Store.{IdempotencyKey, Db}
use ficmart_payment_gateway.Exec.{ok}
use ficmart_payment_gateway.Postgres.Payments.{where_rows, order_by, take, is_before}
use ficmart_payment_gateway.Postgres.Querying.{
  Ordered, where_rows_sound, where_rows_complete, order_by_sound, order_by_complete,
  order_by-Ordered, take_sound, take_complete, take-Ordered, length-take,
}
use ficmart_payment_gateway.Worker.Backoff.{RetryWorker}
use ficmart_payment_gateway.Worker.Retries.{
  Joined, join_one, join, due, is_stuck, stuck_row, before_payment, stuck_payments,
}

join_one_sound :
    {p : Payment} {i : IdempotencyKey} (q : Payment) (is : List IdempotencyKey)
    → Memᴰ (p, i) (join_one q is)
    → (p ≡ q) × Memᴰ i is × (q.id ≡ i.payment_id)
unfolding join_one
join_one_sound q [] d = absurd (Memᴰ.not-nil d)
join_one_sound {p} {i} q (j ∷ is) d =
    split (λ d. join_one_sound q is d) (str_eq q.id j.payment_id) refl d
  where
    split :
        (Memᴰ (p, i) (join_one q is) → (p ≡ q) × Memᴰ i is × (q.id ≡ i.payment_id))
        → (b : Bool) → str_eq q.id j.payment_id ≡ b
        → Memᴰ (p, i) (if b then (q, j) ∷ join_one q is else join_one q is)
        → (p ≡ q) × Memᴰ i (j ∷ is) × (q.id ≡ i.payment_id)
    split rest true e (Memᴰ.head f) =
        let same : i ≡ j = ap (λ (x : Joined). x.1) f in
        (
          ap (λ (x : Joined). x.0) f,
          Memᴰ.head same,
          (eq_iff q.id j.payment_id).0 e ∙ ap (λ k. k.payment_id) (sym same),
        )
    split rest true e (Memᴰ.tail d) = let h = rest d in (h.0, Memᴰ.tail h.1, h.2)
    split rest false e d = let h = rest d in (h.0, Memᴰ.tail h.1, h.2)

join_one_complete :
    {i : IdempotencyKey} (p : Payment) (is : List IdempotencyKey)
    → Memᴰ i is
    → p.id ≡ i.payment_id
    → Memᴰ (p, i) (join_one p is)
unfolding join_one
join_one_complete p [] d same = absurd (Memᴰ.not-nil d)
join_one_complete {i} p (j ∷ is) d same =
    split (λ d. join_one_complete p is d same) (str_eq p.id j.payment_id) refl d
  where
    split :
        (Memᴰ i is → Memᴰ (p, i) (join_one p is))
        → (b : Bool) → str_eq p.id j.payment_id ≡ b
        → Memᴰ i (j ∷ is)
        → Memᴰ (p, i) (if b then (p, j) ∷ join_one p is else join_one p is)
    split rest true e (Memᴰ.head f) = Memᴰ.head (ap (λ k. (p, k)) f)
    split rest true e (Memᴰ.tail d) = Memᴰ.tail (rest d)
    split rest false e (Memᴰ.head f) =
        let found = (eq_iff p.id j.payment_id).1 (same ∙ ap (λ k. k.payment_id) f) in
        ground (arith, e, found)
    split rest false e (Memᴰ.tail d) = rest d

join_sound :
    {p : Payment} {i : IdempotencyKey} (ps : List Payment) (is : List IdempotencyKey)
    → Memᴰ (p, i) (join ps is)
    → Memᴰ p ps × Memᴰ i is × (p.id ≡ i.payment_id)
unfolding join
join_sound [] is d = absurd (Memᴰ.not-nil d)
join_sound {p} {i} (q ∷ ps) is d = elim (Memᴰ.append_cases (join_one q is) d) [
  | inl here ↦ let h = join_one_sound q is here in (Memᴰ.head h.0, h.1, ap (λ x. x.id) h.0 ∙ h.2)
  | inr there ↦ let h = join_sound ps is there in (Memᴰ.tail h.0, h.1, h.2)
]

join_complete :
    {p : Payment} {i : IdempotencyKey} (ps : List Payment) (is : List IdempotencyKey)
    → Memᴰ p ps
    → Memᴰ i is
    → p.id ≡ i.payment_id
    → Memᴰ (p, i) (join ps is)
unfolding join
join_complete [] is d f same = absurd (Memᴰ.not-nil d)
join_complete {p} {i} (q ∷ ps) is (Memᴰ.head e) f same = Memᴰ.append_left (join ps is) (
    subst (λ x. Memᴰ (x, i) (join_one q is)) (sym e)
      (join_one_complete q is f (ap (λ x. x.id) (sym e) ∙ same)))
join_complete (q ∷ ps) is (Memᴰ.tail d) f same =
    Memᴰ.append_right (join_one q is) (join_complete ps is d f same)

-- A payment in the middle of an operation that is due, may be tried again, and whose key has been
-- locked for longer than the worker's interval.
pub record IsStuck (w : RetryWorker) (now : Time) (p : Payment) (i : IdempotencyKey) : Type 0 where
  pub midway : (p.status ≡ capturing) ⊎ ((p.status ≡ voiding) ⊎ (p.status ≡ refunding))
  pub due_at :
      (p.next_retry_at ≡ none) ⊎ ((t : Time) × (p.next_retry_at ≡ some t) × (leb_ℤ t now ≡ true))
  pub tries_left : ltb_ℤ (pos p.attempt_count) w.max_retries ≡ true
  pub locked_long : (t : Time) × (i.locked_at ≡ some t) × (ltb_ℤ t (now -ℤ w.interval) ≡ true)

due_cases :
    (o : Option Time) (now : Time)
    → due o now ≡ true
    → (o ≡ none) ⊎ ((t : Time) × (o ≡ some t) × (leb_ℤ t now ≡ true))
due_cases none now h = inl refl
due_cases (some t) now h = inr (t, refl, h)

is_before_cases :
    (o : Option Time) (limit : Time)
    → is_before o limit ≡ true
    → (t : Time) × (o ≡ some t) × (ltb_ℤ t limit ≡ true)
is_before_cases none limit h = cc
is_before_cases (some t) limit h = (t, refl, h)

is_stuck_sound :
    (w : RetryWorker) (now : Time) (p : Payment) (i : IdempotencyKey)
    → is_stuck w now (p, i) ≡ true
    → IsStuck w now p i
unfolding is_stuck contains
is_stuck_sound w now p i h = record {
  midway = ground (arith, h);
  due_at = due_cases p.next_retry_at now (ground (arith, h));
  tries_left = ground (arith, h);
  locked_long = is_before_cases i.locked_at (now -ℤ w.interval) (ground (arith, h));
}

is_stuck_complete :
    (w : RetryWorker) (now : Time) (p : Payment) (i : IdempotencyKey)
    → IsStuck w now p i
    → is_stuck w now (p, i) ≡ true
unfolding is_stuck contains
is_stuck_complete w now p i h =
    let midway = h.midway in
    let due_at = h.due_at in
    let tries = h.tries_left in
    let (t, at, long) = h.locked_long in ground (arith, midway, due_at, tries, at, long)

oldest_total : (x y : Joined) → before_payment x y ≡ false → before_payment y x ≡ true
oldest_total (p, i) (q, j) h = ground (arith, h)

oldest_trans :
    (x y z : Joined)
    → before_payment x y ≡ true
    → before_payment y z ≡ true
    → before_payment x z ≡ true
oldest_trans (p, i) (q, j) (r, k) h g = ground (arith, h, g)

-- The rows that the worker takes: `size` of the candidates at most, the oldest first.
pub record Selection (w : RetryWorker) (now : Time) (d : Db) (size : ℕ) (js : List Joined)
    : Type 0 where
  pub ordered : Ordered before_payment js
  pub bounded : length js ≤ size
  pub stuck :
      (p : Payment) (i : IdempotencyKey)
      → Memᴰ (p, i) js
      → Memᴰ p d.payments × Memᴰ i d.keys × (p.id ≡ i.payment_id) × IsStuck w now p i
  pub complete :
      (p : Payment) (i : IdempotencyKey)
      → Memᴰ p d.payments
      → Memᴰ i d.keys
      → p.id ≡ i.payment_id
      → IsStuck w now p i
      → Memᴰ (p, i) js
        ⊎ ((length js ≡ size) × All (λ (j : Joined). before_payment j (p, i) ≡ true) js)

-- With a batch size that is not negative, the query of ProcessRetries returns a selection of the
-- stuck payments with their keys: at most a batch, ordered by creation time, each row a payment in
-- the middle of an operation that is due, has tries left and whose key has been locked for longer
-- than the interval; and every such payment is selected, or the batch is full and nothing selected
-- was created after it.
pub stuck_payments-Selection :
    (w : RetryWorker) (now : Time) (d : Db) (size : ℕ)
    → w.batch_size ≡ pos size
    → (js : List Joined) × (stuck_payments w now d ≡ ok (map stuck_row js))
      × Selection w now d size js
unfolding stuck_payments
stuck_payments-Selection w now d size batch =
    let candidates = where_rows (is_stuck w now) (join d.payments d.keys) in
    let oldest = order_by before_payment candidates in
    let sorted = order_by-Ordered before_payment oldest_total oldest_trans candidates in
    (
      take size oldest,
      rw batch refl,
      record {
        ordered = take-Ordered before_payment size oldest sorted;
        bounded = length-take before_payment size oldest;
        stuck = λ p i taken.
            let kept = where_rows_sound (is_stuck w now) (join d.payments d.keys) (
              order_by_sound before_payment candidates
                (take_sound before_payment size oldest taken)) in
            let (paid, keyed, same) = join_sound d.payments d.keys kept.0 in
            (paid, keyed, same, is_stuck_sound w now p i kept.1);
        complete = λ p i paid keyed same is. take_complete before_payment size oldest sorted (
            order_by_complete before_payment candidates (
              where_rows_complete (is_stuck w now) (join d.payments d.keys)
                (join_complete d.payments d.keys paid keyed same)
                (is_stuck_complete w now p i is)));
      },
    )
