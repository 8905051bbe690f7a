-- ===== src/Postgres/Reading.antt =====
-- What the reads of the two repositories ensure.
use ficmart_payment_gateway.Prelude.{String, ◌≡◌, refl, sym, ◌∙◌, true, false, none, some, List}
use ficmart_payment_gateway.Failure.{Error, sentinel, wrap, is_error, no_rows, payment_not_found}
use ficmart_payment_gateway.Store.{Db, find_payment, find_key}
use ficmart_payment_gateway.Exec.{Result, ok, err, panic, Env, Sent, ◌>>=◌, gets}
use ficmart_payment_gateway.Exec.Triple.{
  Pred, Ends, Triple, Triple-bind, Triple-pure, Triple-raise, Triple-if, Triple-lift, Triple-gets,
  Triple-attempt, Triple-round_trip, Triple-fresh_round_trip,
}
use ficmart_payment_gateway.Exec.Fair.{FaultsAreHonest, IsHonest, IsStable}
use ficmart_payment_gateway.Postgres.Payments.{find_by_id, find_by_id_for_update, scan_payment}
use ficmart_payment_gateway.Postgres.Keys.{find_by_key, row_or_nil}
use ficmart_payment_gateway.Postgres.Ensures.{IsUntaken}

module _ {e : Env} {J : Pred} {E : Error → Pred} where
  after_trip :
      (key : String) (r : Result Unit)
      → ((x : Error) (d : Db) (s : List Sent) → J d s → E x d s)
      → Triple e
          (Ends (λ _. J) (λ x d s. J d s × IsHonest x) r)
          (row_or_nil r key)
          (λ o d s. J d s × (o ≡ find_key key d.keys))
          E
  unfolding row_or_nil
  after_trip key (ok t) bad = Triple-gets _ (λ d s h. (h, refl))
  after_trip key (err x) bad =
      Triple-if (is_error x no_rows) _ _
        (λ absent.
          Triple-pure none (λ d s h. let wrong : false ≡ true = sym h.1.not_absent ∙ absent in cc))
        (λ other. Triple-raise x (λ d s h. bad x d s h.0))
  after_trip key panic bad = Triple-lift panic (λ d s h. h)

  -- The row read on the pool is the one that is there after the commits of others.
  pub Triple-find_by_key :
      (key : String)
      → FaultsAreHonest e
      → IsStable e J
      → ((x : Error) (d : Db) (s : List Sent) → J d s → E x d s)
      → Triple e J (find_by_key key) (λ o d s. J d s × (o ≡ find_key key d.keys)) E
  unfolding find_by_key
  Triple-find_by_key key honest stable bad =
      Triple-bind _ _
        (Triple-attempt {Q = λ _. J} {E = λ x d s. J d s × IsHonest x} _ _ (
          Triple-fresh_round_trip (λ n d s h. stable n d s h)
            (λ x n d s f h. (stable n d s h, honest n x f))))
        (λ r. after_trip key r bad)

  Triple-scan :
      (id : String) (r : Result Unit)
      → ((x : Error) (d : Db) (s : List Sent) → IsUntaken x → J d s → E x d s)
      → Triple e
          (Ends (λ _. J) (λ x d s. J d s × IsHonest x) r)
          (gets (λ e d. find_payment id d.payments) >>= scan_payment r)
          (λ p d s. J d s × (find_payment id d.payments ≡ some p))
          E
  unfolding scan_payment is_error
  Triple-scan id (ok t) bad =
      Triple-bind {Q = λ o d s. J d s × (find_payment id d.payments ≡ o)} _ _
        (Triple-gets _ (λ d s h. (h, refl)))
        (elim [
          | none ↦ Triple-raise _ (λ d s h. bad (sentinel payment_not_found) d s refl h.0)
          | some p ↦ Triple-pure p (λ d s h. h)
        ])
  Triple-scan id (err x) bad =
      Triple-bind {Q = λ o d s. J d s × IsHonest x} _ _ (Triple-gets _ (λ d s h. h)) λ o.
        Triple-if (is_error x no_rows) _ _
          (λ absent. Triple-raise _ (λ d s h. bad (sentinel payment_not_found) d s refl h.0))
          (λ other.
            Triple-raise _
              (λ d s h. bad (wrap "failed to scan payment" x) d s h.1.not_duplicate h.0))
  Triple-scan id panic bad =
      Triple-bind {Q = λ o d s. ⊥} _ _ (Triple-gets _ (λ d s h. h))
        λ o. Triple-lift panic (λ d s h. h)

  pub Triple-find_by_id :
      (id : String)
      → FaultsAreHonest e
      → IsStable e J
      → ((x : Error) (d : Db) (s : List Sent) → IsUntaken x → J d s → E x d s)
      → Triple e J (find_by_id id) (λ p d s. J d s × (find_payment id d.payments ≡ some p)) E
  unfolding find_by_id
  Triple-find_by_id id honest stable bad =
      Triple-bind _ _
        (Triple-attempt {Q = λ _. J} {E = λ x d s. J d s × IsHonest x} _ _ (
          Triple-fresh_round_trip (λ n d s h. stable n d s h)
            (λ x n d s f h. (stable n d s h, honest n x f))))
        (λ r. Triple-scan id r bad)

  pub Triple-find_by_id_for_update :
      (id : String)
      → FaultsAreHonest e
      → ((x : Error) (d : Db) (s : List Sent) → IsUntaken x → J d s → E x d s)
      → Triple e J
          (find_by_id_for_update id)
          (λ p d s. J d s × (find_payment id d.payments ≡ some p))
          E
  unfolding find_by_id_for_update
  Triple-find_by_id_for_update id honest bad =
      Triple-bind _ _
        (Triple-attempt {Q = λ _. J} {E = λ x d s. J d s × IsHonest x} _ _
          (Triple-round_trip (λ d s h. h) (λ x n d s f h. (h, honest n x f))))
        (λ r. Triple-scan id r bad)
