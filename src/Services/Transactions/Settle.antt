-- ===== src/Services/Transactions/Settle.antt =====
-- What the transactions that end an operation ensure (services/helpers.go: HandleBankFailure and
-- FinalizePayment).
use ficmart_payment_gateway.Prelude.{
  String, ◌≡◌, refl, true, subst, Option, none, some, List, All, arith, is_some,
}
use ficmart_payment_gateway.Failure.{Error, new_internal_error}
use ficmart_payment_gateway.Failure.Category.{categorize_error, is_permanent}
use ficmart_payment_gateway.Domain.{Payment, Changed, fail}
use ficmart_payment_gateway.Domain.Invariant.{IsWellFormed}
use ficmart_payment_gateway.Bank.{BankResponse}
use ficmart_payment_gateway.Bank.Retry.{Answer, reply, fault}
use ficmart_payment_gateway.Store.{Db}
use ficmart_payment_gateway.Store.Rows.{update_rows-IsWellFormed}
use ficmart_payment_gateway.Exec.{
  ok, err, panic, Env, Sent, ◌>>=◌, lift, gets, or_fail, from_answer,
}
use ficmart_payment_gateway.Exec.Triple.{
  Pred, Ends, Triple, Triple-bind, Triple-pure, Triple-raise, Triple-if, Triple-lift, Triple-gets,
  Triple-or_fail, Triple-attempt, Triple-round_trip, Triple-fresh_round_trip, Triple-atomically,
  Triple-given,
}
use ficmart_payment_gateway.Exec.Fair.{FaultsAreHonest, RowsStayWellFormed}
use ficmart_payment_gateway.Postgres.Keys.{store_response}
use ficmart_payment_gateway.Postgres.Payments.{update, in_tx}
use ficmart_payment_gateway.Postgres.Ensures.{
  Triple-update, Triple-store_response, Triple-release_lock,
}
use ficmart_payment_gateway.Services.Intent.{Sound, Sound-IsStable}
use ficmart_payment_gateway.Services.Transactions.{
  begin, commit, accepted, record_failure, fail_payment, handle_bank_failure, finalize_payment,
  report, bank_failed, finish,
}

fail_kept : (p : Payment) → IsWellFormed p → IsWellFormed (fail p).0
unfolding fail
fail_kept p h = ground arith

answer_any :
    {A : Type 0} (Q : A → Pred) (E : Error → Pred) (a : Answer A) (d : Db) (s : List Sent)
    → ((v : A) → Q v d s)
    → ((x : Error) → E x d s)
    → Ends Q E (from_answer a) d s
answer_any Q E (reply v) d s f g = f v
answer_any Q E (fault x) d s f g = g x

module _ (e : Env) (honest : FaultsAreHonest e) (stay : RowsStayWellFormed e) where
  settle_begin : Triple e Sound begin (λ _. Sound) (λ _. Sound)
  settle_begin = Triple-or_fail _ _ (
      Triple-fresh_round_trip (λ n d s h. Sound-IsStable e stay n d s h)
        (λ x n d s f h. Sound-IsStable e stay n d s h))

  -- A transaction that writes well-formed rows, with what was there at its beginning.
  abbrev Settling : Db → Pred
  Settling before d s = Sound before s × All IsWellFormed d.payments

  settle_update :
      (p : Payment) (before : Db)
      → IsWellFormed p
      → Triple e
          (λ d s. Sound d s × (d ≡ before))
          (or_fail new_internal_error (update in_tx p))
          (λ _. Settling before)
          (λ _ _ s. Sound before s)
  settle_update p before wf = Triple-or_fail _ _ (
      Triple-update p honest
        (λ d s h. (subst (λ b. Sound b s) h.1 h.0, update_rows-IsWellFormed p d.payments wf h.0.0))
        (λ x d s u h. subst (λ b. Sound b s) h.1 h.0))

  settle_marshal :
      (before : Db) (f : Env → Db → Answer String)
      → Triple e
          (Settling before)
          (or_fail new_internal_error (gets f >>= λ a. lift (from_answer a)))
          (λ _. Settling before)
          (λ _ _ s. Sound before s)
  settle_marshal before f = Triple-or_fail _ _ (
      Triple-bind {Q = λ _. Settling before} _ _ (Triple-gets _ (λ d s h. h))
        λ a. Triple-lift _ (λ d s h. answer_any _ _ a d s (λ v. h) (λ x. h.0)))

  settle_store :
      (before : Db) (key payload : String)
      → Triple e
          (Settling before)
          (or_fail new_internal_error (store_response key payload))
          (λ _. Settling before)
          (λ _ _ s. Sound before s)
  settle_store before key payload =
      Triple-or_fail _ _ (Triple-store_response key payload (λ d s h. h) (λ x d s h. h.0))

  settle_commit :
      (before : Db) → Triple e (Settling before) commit (λ _. Sound) (λ _ _ s. Sound before s)
  settle_commit before =
      Triple-or_fail _ _ (Triple-round_trip (λ d s h. (h.1, h.0.1)) (λ x n d s f h. h.0))

  record_failure-sound :
      (p : Payment) (key : String) (x : Error)
      → IsWellFormed p
      → Triple e Sound (record_failure p key x) (λ _. Sound) (λ _. Sound)
  unfolding record_failure
  record_failure-sound p key x wf = Triple-bind _ _ settle_begin λ _. Triple-atomically _ λ before.
      Triple-bind _ _ (settle_update p before wf) λ _.
        Triple-bind _ _ (settle_marshal before _)
          λ payload. Triple-bind _ _ (settle_store before key payload) λ _. settle_commit before

  pub Triple-finalize_payment :
      (p : Payment) (key : String) (response : BankResponse)
      → IsWellFormed p
      → Triple e Sound (finalize_payment p key response) (λ _. Sound) (λ _. Sound)
  unfolding finalize_payment
  Triple-finalize_payment p key response wf = Triple-bind _ _ settle_begin λ _.
      Triple-atomically _ λ before. Triple-bind _ _ (settle_update p before wf) λ _.
        Triple-bind _ _ (settle_marshal before _) λ payload.
          Triple-bind _ _ (settle_store before key payload) λ _.
            Triple-bind {Q = λ _. Settling before} _ _
              (Triple-or_fail _ _ (Triple-release_lock key (λ d s h. h) (λ x d s h. h.0)))
              λ _. settle_commit before

  -- HandleBankFailure's result: a well-formed payment, and an error that is not nil.
  abbrev pub Failed : Payment × Option Error → Pred
  Failed r d s = Sound d s × IsWellFormed r.0 × (is_some r.1 ≡ true)

  fail_payment-sound :
      (c : Changed) (key : String) (x : Error)
      → IsWellFormed c.0
      → Triple e Sound (fail_payment c key x) Failed (λ _. Sound)
  unfolding fail_payment
  fail_payment-sound (p, some y) key x wf = Triple-pure _ (λ d s h. (h, wf, refl))
  fail_payment-sound (p, none) key x wf =
      Triple-bind _ _ (Triple-attempt _ _ (record_failure-sound p key x wf)) (elim [
        | ok t ↦ Triple-pure _ (λ d s h. (h, wf, refl))
        | err y ↦ Triple-pure _ (λ d s h. (h, wf, refl))
        | panic ↦ Triple-pure _ (λ d s h. absurd h)
      ])

  pub Triple-handle_bank_failure :
      (p : Payment) (key : String) (x : Error)
      → IsWellFormed p
      → Triple e Sound (handle_bank_failure p key x) Failed (λ _. Sound)
  unfolding handle_bank_failure
  Triple-handle_bank_failure p key x wf =
      Triple-if (is_permanent (categorize_error (some x))) _ _
        (λ permanent. fail_payment-sound (fail p) key x (fail_kept p wf))
        (λ other. Triple-pure _ (λ d s h. (h, wf, refl)))

  -- Under FaultsAreHonest and RowsStayWellFormed, for a well-formed payment: HandleBankFailure,
  -- returned by a service, is always an error, and the tables and calls stay in order, whichever
  -- category the bank's error has.
  pub Triple-bank_failed :
      (p : Payment) (key : String) (x : Error)
      → IsWellFormed p
      → Triple e Sound (bank_failed p key x) (λ q d s. ⊥) (λ _. Sound)
  unfolding bank_failed
  Triple-bank_failed p key x wf = Triple-bind _ _ (Triple-handle_bank_failure p key x wf) reported
    where
      reported :
          (r : Payment × Option Error) → Triple e (Failed r) (report r) (λ q d s. ⊥) (λ _. Sound)
      reported (q, none) = Triple-pure q (λ d s h. let wrong = h.2 in cc)
      reported (q, some y) = Triple-raise y (λ d s h. h.0)

  -- A service returns the payment as the domain method has left it.
  pub Triple-finish :
      (c : Changed) (key : String) (response : BankResponse)
      → IsWellFormed c.0
      → Triple e Sound
          (finish c key response)
          (λ q d s. Sound d s × IsWellFormed q × (c ≡ (q, none)))
          (λ _. Sound)
  unfolding finish
  Triple-finish c key response wf =
      Triple-bind {Q = λ q d s. Sound d s × (IsWellFormed q × (c ≡ (q, none)))} _ _
        (Triple-lift _ (λ d s h. taken c wf d s h))
        (λ q. Triple-given λ known.
          Triple-bind _ _ (Triple-finalize_payment q key response known.0)
            λ _. Triple-pure q (λ d s h. (h, known.0, known.1)))
    where
      taken :
          (c : Changed)
          → IsWellFormed c.0
          → (d : Db) (s : List Sent) → Sound d s
          → Ends
              (λ q d s. Sound d s × (IsWellFormed q × (c ≡ (q, none))))
              (λ _. Sound)
              (accepted c)
              d
              s
      taken (q, none) wf d s h = (h, (wf, refl))
      taken (q, some x) wf d s h = h
