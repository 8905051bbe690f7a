-- ===== src/Domain/Invariant.antt =====
-- What holds of a payment through every sequence of calls.
use ficmart_payment_gateway.Prelude.{
  ℕ, ◌+◌, ◌≤◌, String, ◌≡◌, refl, ◌⊎◌, Bool, true, false, ◌&&◌, Option, none, some, List, [], ◌∷◌,
  ◌∙◌, arith, is_some, if◌then◌else◌,
}
use ficmart_payment_gateway.Prelude.Integer.{ℤ}
use ficmart_payment_gateway.Domain.{
  Status, pending, captured, failed, refunded, refunding, voided, Payment, Time, created,
  new_payment, is_terminal, same_status,
}
use ficmart_payment_gateway.Domain.Lifecycle.{rank}
use ficmart_payment_gateway.Domain.Methods.{Method, start_capture, call, run}

-- The bank has authorized the payment.
abbrev pub has_authorization : Status → Bool
has_authorization pending = false
has_authorization failed = false
has_authorization _ = true

abbrev pub has_capture : Status → Bool
has_capture captured = true
has_capture refunding = true
has_capture refunded = true
has_capture _ = false

-- The bank's references and times that go with each state.
pub record IsWellFormed (p : Payment) : Type 0 where
  pub auth_known : has_authorization p.status ≡ true → is_some p.bank_auth_id ≡ true
  pub auth_dated : has_authorization p.status ≡ true → is_some p.authorized_at ≡ true
  pub auth_absent : p.status ≡ pending → is_some p.bank_auth_id ≡ false
  pub capture_known : has_capture p.status ≡ true → is_some p.bank_capture_id ≡ true
  pub capture_dated : is_some p.captured_at ≡ is_some p.bank_capture_id
  pub capture_only :
      is_some p.bank_capture_id ≡ true → (has_capture p.status ≡ true) ⊎ (p.status ≡ failed)
  pub void_known : is_some p.bank_void_id ≡ same_status p.status voided
  pub void_dated : is_some p.voided_at ≡ is_some p.bank_void_id
  pub refund_known : is_some p.bank_refund_id ≡ same_status p.status refunded
  pub refund_dated : is_some p.refunded_at ≡ is_some p.bank_refund_id

pub new_payment-IsWellFormed :
    (now : Time) (id order customer : String) (amount : ℤ) (currency : String) {p : Payment}
    → new_payment now id order customer amount currency ≡ created p
    → IsWellFormed p
unfolding new_payment
new_payment-IsWellFormed now id order customer amount currency h = ground arith

-- No method that succeeds or fails breaks the agreement of state, references and times.
pub call-IsWellFormed : (m : Method) (p : Payment) → IsWellFormed p → IsWellFormed (call m p).0
unfolding call
call-IsWellFormed start_capture p h = ground arith
call-IsWellFormed _ p h = ground arith

-- For a well-formed payment, after any sequence of calls of the entity's methods, each succeeding
-- or failing, the state agrees with the bank references and times.
pub run-IsWellFormed : (ms : List Method) (p : Payment) → IsWellFormed p → IsWellFormed (run ms p)
unfolding run
run-IsWellFormed [] p h = h
run-IsWellFormed (m ∷ ms) p h = run-IsWellFormed ms (call m p).0 (call-IsWellFormed m p h)

-- For a well-formed payment and any calls, the payment afterwards does not have both a capture
-- reference and a void reference.
pub capture_excludes_void :
    (ms : List Method) (p : Payment)
    → IsWellFormed p
    → (is_some (run ms p).bank_capture_id && is_some (run ms p).bank_void_id) ≡ false
capture_excludes_void ms p h = let w = run-IsWellFormed ms p h in ground (arith, w)

-- A value that is there stays.
abbrev pub Kept {ℓ} : {A : Type ℓ} → Option A → Option A → Type ℓ
Kept none o = Unit
Kept (some x) o = o ≡ some x

pub Kept-refl {ℓ} : {A : Type ℓ} (o : Option A) → Kept o o
Kept-refl none = tt
Kept-refl (some x) = refl

pub Kept-trans {ℓ} : {A : Type ℓ} (a b c : Option A) → Kept a b → Kept b c → Kept a c
Kept-trans none b c h k = tt
Kept-trans (some x) none c h k = cc
Kept-trans (some x) (some y) c h k = cc

-- What later states of a payment say of an earlier one.
pub record IsContinued (p q : Payment) : Type 0 where
  pub same_id : q.id ≡ p.id
  pub same_order : q.order_id ≡ p.order_id
  pub same_customer : q.customer_id ≡ p.customer_id
  pub same_amount : q.amount_cents ≡ p.amount_cents
  pub same_currency : q.currency ≡ p.currency
  pub same_creation : q.created_at ≡ p.created_at
  pub auth_kept : Kept p.bank_auth_id q.bank_auth_id
  pub capture_kept : Kept p.bank_capture_id q.bank_capture_id
  pub void_kept : Kept p.bank_void_id q.bank_void_id
  pub refund_kept : Kept p.bank_refund_id q.bank_refund_id
  pub rank_grows : rank p.status ≤ rank q.status

call-IsContinued : (m : Method) (p : Payment) → IsWellFormed p → IsContinued p (call m p).0
unfolding call
call-IsContinued start_capture p h = ground arith
call-IsContinued _ p h = ground arith

IsContinued-refl : (p : Payment) → IsContinued p p
IsContinued-refl p = record {
  same_id = refl;
  same_order = refl;
  same_customer = refl;
  same_amount = refl;
  same_currency = refl;
  same_creation = refl;
  auth_kept = Kept-refl p.bank_auth_id;
  capture_kept = Kept-refl p.bank_capture_id;
  void_kept = Kept-refl p.bank_void_id;
  refund_kept = Kept-refl p.bank_refund_id;
  rank_grows = omega arith;
}

IsContinued-trans : {p q r : Payment} → IsContinued p q → IsContinued q r → IsContinued p r
IsContinued-trans {p} {q} {r} h k = record {
  same_id = k.same_id ∙ h.same_id;
  same_order = k.same_order ∙ h.same_order;
  same_customer = k.same_customer ∙ h.same_customer;
  same_amount = k.same_amount ∙ h.same_amount;
  same_currency = k.same_currency ∙ h.same_currency;
  same_creation = k.same_creation ∙ h.same_creation;
  auth_kept = Kept-trans p.bank_auth_id _ _ h.auth_kept k.auth_kept;
  capture_kept = Kept-trans p.bank_capture_id _ _ h.capture_kept k.capture_kept;
  void_kept = Kept-trans p.bank_void_id _ _ h.void_kept k.void_kept;
  refund_kept = Kept-trans p.bank_refund_id _ _ h.refund_kept k.refund_kept;
  rank_grows = omega arith;
}

-- Through any calls a well-formed payment keeps its identity, order, customer, amount, currency
-- and creation time, keeps each bank reference once it is there, and its rank along the diagram
-- never decreases.
pub run-IsContinued : (ms : List Method) (p : Payment) → IsWellFormed p → IsContinued p (run ms p)
unfolding run
run-IsContinued [] p h = IsContinued-refl p
run-IsContinued (m ∷ ms) p h =
    IsContinued-trans (call-IsContinued m p h)
      (run-IsContinued ms (call m p).0 (call-IsWellFormed m p h))

-- How many of the calls have moved the payment to another state.
pub moves : List Method → Payment → ℕ
moves [] p = 0
moves (m ∷ ms) p =
    let q = (call m p).0 in (if same_status p.status q.status then 0 else 1) + moves ms q

move_rank :
    (m : Method) (p : Payment)
    → rank p.status + (if same_status p.status (call m p).0.status then 0 else 1)
      ≤ rank (call m p).0.status
unfolding call
move_rank start_capture p = ground arith
move_rank _ p = ground arith

rank_le_five : (s : Status) → rank s ≤ 5
rank_le_five s = ground arith

moves-rank : (ms : List Method) (p : Payment) → moves ms p + rank p.status ≤ 5
unfolding moves
moves-rank [] p = omega (arith, rank_le_five p.status)
moves-rank (m ∷ ms) p = omega (arith, move_rank m p, moves-rank ms (call m p).0)

-- In any sequence of calls at most five change the status of a payment.
pub moves_bounded : (ms : List Method) (p : Payment) → moves ms p ≤ 5
moves_bounded ms p = omega (arith, moves-rank ms p)

is_terminal_status :
    (p q : Payment) → q.status ≡ p.status → is_terminal p ≡ true → is_terminal q ≡ true
unfolding is_terminal
is_terminal_status p q e h = ground arith

terminal_call : (m : Method) (p : Payment) → is_terminal p ≡ true → (call m p).0.status ≡ p.status
unfolding is_terminal call
terminal_call start_capture p h = ground arith
terminal_call _ p h = ground arith

-- A payment for which IsTerminal is true has the same status after any calls.
pub terminal_absorbs :
    (ms : List Method) (p : Payment) → is_terminal p ≡ true → (run ms p).status ≡ p.status
unfolding run
terminal_absorbs [] p h = refl
terminal_absorbs (m ∷ ms) p h =
    let e = terminal_call m p h in
    terminal_absorbs ms (call m p).0 (is_terminal_status p (call m p).0 e h) ∙ e
