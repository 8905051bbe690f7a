-- ===== src/Domain.antt =====
-- internal/domain/payment.go: the payment entity and its state machine. A method that mutates
-- `*Payment` returns the new record beside the error.
pub mod Lifecycle
pub mod Methods
pub mod Invariant
use ficmart_payment_gateway.Prelude.{
  ℕ, ◌+◌, String, Bool, true, false, ◌||◌, Option, none, some, List, [], ◌∷◌, ◌==◌, str_eq,
  if◌then◌else◌,
}
use ficmart_payment_gateway.Prelude.Integer.{ℤ, pos, ltb_ℤ, ◌+ℤ◌}
use ficmart_payment_gateway.Prelude.Text.{equal_fold}
use ficmart_payment_gateway.Failure.{
  Error, plain, sentinel, invalid_transition, payment_expired, invalid_amount,
}

pub data Status : Type 0 where
  pending authorized capturing captured failed refunded refunding voiding voided expired : Status

-- Two status texts are equal when these numbers are.
abbrev pub status_id : Status → ℕ
status_id pending = 0
status_id authorized = 1
status_id capturing = 2
status_id captured = 3
status_id failed = 4
status_id refunded = 5
status_id refunding = 6
status_id voiding = 7
status_id voided = 8
status_id expired = 9

abbrev pub same_status : Status → Status → Bool
same_status s t = status_id s == status_id t

-- Nanoseconds, as a time.Time or a time.Duration.
abbrev pub Time : Type 0
Time = ℤ

-- AttemptCount is an int that starts at 0 and only grows by one.
pub record Payment : Type 0 where
  pub created_at : Time
  pub id : String
  pub order_id : String
  pub customer_id : String
  pub amount_cents : ℤ
  pub currency : String
  pub status : Status
  pub bank_auth_id : Option String
  pub bank_capture_id : Option String
  pub bank_void_id : Option String
  pub bank_refund_id : Option String
  pub authorized_at : Option Time
  pub captured_at : Option Time
  pub voided_at : Option Time
  pub refunded_at : Option Time
  pub expires_at : Option Time
  pub attempt_count : ℕ
  pub next_retry_at : Option Time

pub data NewResult : Type 0 where
  created : Payment → NewResult
  refused : Error → NewResult

-- NewPayment; `now` is what time.Now returns.
unfoldable pub new_payment : Time → String → String → String → ℤ → String → NewResult
new_payment now id order_id customer_id amount currency =
    if str_eq id ""
    then refused (plain "payment ID is required")
    else if ltb_ℤ amount (pos 0)
    then refused (sentinel invalid_amount)
    else if str_eq currency ""
    then refused (plain "invalid currency type")
    else created (record {
      created_at = now;
      id = id;
      order_id = order_id;
      customer_id = customer_id;
      amount_cents = amount;
      currency = currency;
      status = pending;
      bank_auth_id = none;
      bank_capture_id = none;
      bank_void_id = none;
      bank_refund_id = none;
      authorized_at = none;
      captured_at = none;
      voided_at = none;
      refunded_at = none;
      expires_at = none;
      attempt_count = 0;
      next_retry_at = none;
    })

-- slices.Contains
unfoldable pub contains : List Status → Status → Bool
contains [] t = false
contains (s ∷ ss) t = same_status s t || contains ss t

allow : Status → List Status → Option Error
unfolding contains
allow target allowed = if contains allowed target then none else some (sentinel invalid_transition)

unfoldable pub can_transition_to : Status → Status → Option Error
unfolding allow
can_transition_to pending t = allow t (authorized ∷ failed ∷ [])
can_transition_to authorized t = allow t (capturing ∷ voiding ∷ expired ∷ failed ∷ [])
can_transition_to capturing t = allow t (captured ∷ failed ∷ [])
can_transition_to captured t = allow t (refunding ∷ failed ∷ [])
can_transition_to refunding t = allow t (refunded ∷ failed ∷ [])
can_transition_to voiding t = allow t (voided ∷ failed ∷ [])
can_transition_to failed t = some (sentinel invalid_transition)
can_transition_to refunded t = some (sentinel invalid_transition)
can_transition_to voided t = some (sentinel invalid_transition)
can_transition_to expired t = some (sentinel invalid_transition)

-- A method's effect: the record afterwards, and the error.
abbrev pub Changed : Type 0
Changed = Payment × Option Error

unfoldable pub transition : Payment → Status → Changed
unfolding can_transition_to
transition p target = elim (can_transition_to p.status target) [
  | some e ↦ (p, some e)
  | none ↦ (record p { status = target }, none)
]

unfoldable pub mark_capturing : Payment → Changed
unfolding transition
mark_capturing p = transition p capturing

unfoldable pub mark_voiding : Payment → Changed
unfolding transition
mark_voiding p = transition p voiding

unfoldable pub mark_refunding : Payment → Changed
unfolding transition
mark_refunding p = transition p refunding

unfoldable pub fail : Payment → Changed
unfolding transition
fail p = transition p failed

unfoldable pub mark_expired : Payment → Changed
unfolding transition
mark_expired p = transition p expired

-- The assignments that follow a transition that has succeeded.
abbrev after_transition : Changed → (Payment → Payment) → Changed
after_transition (p, some e) f = (p, some e)
after_transition (p, none) f = (f p, none)

unfoldable pub authorize : Payment → String → Time → Time → Changed
unfolding transition
authorize p auth_id at expires = after_transition (transition p authorized) λ q. record q {
  bank_auth_id = some auth_id;
  authorized_at = some at;
  expires_at = some expires;
}

unfoldable pub capture : Payment → String → String → Time → Changed
unfolding transition
capture p status capture_id at =
    if equal_fold status "authorization_expired"
    then (p, some (sentinel payment_expired))
    else after_transition (transition p captured)
        λ q. record q { bank_capture_id = some capture_id; captured_at = some at }

unfoldable pub void : Payment → String → String → Time → Changed
unfolding transition
void p status void_id at =
    if equal_fold status "authorization_expired"
    then (p, some (sentinel payment_expired))
    else after_transition (transition p voided)
        λ q. record q { bank_void_id = some void_id; voided_at = some at }

unfoldable pub refund : Payment → String → Time → Changed
unfolding transition
refund p refund_id at =
    after_transition (transition p refunded)
      λ q. record q { bank_refund_id = some refund_id; refunded_at = some at }

unfoldable pub is_terminal : Payment → Bool
is_terminal p = elim p.status [
  | voided ↦ true
  | refunded ↦ true
  | expired ↦ true
  | failed ↦ true
  | _ ↦ false
]

-- ScheduleRetry; `now` is what time.Now returns.
unfoldable pub schedule_retry : Payment → Time → Time → Payment
schedule_retry p now backoff = record p {
  attempt_count = p.attempt_count + 1;
  next_retry_at = some (now +ℤ backoff);
}
