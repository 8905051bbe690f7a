-- ===== src/Domain/Lifecycle.antt =====
-- The transition diagram of the payment states (internal/domain/payment.go), and `transition`
-- against it.
use ficmart_payment_gateway.Prelude.{ℕ, ◌<◌, ◌≡◌, refl, ◌≢◌, ◌↔◌, true, none, arith}
use ficmart_payment_gateway.Domain.{
  Status, pending, authorized, capturing, captured, failed, refunded, refunding, voiding, voided,
  expired, Payment, can_transition_to, transition, is_terminal,
}

infix 40 ◌⟶◌
pub data ◌⟶◌ : Status → Status → Type 0 where
  authorizes : pending ⟶ authorized
  rejects : pending ⟶ failed
  starts_capture : authorized ⟶ capturing
  starts_void : authorized ⟶ voiding
  lapses : authorized ⟶ expired
  fails_authorized : authorized ⟶ failed
  captures : capturing ⟶ captured
  fails_capture : capturing ⟶ failed
  starts_refund : captured ⟶ refunding
  fails_captured : captured ⟶ failed
  refunds : refunding ⟶ refunded
  fails_refund : refunding ⟶ failed
  voids : voiding ⟶ voided
  fails_void : voiding ⟶ failed

pub ruleset edges = (
  authorizes, rejects, starts_capture, starts_void, lapses, fails_authorized, captures,
  fails_capture, starts_refund, fails_captured, refunds, fails_refund, voids, fails_void,
)

can_transition_to_complete : {s t : Status} → s ⟶ t → can_transition_to s t ≡ none
unfolding can_transition_to
can_transition_to_complete authorizes = refl
can_transition_to_complete rejects = refl
can_transition_to_complete starts_capture = refl
can_transition_to_complete starts_void = refl
can_transition_to_complete lapses = refl
can_transition_to_complete fails_authorized = refl
can_transition_to_complete captures = refl
can_transition_to_complete fails_capture = refl
can_transition_to_complete starts_refund = refl
can_transition_to_complete fails_captured = refl
can_transition_to_complete refunds = refl
can_transition_to_complete fails_refund = refl
can_transition_to_complete voids = refl
can_transition_to_complete fails_void = refl

transition_sound : (p : Payment) (t : Status) → (transition p t).1 ≡ none → p.status ⟶ t
unfolding transition
transition_sound p t h = grind (arith, edges)

transition_complete : (p : Payment) (t : Status) → p.status ⟶ t → (transition p t).1 ≡ none
transition_complete p t e = unfold transition in ground (arith, can_transition_to_complete e)

-- A transition to a state succeeds if and only if the diagram has an arrow from the payment's
-- state to it.
pub transition_iff : (p : Payment) (t : Status) → ((transition p t).1 ≡ none) ↔ (p.status ⟶ t)
transition_iff p t = (transition_sound p t, transition_complete p t)

-- IsTerminal is true if and only if no transition of the payment succeeds.
pub is_terminal_iff :
    (p : Payment) → (is_terminal p ≡ true) ↔ ((t : Status) → (transition p t).1 ≢ none)
unfolding is_terminal transition
is_terminal_iff p = (
  λ h t. ground arith,
  λ h.
      ground
        (arith, h authorized, h capturing, h captured, h refunding, h refunded, h voided, h failed),
)

-- How far a state lies along the diagram.
abbrev pub rank : Status → ℕ
rank pending = 0
rank authorized = 1
rank capturing = 2
rank voiding = 2
rank captured = 3
rank refunding = 4
rank failed = 5
rank refunded = 5
rank voided = 5
rank expired = 5

pub rank_lt : (p : Payment) (t : Status) → (transition p t).1 ≡ none → rank p.status < rank t
unfolding transition
rank_lt p t h = ground arith
