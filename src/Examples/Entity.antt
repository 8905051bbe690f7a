-- ===== src/Examples/Entity.antt =====
-- The payment entity, run.
use ficmart_payment_gateway.Prelude.{
  ◌≤◌, ◌≡◌, ◌≢◌, ◌↔◌, refl, true, false, ◌&&◌, none, some, [], ◌∷◌, is_some, List,
}
use ficmart_payment_gateway.Prelude.Integer.{pos}
use ficmart_payment_gateway.Domain.{Status, voided, capturing, Payment, transition, is_terminal}
use ficmart_payment_gateway.Domain.Lifecycle.{◌⟶◌, transition_iff, is_terminal_iff}
use ficmart_payment_gateway.Domain.Methods.{
  Method, start_capture, start_void, start_refund, give_up, capture_as, refund_as, void_as, run,
}
use ficmart_payment_gateway.Domain.Invariant.{
  IsWellFormed, IsContinued, run-IsWellFormed, run-IsContinued, capture_excludes_void, moves,
  moves_bounded, terminal_absorbs,
}
use ficmart_payment_gateway.Examples.{order_payment, order_payment-IsWellFormed}

abbrev calls : List Method
calls =
    start_capture
    ∷ capture_as "captured" "cap-1" (pos 30)
    ∷ start_void
    ∷ void_as "voided" "void-1" (pos 31)
    ∷ start_refund
    ∷ refund_as "ref-1" (pos 40)
    ∷ give_up
    ∷ []

abbrev voided_payment : Payment
voided_payment = record order_payment { status = voided }

run-IsWellFormed_example : IsWellFormed (run calls order_payment)
run-IsWellFormed_example = run-IsWellFormed calls order_payment order_payment-IsWellFormed

run-IsContinued_example : IsContinued order_payment (run calls order_payment)
run-IsContinued_example = run-IsContinued calls order_payment order_payment-IsWellFormed

capture_excludes_void_example :
    (is_some (run calls order_payment).bank_capture_id
      && is_some (run calls order_payment).bank_void_id)
    ≡ false
capture_excludes_void_example = capture_excludes_void calls order_payment order_payment-IsWellFormed

transition_iff_example :
    ((transition order_payment capturing).1 ≡ none) ↔ (order_payment.status ⟶ capturing)
transition_iff_example = transition_iff order_payment capturing

is_terminal_iff_example :
    (is_terminal voided_payment ≡ true) ↔ ((t : Status) → (transition voided_payment t).1 ≢ none)
is_terminal_iff_example = is_terminal_iff voided_payment

moves_bounded_example : moves calls order_payment ≤ 5
moves_bounded_example = moves_bounded calls order_payment

voided_payment_terminal : is_terminal voided_payment ≡ true
unfolding is_terminal
voided_payment_terminal = refl

terminal_absorbs_example : (run calls voided_payment).status ≡ voided
terminal_absorbs_example = terminal_absorbs calls voided_payment voided_payment_terminal

-- A captured payment refuses the void and accepts the refund.
run_test : (run calls order_payment).bank_refund_id ≡ some "ref-1"
unfolding run ficmart_payment_gateway.Domain.Methods.call
    ficmart_payment_gateway.Prelude.Text.equal_fold
run_test = refl
