-- ===== src/Examples/Answering.antt =====
-- The handlers, run.
use ficmart_payment_gateway.Prelude.{String}
use ficmart_payment_gateway.Prelude.Integer.{pos}
use ficmart_payment_gateway.Failure.{Error}
use ficmart_payment_gateway.Bank.Retry.{Answer, reply}
use ficmart_payment_gateway.Exec.{Exec}
use ficmart_payment_gateway.Exec.Triple.{Ends}
use ficmart_payment_gateway.Handlers.Replies.{
  Response, AuthorizeRequest, authorize_payment, capture_payment, void_payment, refund_payment,
}
use ficmart_payment_gateway.Handlers.Ensures.{
  Answered, auth_failures, change_failures, authorize_payment-Answered, change_payment-Answered,
}
use ficmart_payment_gateway.Examples.{calm, calm_honest, calm_keys, calm_rows, start, start-Sound}

abbrev parse : String → Answer String
parse s = reply s

abbrev show : Error → String
show x = "error"

abbrev upper : String → String
upper s = s

abbrev order_request : AuthorizeRequest
order_request = record {
  amount = pos 700;
  card_number = "4111111111111111";
  customer_id = "customer-1";
  cvv = "123";
  expiry_month = pos 12;
  expiry_year = pos 2030;
  order_id = "order-2";
}

authorize_payment-Answered_example :
    Ends
      (Answered 201 auth_failures)
      (λ x d s. ⊥)
      (authorize_payment parse show upper order_request "k2" calm start).0
      (authorize_payment parse show upper order_request "k2" calm start).1.db
      (authorize_payment parse show upper order_request "k2" calm start).1.sent
authorize_payment-Answered_example =
    (authorize_payment-Answered parse show upper calm calm_honest calm_rows calm_keys order_request
        "k2").at
      start start-Sound

-- The handler's answer when it is run from the small world.
abbrev IsAnswered : Exec Response → Type 0
IsAnswered m =
    Ends (Answered 200 change_failures) (λ x d s. ⊥) (m calm start).0 (m calm start).1.db
      (m calm start).1.sent

change_payment-Answered_example :
    IsAnswered (capture_payment parse show upper "p1" "k2")
    × IsAnswered (void_payment parse show upper "p1" "k2")
    × IsAnswered (refund_payment parse show upper "p1" "k2")
change_payment-Answered_example = (
  (change_payment-Answered parse show upper calm calm_honest calm_rows calm_keys "p1" "k2").0.at
      start start-Sound,
  (change_payment-Answered parse show upper calm calm_honest calm_rows calm_keys "p1" "k2").1.at
      start start-Sound,
  (change_payment-Answered parse show upper calm calm_honest calm_rows calm_keys "p1" "k2").2.at
      start start-Sound,
)
