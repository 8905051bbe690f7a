-- ===== src/Handlers/Replies.antt =====
-- internal/handlers: the handlers of authorize.go, capture.go, void.go, refund.go and query.go. A
-- response object of the generated API is its HTTP status with its body.
use ficmart_payment_gateway.Prelude.{ℕ, String, List, ◌==◌, if◌then◌else◌}
use ficmart_payment_gateway.Prelude.Integer.{ℤ}
use ficmart_payment_gateway.Failure.{Error}
use ficmart_payment_gateway.Domain.{Payment}
use ficmart_payment_gateway.Command.{AuthorizeCommand}
use ficmart_payment_gateway.Bank.Retry.{Answer, reply, fault}
use ficmart_payment_gateway.Exec.{Result, ok, err, panic, Exec, ◌>>=◌, pure, attempt, lift}
use ficmart_payment_gateway.Postgres.Payments.{find_by_id, find_by_order_id, find_by_customer_id}
use ficmart_payment_gateway.Services.Authorize.{authorize}
use ficmart_payment_gateway.Services.Capture.{capture}
use ficmart_payment_gateway.Services.Void.{void}
use ficmart_payment_gateway.Services.Refund.{refund}
use ficmart_payment_gateway.Handlers.{
  ApiPayment, ErrorResponse, build_error_response, to_api_payment, to_api_payments,
}

pub data Body : Type 0 where
  payment : ApiPayment → Body
  payments : List ApiPayment → Body
  failure : ErrorResponse → Body

pub record Response : Type 0 where
  pub status : ℕ
  pub body : Body

pub record AuthorizeRequest : Type 0 where
  pub amount : ℤ
  pub card_number : String
  pub customer_id : String
  pub cvv : String
  pub expiry_month : ℤ
  pub expiry_year : ℤ
  pub order_id : String

-- The `switch` of mapAuthServiceErrorToAPIResponse.
abbrev pub auth_status : ℕ → ℕ
auth_status s = if s == 400 then 400 else if s == 408 then 408 else if s == 409 then 409 else 500

-- The `switch` that capture, void and refund share.
abbrev pub change_status : ℕ → ℕ
change_status s =
    if s == 400
    then 400
    else if s == 404
    then 404
    else if s == 408
    then 408
    else if s == 409
    then 409
    else 500

-- The `switch` that the three queries share.
abbrev pub query_status : ℕ → ℕ
query_status s = if s == 404 then 404 else 500

abbrev pub command_of : AuthorizeRequest → AuthorizeCommand
command_of req = record {
  order_id = req.order_id;
  customer_id = req.customer_id;
  amount = req.amount;
  currency = "USD";
  card_number = req.card_number;
  cvv = req.cvv;
  expiry_month = req.expiry_month;
  expiry_year = req.expiry_year;
}

module _ (parse_uuid : String → Answer String) (text : Error → String)
    (to_upper : String → String) where
  -- map…ErrorToAPIResponse, with the switch of the handler.
  unfoldable pub map_error : (ℕ → ℕ) → Error → Response
  unfolding build_error_response
  map_error choose x =
      let (status, response) = build_error_response text to_upper x in
      record { status = choose status; body = failure response }

  -- The answer for what has been converted.
  abbrev pub converted : {A : Type 0} → (ℕ → ℕ) → ℕ → (A → Body) → Answer A → Response
  converted choose status body (reply a) = record { status = status; body = body a }
  converted choose status body (fault x) = map_error choose x

  unfoldable pub after_payment : (ℕ → ℕ) → ℕ → Result Payment → Exec Response
  unfolding to_api_payment map_error
  after_payment choose status (ok p) =
      pure (converted choose status payment (to_api_payment parse_uuid p))
  after_payment choose status (err x) = pure (map_error choose x)
  after_payment choose status panic = lift panic

  unfoldable pub after_payments : (ℕ → ℕ) → ℕ → Result (List Payment) → Exec Response
  unfolding to_api_payments map_error
  after_payments choose status (ok ps) =
      pure (converted choose status payments (to_api_payments parse_uuid ps))
  after_payments choose status (err x) = pure (map_error choose x)
  after_payments choose status panic = lift panic

  unfoldable pub authorize_payment : AuthorizeRequest → String → Exec Response
  unfolding after_payment authorize
  authorize_payment req key =
      attempt (authorize (command_of req) key) >>= after_payment auth_status 201

  unfoldable pub capture_payment : String → String → Exec Response
  unfolding after_payment capture
  capture_payment payment_id key =
      attempt (capture payment_id key) >>= after_payment change_status 200

  unfoldable pub void_payment : String → String → Exec Response
  unfolding after_payment void
  void_payment payment_id key = attempt (void payment_id key) >>= after_payment change_status 200

  unfoldable pub refund_payment : String → String → Exec Response
  unfolding after_payment refund
  refund_payment payment_id key =
      attempt (refund payment_id key) >>= after_payment change_status 200

  unfoldable pub get_payment_by_id : String → Exec Response
  unfolding after_payment find_by_id
  get_payment_by_id payment_id = attempt (find_by_id payment_id) >>= after_payment query_status 200

  unfoldable pub get_payment_by_order : String → Exec Response
  unfolding after_payment find_by_order_id
  get_payment_by_order order_id =
      attempt (find_by_order_id order_id) >>= after_payment query_status 200

  unfoldable pub get_payments_by_customer : String → ℤ → ℤ → Exec Response
  unfolding after_payments find_by_customer_id
  get_payments_by_customer customer_id limit offset =
      attempt (find_by_customer_id customer_id limit offset) >>= after_payments query_status 200
