-- ===== src/Examples.antt =====
-- A small world in which the theorems are run: one authorized payment of an order, the key of its
-- authorization, a bank that accepts every call, and no other requests.
mod Answering
mod Chain
mod Entity
mod Failing
mod Historic
mod Meddling
mod Retrying
mod Serving
mod Wires
mod Working
use ficmart_payment_gateway.Prelude.{false, none, some, List, [], ◌∷◌, arith}
use ficmart_payment_gateway.Prelude.Integer.{pos}
use ficmart_payment_gateway.Domain.{Payment, Status, authorized, captured}
use ficmart_payment_gateway.Domain.Invariant.{IsWellFormed}
use ficmart_payment_gateway.Bank.{AuthorizationResponse}
use ficmart_payment_gateway.Bank.Retry.{reply}
use ficmart_payment_gateway.Command.{AuthorizeCommand}
use ficmart_payment_gateway.Store.{IdempotencyKey, Db}
use ficmart_payment_gateway.Exec.{BankClient, Env, World}
use ficmart_payment_gateway.Exec.Fair.{KeysStay, RowsStayWellFormed, FaultsAreHonest}
use ficmart_payment_gateway.Services.Intent.{Sound}

abbrev pub order_payment : Payment
order_payment = record {
  created_at = pos 1;
  id = "p1";
  order_id = "order-1";
  customer_id = "customer-1";
  amount_cents = pos 5000;
  currency = "USD";
  status = authorized;
  bank_auth_id = some "auth-1";
  bank_capture_id = none;
  bank_void_id = none;
  bank_refund_id = none;
  authorized_at = some (pos 2);
  captured_at = none;
  voided_at = none;
  refunded_at = none;
  expires_at = some (pos 900);
  attempt_count = 0;
  next_retry_at = none;
}

abbrev pub authorization_key : IdempotencyKey
authorization_key = record {
  key = "k1";
  payment_id = "p1";
  request_hash = "hash";
  locked_at = none;
  response_payload = some "{}";
}

abbrev pub order_tables : Db
order_tables = record { payments = order_payment ∷ []; keys = authorization_key ∷ [] }

abbrev pub start : World
start = record { db = order_tables; step = 0; sent = [] }

abbrev order_authorization : AuthorizationResponse
order_authorization = record {
  amount = pos 5000;
  currency = "USD";
  status = "approved";
  authorization_id = "auth-2";
  created_at = pos 20;
  expires_at = pos 920;
}

abbrev generous_bank : BankClient
generous_bank = record {
  authorize = λ n req key. reply order_authorization;
  capture = λ n req key. reply (record {
    amount = req.amount;
    currency = "USD";
    authorization_id = req.authorization_id;
    capture_id = "cap-1";
    status = "captured";
    captured_at = pos 30;
  });
  void = λ n req key. reply (record {
    authorization_id = req.authorization_id;
    status = "voided";
    void_id = "void-1";
    voided_at = pos 30;
  });
  refund = λ n req key. reply (record {
    amount = req.amount;
    currency = "USD";
    status = "refunded";
    capture_id = req.capture_id;
    refund_id = "ref-1";
    refunded_at = pos 40;
  });
  get_authorization = λ n id. reply order_authorization;
}

abbrev pub calm : Env
calm = record {
  now = λ n. pos 10;
  fault = λ n. none;
  others = λ n d. d;
  new_uuid = λ n. "p2";
  is_done = λ n. false;
  ticks = 3;
  bank = generous_bank;
  format_command = λ cmd. cmd.order_id;
  sha256_hex = λ text. "hash";
  marshal_error = λ x. reply "{}";
  marshal_response = λ r. reply "{}";
}

abbrev pub order_command : AuthorizeCommand
order_command = record {
  order_id = "order-2";
  customer_id = "customer-1";
  amount = pos 700;
  currency = "USD";
  card_number = "4111111111111111";
  cvv = "123";
  expiry_month = pos 12;
  expiry_year = pos 2030;
}

pub calm_honest : FaultsAreHonest calm
calm_honest n x h = cc

pub calm_rows : RowsStayWellFormed calm
calm_rows n d h = h

pub calm_keys : KeysStay calm
calm_keys n k d h = h

pub order_payment-IsWellFormed : IsWellFormed order_payment
order_payment-IsWellFormed = ground arith

pub start-Sound : Sound start.db start.sent
start-Sound = ((order_payment-IsWellFormed, tt), tt)

-- A payment that has been captured, which may be refunded.
abbrev pub captured_payment : Payment
captured_payment = record order_payment {
  status = captured;
  bank_capture_id = some "cap-1";
  captured_at = some (pos 3);
}

abbrev pub captured_start : World
captured_start = record start { db = record start.db { payments = captured_payment ∷ [] } }

captured_payment-IsWellFormed : IsWellFormed captured_payment
captured_payment-IsWellFormed = ground arith

pub captured_start-Sound : Sound captured_start.db captured_start.sent
captured_start-Sound = ((captured_payment-IsWellFormed, tt), tt)
