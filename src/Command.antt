-- ===== src/Command.antt =====
-- AuthorizeCommand of internal/application/services/authorize.go.
use ficmart_payment_gateway.Prelude.{String}
use ficmart_payment_gateway.Prelude.Integer.{ℤ}

pub record AuthorizeCommand : Type 0 where
  pub order_id : String
  pub customer_id : String
  pub amount : ℤ
  pub currency : String
  pub card_number : String
  pub cvv : String
  pub expiry_month : ℤ
  pub expiry_year : ℤ
