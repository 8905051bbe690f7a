-- ===== src/Bank.antt =====
-- internal/infrastructure/bank/dtos.go, and the calls of the BankClient interface in client.go.
pub mod Retry
pub mod Client
use ficmart_payment_gateway.Prelude.{ℕ, String, Bool, true, false, Option, none, some}
use ficmart_payment_gateway.Prelude.Integer.{ℤ}
use ficmart_payment_gateway.Domain.{Time}

pub record AuthorizationRequest : Type 0 where
  pub amount : ℤ
  pub card_number : String
  pub cvv : String
  pub expiry_month : ℤ
  pub expiry_year : ℤ

pub record AuthorizationResponse : Type 0 where
  pub amount : ℤ
  pub currency : String
  pub status : String
  pub authorization_id : String
  pub created_at : Time
  pub expires_at : Time

pub record CaptureRequest : Type 0 where
  pub amount : ℤ
  pub authorization_id : String

pub record CaptureResponse : Type 0 where
  pub amount : ℤ
  pub currency : String
  pub authorization_id : String
  pub capture_id : String
  pub status : String
  pub captured_at : Time

pub record VoidRequest : Type 0 where
  pub authorization_id : String

pub record VoidResponse : Type 0 where
  pub authorization_id : String
  pub status : String
  pub void_id : String
  pub voided_at : Time

pub record RefundRequest : Type 0 where
  pub amount : ℤ
  pub capture_id : String

pub record RefundResponse : Type 0 where
  pub amount : ℤ
  pub currency : String
  pub status : String
  pub capture_id : String
  pub refund_id : String
  pub refunded_at : Time

-- A call of the interface, with the idempotency key that goes with it.
pub data BankCall : Type 0 where
  authorize_call : AuthorizationRequest → String → BankCall
  capture_call : CaptureRequest → String → BankCall
  void_call : VoidRequest → String → BankCall
  refund_call : RefundRequest → String → BankCall
  status_call : String → BankCall

-- What the interface returns beside a nil error.
pub data BankResponse : Type 0 where
  authorization : AuthorizationResponse → BankResponse
  capture : CaptureResponse → BankResponse
  void : VoidResponse → BankResponse
  refund : RefundResponse → BankResponse
