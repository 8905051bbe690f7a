-- ===== src/Services/Quiet/Network.antt =====
-- Capture with the client of the bank that main.go builds, down to the HTTP exchange.
use ficmart_payment_gateway.Prelude.{
  ℕ, String, ◌≡◌, ap, ◌∙◌, false, none, some, List, ◌∷◌, ◌<◌, str_eq, zero,
}
use ficmart_payment_gateway.Prelude.Integer.{pos_part}
use ficmart_payment_gateway.Prelude.Text.{equal_fold}
use ficmart_payment_gateway.Domain.{Payment, authorized}
use ficmart_payment_gateway.Bank
use ficmart_payment_gateway.Bank.{BankCall, CaptureRequest, CaptureResponse}
use ficmart_payment_gateway.Bank.Retry.{RetryBankClient, reply}
use ficmart_payment_gateway.Bank.Client.{HttpBankClient, Json, Chances, Network, gateway_client}
use ficmart_payment_gateway.Bank.Client.Stack.{Understands, gateway_capture_roundtrip}
use ficmart_payment_gateway.Exec.{Env}
use ficmart_payment_gateway.Exec.Triple.{Triple}
use ficmart_payment_gateway.Services.Capture.{capture, capture_request}
use ficmart_payment_gateway.Services.Quiet.{IsQuiet, Never}
use ficmart_payment_gateway.Services.Quiet.Moving.{Before, Stage}
use ficmart_payment_gateway.Services.Quiet.Entity.{captured_as}
use ficmart_payment_gateway.Services.Quiet.Completing.{capture_completes}

module _ {e : Env} (quiet : IsQuiet e) (c : HttpBankClient) (r : RetryBankClient) (json : Json)
    (ch : Chances) (net : ℕ → ℕ → Network) (wired : e.bank ≡ gateway_client c r json ch net)
    (serve : String → CaptureRequest → CaptureResponse) where
  -- Where no statement fails and nobody else commits, with the client of the bank that main
  -- builds: if an authorized payment with a bank reference is stored, the key is new and not
  -- empty, at least one attempt is made, the context is not done, the first exchange of any call
  -- is with a bank that reads the request back from its text and answers 200 with a body that the
  -- client reads back, the bank's response is not authorization_expired and can be printed, then
  -- Capture returns the payment captured as the bank answered, without an error; it is stored so,
  -- one call has been sent, and the key is in the table unlocked with the stored response.
  pub capture_over_http :
      (id key : String) (p : Payment) (cs : List BankCall) (reference payload : String)
      → p.status ≡ authorized
      → p.id ≡ id
      → p.bank_auth_id ≡ some reference
      → str_eq key "" ≡ false
      → zero < pos_part r.max_retries
      → ((n : ℕ) → ch.cancelled n 0 ≡ none)
      → ((n : ℕ) → Understands (net 0 n) json serve (capture_request p reference) key)
      → equal_fold (serve key (capture_request p reference)).status "authorization_expired" ≡ false
      → e.marshal_response (Bank.capture (serve key (capture_request p reference))) ≡ reply payload
      → Triple e
          (Before id key p cs)
          (capture id key)
          (λ q d s.
            Stage id key
              (e.sha256_hex id)
              (captured_as p (serve key (capture_request p reference)))
              (Bank.capture_call (capture_request p reference) key ∷ cs)
              false
              (some payload)
              d
              s
            × (q ≡ captured_as p (serve key (capture_request p reference))))
          Never
  capture_over_http id key p cs reference payload ready same referenced named tries alive understood
        unexpired text =
      capture_completes quiet id key p cs reference payload
        (serve key (capture_request p reference)) ready same referenced unexpired
        (λ n.
          ap (λ b. b.capture n (capture_request p reference) key) wired
          ∙ gateway_capture_roundtrip c r json ch net serve n (capture_request p reference) key
              tries (alive n) named (understood n))
        text
