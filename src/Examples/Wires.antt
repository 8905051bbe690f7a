-- ===== src/Examples/Wires.antt =====
-- The bank's client over a network, run.
use ficmart_payment_gateway.Prelude.{ℕ, String, ◌≡◌, refl, false, none, some, [], ◌∷◌, arith}
use ficmart_payment_gateway.Prelude.Integer.{pos}
use ficmart_payment_gateway.Failure.{plain}
use ficmart_payment_gateway.Bank.{CaptureRequest, CaptureResponse, capture_call}
use ficmart_payment_gateway.Bank.Retry.{reply, fault, RetryBankClient}
use ficmart_payment_gateway.Bank.Client.{
  answered, Network, Json, HttpBankClient, Chances, gateway_client, deliver,
}
use ficmart_payment_gateway.Bank.Client.Stack.{
  IsDown, Prints, FailsForNow, Understands, deliver-FailsForNow, gateway_capture_roundtrip,
}
use ficmart_payment_gateway.Prelude.Text.{equal_fold}
use ficmart_payment_gateway.Domain.{Payment}
use ficmart_payment_gateway.Store.{find_key, find_payment}
use ficmart_payment_gateway.Exec.{Env}
use ficmart_payment_gateway.Exec.Triple.{Pred, Ends}
use ficmart_payment_gateway.Services.Capture.{capture, capture_request}
use ficmart_payment_gateway.Services.Quiet.{IsQuiet, Never}
use ficmart_payment_gateway.Services.Quiet.Moving.{Before, Stage}
use ficmart_payment_gateway.Services.Quiet.Entity.{captured_as}
use ficmart_payment_gateway.Services.Quiet.Network.{capture_over_http}
use ficmart_payment_gateway.Examples.{calm, order_payment, start}

abbrev bank_at : HttpBankClient
bank_at = record { base_url = "http://localhost:8787"; timeout = pos 30000000000 }

abbrev tries : RetryBankClient
tries = record { base_delay = pos 1000000000; max_retries = pos 3 }

abbrev small_request : CaptureRequest
small_request = record { amount = pos 5000; authorization_id = "auth-1" }

abbrev small_response : CaptureResponse
small_response = record {
  amount = pos 5000;
  currency = "USD";
  authorization_id = "auth-1";
  capture_id = "cap-1";
  status = "captured";
  captured_at = pos 30;
}

abbrev codec : Json
codec = record {
  authorization_request = λ r. reply "authorization";
  authorization_response = λ t. fault (plain "no json");
  capture_request = λ r. reply "capture";
  capture_response = λ t. reply small_response;
  void_request = λ r. reply "void";
  void_response = λ t. fault (plain "no json");
  refund_request = λ r. reply "refund";
  refund_response = λ t. fault (plain "no json");
}

abbrev chances : Chances
chances = record { cancelled = λ n k. none; draw = λ n k. 7 }

-- A network on which every request is answered like this.
abbrev wired : ℕ → String → Network
wired code body = record {
  new_request = λ method url. none;
  exchange = λ q. answered code (reply body);
  unmarshal_error = λ text. fault (plain "no json");
  text = λ x. "error";
}

abbrev serve_small : String → CaptureRequest → CaptureResponse
serve_small key req = small_response

understood_small : Understands (wired 200 "captured") codec serve_small small_request "k2"
understood_small = record {
  accepted = λ method url. refl;
  parse = λ body. small_request;
  print = λ response. "captured";
  text = "capture";
  printed = refl;
  parsed = refl;
  read = refl;
  answers = λ q named. refl;
}

gateway_capture_roundtrip_example :
    (gateway_client bank_at tries codec chances (λ k n. wired 200 "captured")).capture 4
      small_request "k2"
    ≡ reply small_response
gateway_capture_roundtrip_example =
    gateway_capture_roundtrip bank_at tries codec chances (λ k n. wired 200 "captured") serve_small
      4 small_request "k2" (omega arith) refl refl understood_small

wires-IsDown : IsDown (wired 503 "maintenance")
wires-IsDown = record {
  accepted = λ method url. refl;
  status = λ q. 503;
  body = λ q. reply "maintenance";
  answers = λ q. refl;
  server_error = λ q. omega arith;
}

printing : Prints codec
printing = record {
  authorization = λ r. ("authorization", refl);
  capture = λ r. ("capture", refl);
  void = λ r. ("void", refl);
  refund = λ r. ("refund", refl);
}

deliver-FailsForNow_example : FailsForNow (
    deliver
      (gateway_client bank_at tries codec chances (λ k n. wired 503 "maintenance"))
      4
      (capture_call small_request "k2"))
deliver-FailsForNow_example =
    deliver-FailsForNow bank_at tries codec chances (λ k n. wired 503 "maintenance") 2 4
      (capture_call small_request "k2") refl (λ k. refl) (λ k. wires-IsDown) printing

-- The small world with this client of the bank.
abbrev over_http : Env
over_http = record calm {
  bank = gateway_client bank_at tries codec chances (λ k n. wired 200 "captured");
}

over_http-IsQuiet : IsQuiet over_http
over_http-IsQuiet = record { no_fault = λ n. refl; alone = λ n d. refl }

order_payment-Before : Before "p1" "k2" order_payment [] start.db start.sent
unfolding find_key find_payment
order_payment-Before = record { found = refl; calls = refl; absent = refl }

small_unexpired : equal_fold small_response.status "authorization_expired" ≡ false
unfolding equal_fold
small_unexpired = refl

abbrev CapturedOver : Payment → Pred
CapturedOver q d s =
    Stage "p1" "k2" "hash" (captured_as order_payment small_response)
      (capture_call (capture_request order_payment "auth-1") "k2" ∷ []) false (some "{}") d s
    × (q ≡ captured_as order_payment small_response)

capture_over_http_example :
    let (r, w) = capture "p1" "k2" over_http start in Ends CapturedOver Never r w.db w.sent
capture_over_http_example =
    (capture_over_http over_http-IsQuiet bank_at tries codec chances (λ k n. wired 200 "captured")
        refl serve_small "p1" "k2" order_payment [] "auth-1" "{}" refl refl refl refl (omega arith)
        (λ n. refl) (λ n. understood_small) small_unexpired refl).at
      start order_payment-Before
