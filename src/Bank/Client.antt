-- ===== src/Bank/Client.antt =====
-- internal/infrastructure/bank/client.go: the client that speaks HTTP, the client that repeats its
-- calls around it (the five methods of retry.go), and how main.go puts the two together.
--
-- The network and encoding/json are parameters: what a request is answered at each attempt of each
-- call, how a request is printed and how a body is read.
pub mod Stack
use ficmart_payment_gateway.Prelude.{
  ℕ, String, str_append, Bool, Option, none, some, ◌==◌, str_eq, if◌then◌else◌,
}
use ficmart_payment_gateway.Failure.{Error, BankError, bank_error, wrap}
use ficmart_payment_gateway.Domain.{Time}
use ficmart_payment_gateway.Bank.{
  AuthorizationRequest, AuthorizationResponse, CaptureRequest, CaptureResponse, VoidRequest,
  VoidResponse, RefundRequest, RefundResponse, BankCall, BankResponse, authorize_call, capture_call,
  void_call, refund_call, status_call, authorization,
}
use ficmart_payment_gateway.Bank
use ficmart_payment_gateway.Bank.Retry.{Answer, reply, fault, RetryBankClient, Outside, retry}
use ficmart_payment_gateway.Exec.{BankClient}

pub record HttpRequest : Type 0 where
  pub method : String
  pub url : String
  pub body : Option String
  pub content_type : Option String
  pub idempotency_key : Option String

-- What http.Client.Do returns: an error, or a status with what reading the body gives.
pub data Exchange : Type 0 where
  failed : Error → Exchange
  answered : ℕ → Answer String → Exchange

pub record BankErrorResponse : Type 0 where
  pub err : String
  pub message : String

-- The standard library as the client uses it: http.NewRequestWithContext's error, Do, the reading
-- of an error's body, and an error's text.
pub record Network : Type 0 where
  pub new_request : String → String → Option Error
  pub exchange : HttpRequest → Exchange
  pub unmarshal_error : String → Answer BankErrorResponse
  pub text : Error → String

-- Printing and reading the types of the interface.
pub record Json : Type 0 where
  pub authorization_request : AuthorizationRequest → Answer String
  pub authorization_response : String → Answer AuthorizationResponse
  pub capture_request : CaptureRequest → Answer String
  pub capture_response : String → Answer CaptureResponse
  pub void_request : VoidRequest → Answer String
  pub void_response : String → Answer VoidResponse
  pub refund_request : RefundRequest → Answer String
  pub refund_response : String → Answer RefundResponse

-- The BankError of a response whose status is not 200, from its body.
unfoldable pub error_of_body : Network → ℕ → Answer String → BankError
error_of_body net status (fault x) = record {
  code = "READ_ERROR";
  message = str_append "failed to read response body: " (net.text x);
  status_code = status;
}
error_of_body net status (reply body) = elim (net.unmarshal_error body) [
  | fault x ↦ record { code = "UNKNOWN"; message = body; status_code = status }
  | reply e ↦ record { code = e.err; message = e.message; status_code = status }
]

abbrev pub decoded : {Resp : Type 0} → Answer Resp → Answer Resp
decoded (reply r) = reply r
decoded (fault x) = fault (wrap "error decoding json response" x)

-- Reading a body that breaks off fails in the decoder.
abbrev pub decode_body : {Resp : Type 0} → (String → Answer Resp) → Answer String → Answer Resp
decode_body decode (reply body) = decoded (decode body)
decode_body decode (fault x) = fault (wrap "error decoding json response" x)

module _ {Resp : Type 0} (net : Network) (decode : String → Answer Resp) where
  -- From Do's result on.
  unfoldable pub after_exchange : Exchange → Answer Resp
  unfolding error_of_body
  after_exchange (failed x) = fault (wrap "error making request" x)
  after_exchange (answered status body) =
      if status == 200
      then decode_body decode body
      else fault (bank_error (error_of_body net status body))

  abbrev pub key_header : String → Option String
  key_header key = if str_eq key "" then none else some key

  abbrev pub type_header : Option String → Option String
  type_header none = none
  type_header (some _) = some "application/json"

  -- From the body's text on; `none` is no body.
  unfoldable pub send_body : String → String → Option String → String → Answer Resp
  unfolding after_exchange
  send_body method url body key = elim (net.new_request method url) [
    | some x ↦ fault (wrap "error creating request" x)
    | none ↦ after_exchange (
        net.exchange (record {
          method = method;
          url = url;
          body = body;
          content_type = type_header body;
          idempotency_key = key_header key;
        }))
  ]

  -- sendRequest with a body, from json.Marshal's result, and without one.
  unfoldable pub send_request : String → String → Answer String → String → Answer Resp
  unfolding send_body
  send_request method url (fault x) key = fault (wrap "error marshalling json" x)
  send_request method url (reply body) key = send_body method url (some body) key

pub record HttpBankClient : Type 0 where
  pub base_url : String
  pub timeout : Time

-- NewBankClient, from the fields BankBaseURL and BankConnTimeout of the configuration.
unfoldable pub new_bank_client : String → Time → HttpBankClient
new_bank_client bank_base_url bank_conn_timeout = record {
  base_url = bank_base_url;
  timeout = bank_conn_timeout;
}

-- The methods of HTTPBankClient; `net n` is the network when the n-th step is made.
unfoldable pub http_client : HttpBankClient → Json → (ℕ → Network) → BankClient
unfolding send_request send_body
http_client c json net = record {
  authorize = λ n req key.
      send_request (net n) json.authorization_response "POST"
        (str_append c.base_url "/api/v1/authorizations") (json.authorization_request req) key;
  capture = λ n req key.
      send_request (net n) json.capture_response "POST" (str_append c.base_url "/api/v1/captures")
        (json.capture_request req) key;
  void = λ n req key.
      send_request (net n) json.void_response "POST" (str_append c.base_url "/api/v1/voids")
        (json.void_request req) key;
  refund = λ n req key.
      send_request (net n) json.refund_response "POST" (str_append c.base_url "/api/v1/refunds")
        (json.refund_request req) key;
  get_authorization = λ n id.
      send_body (net n) json.authorization_response "GET"
        (str_append c.base_url (str_append "/api/v1/authorizations/" id)) none "";
}

-- What the loop of `retry` meets beside the operation, for the call at a step.
pub record Chances : Type 0 where
  pub cancelled : ℕ → ℕ → Option Error
  pub draw : ℕ → ℕ → ℕ

abbrev pub attempts : {T : Type 0} → Chances → ℕ → (ℕ → Answer T) → Outside T
attempts ch n operation = record {
  cancelled = ch.cancelled n;
  operation = operation;
  draw = ch.draw n;
}

-- The five methods of RetryBankClient; `inner k` is the inner client at the k-th attempt.
unfoldable pub retry_client : RetryBankClient → Chances → (ℕ → BankClient) → BankClient
unfolding retry
retry_client r ch inner = record {
  authorize = λ n req key. (retry r (attempts ch n (λ k. (inner k).authorize n req key))).answer;
  capture = λ n req key. (retry r (attempts ch n (λ k. (inner k).capture n req key))).answer;
  void = λ n req key. (retry r (attempts ch n (λ k. (inner k).void n req key))).answer;
  refund = λ n req key. (retry r (attempts ch n (λ k. (inner k).refund n req key))).answer;
  get_authorization =
      λ n id. (retry r (attempts ch n (λ k. (inner k).get_authorization n id))).answer;
}

-- The client that main.go gives to the services and the workers; `net k n` is the network at the
-- k-th attempt of the call at the n-th step.
unfoldable pub gateway_client :
    HttpBankClient → RetryBankClient → Json → Chances → (ℕ → ℕ → Network) → BankClient
unfolding http_client retry_client
gateway_client c r json ch net = retry_client r ch (λ k. http_client c json (net k))

abbrev pub map_answer : {A B : Type 0} → (A → B) → Answer A → Answer B
map_answer f (reply a) = reply (f a)
map_answer f (fault x) = fault x

-- A call of the interface, by its name.
unfoldable pub deliver : BankClient → ℕ → BankCall → Answer BankResponse
deliver b n (authorize_call req key) = map_answer authorization (b.authorize n req key)
deliver b n (capture_call req key) = map_answer Bank.capture (b.capture n req key)
deliver b n (void_call req key) = map_answer Bank.void (b.void n req key)
deliver b n (refund_call req key) = map_answer Bank.refund (b.refund n req key)
deliver b n (status_call id) = map_answer authorization (b.get_authorization n id)
