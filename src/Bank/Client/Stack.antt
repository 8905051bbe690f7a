-- ===== src/Bank/Client/Stack.antt =====
-- What a caller of the bank sees of HTTP responses, through client.go and retry.go together.
use ficmart_payment_gateway.Prelude.{
  ℕ, zero, suc, ◌<◌, ◌≤◌, ◌≡◌, refl, ◌∙◌, true, false, Option, none, some, String, str_append,
  str_eq, arith, ◌==◌, if◌then◌else◌,
}
use ficmart_payment_gateway.Prelude.Integer.{pos, pos_part}
use ficmart_payment_gateway.Failure.{Error, plain, BankError, bank_error, as_bank_error}
use ficmart_payment_gateway.Failure.Category.{categorize_error, transient, bank_category}
use ficmart_payment_gateway.Failure.Agreement.{direct, under, categorize-Reports}
use ficmart_payment_gateway.Bank
use ficmart_payment_gateway.Bank.{
  BankCall, BankResponse, CaptureRequest, CaptureResponse, authorize_call, capture_call, void_call,
  refund_call, status_call, authorization,
}
use ficmart_payment_gateway.Bank.Retry
use ficmart_payment_gateway.Bank.Retry.{
  Answer, reply, fault, RetryBankClient, Outside, retry, exhausted,
}
use ficmart_payment_gateway.Bank.Retry.Bounds.{retry_exhausts, retry_first_final}
use ficmart_payment_gateway.Bank.Client.{
  HttpRequest, answered, Network, Json, error_of_body, after_exchange, send_body, send_request,
  HttpBankClient, Chances, attempts, gateway_client, http_client, retry_client, map_answer, deliver,
}

error_of_body_status :
    (net : Network) (status : ℕ) (body : Answer String)
    → (error_of_body net status body).status_code ≡ status
unfolding error_of_body
error_of_body_status net status (fault x) = refl
error_of_body_status net status (reply body) = ground arith

-- Every request is answered with a status of 500 or more, whatever the body.
pub record IsDown (net : Network) : Type 0 where
  pub accepted : (method url : String) → net.new_request method url ≡ none
  pub status : HttpRequest → ℕ
  pub body : HttpRequest → Answer String
  pub answers : (q : HttpRequest) → net.exchange q ≡ answered (status q) (body q)
  pub server_error : (q : HttpRequest) → 500 ≤ status q

-- Every request of the interface can be printed.
pub record Prints (json : Json) : Type 0 where
  pub authorization :
      (r : Bank.AuthorizationRequest) → (t : String) × (json.authorization_request r ≡ reply t)
  pub capture : (r : Bank.CaptureRequest) → (t : String) × (json.capture_request r ≡ reply t)
  pub void : (r : Bank.VoidRequest) → (t : String) × (json.void_request r ≡ reply t)
  pub refund : (r : Bank.RefundRequest) → (t : String) × (json.refund_request r ≡ reply t)

-- A result that is a bank's error of the server's making.
abbrev pub IsServerError : {T : Type 0} → Answer T → Type 0
IsServerError a = (b : BankError) × (a ≡ fault (bank_error b)) × (500 ≤ b.status_code)

not_ok : (s : ℕ) → 500 ≤ s → (s == 200) ≡ false
not_ok s h = ground arith

module _ {T : Type 0} (net : Network) (down : IsDown net) (decode : String → Answer T) where
  after_exchange-IsServerError :
      (q : HttpRequest) → IsServerError (after_exchange net decode (net.exchange q))
  unfolding after_exchange
  after_exchange-IsServerError q =
      rw (down.answers q, not_ok (down.status q) (down.server_error q))
        (
          error_of_body net (down.status q) (down.body q),
          refl,
          rw (error_of_body_status net (down.status q) (down.body q)) (down.server_error q),
        )

  send_body-IsServerError :
      (method url : String) (body : Option String) (key : String)
      → IsServerError (send_body net decode method url body key)
  unfolding send_body
  send_body-IsServerError method url body key =
      rw (down.accepted method url, send_body) (after_exchange-IsServerError _)

  send_request-IsServerError :
      (method url : String) (body : Answer String) (key : String) (t : String)
      → body ≡ reply t
      → IsServerError (send_request net decode method url body key)
  unfolding send_request
  send_request-IsServerError method url body key t e =
      rw e (send_body-IsServerError method url (some t) key)

server_error_retryable :
    (b : BankError) → 500 ≤ b.status_code → Retry.is_retryable (bank_error b) ≡ true
unfolding Retry.is_retryable as_bank_error
server_error_retryable b h = ground arith

server_error_category : (b : BankError) → 500 ≤ b.status_code → bank_category b ≡ transient
unfolding bank_category
server_error_category b h = ground arith

-- The call fails with an error that the services call transient.
abbrev pub FailsForNow : {T : Type 0} → Answer T → Type 0
FailsForNow a = (x : Error) × (a ≡ fault x) × (categorize_error (some x) ≡ transient)

retry-FailsForNow :
    {T : Type 0} (r : RetryBankClient) (w : Outside T) (m : ℕ)
    → r.max_retries ≡ pos (suc m)
    → ((k : ℕ) → w.cancelled k ≡ none)
    → ((k : ℕ) → IsServerError (w.operation k))
    → FailsForNow (retry r w).answer
unfolding categorize_error
retry-FailsForNow r w m e alive fails =
    let t =
      retry_exhausts r w (λ k. bank_error (fails k).0) m e
        (λ k lt. record {
          alive = alive k;
          failed = (fails k).1;
          transient = server_error_retryable (fails k).0 (fails k).2;
        }) in
    (
      exhausted (some (bank_error (fails m).0)),
      t.0,
      categorize-Reports (under "maximum retries exceeded" direct)
          ∙ server_error_category (fails m).0 (fails m).2,
    )

map_answer-FailsForNow :
    {A B : Type 0} (f : A → B) (a : Answer A) → FailsForNow a → FailsForNow (map_answer f a)
map_answer-FailsForNow f a (x, e, c) = (x, rw e refl, c)

module _ (c : HttpBankClient) (r : RetryBankClient) (json : Json) (ch : Chances)
    (net : ℕ → ℕ → Network) where
  abbrev status_url : String → String
  status_url id = str_append c.base_url (str_append "/api/v1/authorizations/" id)

  abbrev ask_status : ℕ → String → ℕ → Answer Bank.AuthorizationResponse
  ask_status n id k = send_body (net k n) json.authorization_response "GET" (status_url id) none ""

  -- If MaxRetries is m + 1, the context is not done, requests can be printed and made, and the
  -- bank answers every attempt with a status of 500 or more, whatever the body, then every method
  -- of the client that main builds fails with an error that CategorizeError calls transient.
  pub deliver-FailsForNow :
      (m n : ℕ) (call : BankCall)
      → r.max_retries ≡ pos (suc m)
      → ((k : ℕ) → ch.cancelled n k ≡ none)
      → ((k : ℕ) → IsDown (net k n))
      → Prints json
      → FailsForNow (deliver (gateway_client c r json ch net) n call)
  unfolding deliver gateway_client
  deliver-FailsForNow m n (authorize_call req key) e alive down prints =
      map_answer-FailsForNow _ _ (
        retry-FailsForNow r _ m e alive (λ k.
          send_request-IsServerError (net k n) (down k) _ _ _ _ _ (prints.authorization req).0
            (prints.authorization req).1))
  deliver-FailsForNow m n (capture_call req key) e alive down prints = map_answer-FailsForNow _ _ (
      retry-FailsForNow r _ m e alive (λ k.
        send_request-IsServerError (net k n) (down k) _ _ _ _ _ (prints.capture req).0
          (prints.capture req).1))
  deliver-FailsForNow m n (void_call req key) e alive down prints = map_answer-FailsForNow _ _ (
      retry-FailsForNow r _ m e alive (λ k.
        send_request-IsServerError (net k n) (down k) _ _ _ _ _ (prints.void req).0
          (prints.void req).1))
  deliver-FailsForNow m n (refund_call req key) e alive down prints = map_answer-FailsForNow _ _ (
      retry-FailsForNow r _ m e alive (λ k.
        send_request-IsServerError (net k n) (down k) _ _ _ _ _ (prints.refund req).0
          (prints.refund req).1))
  deliver-FailsForNow m n (status_call id) e alive down prints =
      map_answer-FailsForNow authorization _ (
        retry-FailsForNow r (attempts ch n (ask_status n id)) m e alive (λ k.
          send_body-IsServerError (net k n) (down k) json.authorization_response "GET"
            (status_url id) none ""))

-- A bank that reads captures from the body and answers 200 with what it prints. It reads this
-- request from the text that it is printed as, the client reads the bank's response from its text,
-- and the key is the header.
pub record Understands (net : Network) (json : Json)
    (serve : String → CaptureRequest → CaptureResponse) (req : CaptureRequest) (key : String)
    : Type 0 where
  pub accepted : (method url : String) → net.new_request method url ≡ none
  pub parse : Option String → CaptureRequest
  pub print : CaptureResponse → String
  pub text : String
  pub printed : json.capture_request req ≡ reply text
  pub parsed : parse (some text) ≡ req
  pub read : json.capture_response (print (serve key req)) ≡ reply (serve key req)
  pub answers :
      (q : HttpRequest)
      → q.idempotency_key ≡ some key
      → net.exchange q ≡ answered 200 (reply (print (serve key (parse q.body))))

module _ (c : HttpBankClient) (r : RetryBankClient) (json : Json) (ch : Chances)
    (net : ℕ → ℕ → Network) where
  -- The first attempt is answered with what the bank makes of the request.
  understood :
      (serve : String → CaptureRequest → CaptureResponse) (net : Network) (url : String)
      (req : CaptureRequest) (key : String)
      → str_eq key "" ≡ false
      → Understands net json serve req key
      → send_request net json.capture_response "POST" url (json.capture_request req) key
        ≡ reply (serve key req)
  unfolding send_request send_body after_exchange
  understood serve net url req key named u =
      let known : ◌≡◌ {A = Option String} (if str_eq key "" then none else some key) (some key) =
        rw named refl in
      let q : HttpRequest = record {
        method = "POST";
        url = url;
        body = some u.text;
        content_type = some "application/json";
        idempotency_key = if str_eq key "" then none else some key;
      } in
      let said : net.exchange q
          ≡ answered 200 (reply (u.print (serve key (u.parse (some u.text))))) =
        u.answers q known in
      rw (u.printed, u.accepted "POST" url, send_body, said, u.parsed, u.read) refl

  -- With at least one attempt and a context that is not done, if http.NewRequest accepts every
  -- request, and the bank reads a capture back from the text that it is printed as and answers 200
  -- with a body from which the client reads the response back, then Capture through
  -- RetryBankClient and HTTPBankClient returns what the bank makes of the request and its
  -- idempotency key, which is not empty.
  pub gateway_capture_roundtrip :
      (serve : String → CaptureRequest → CaptureResponse) (n : ℕ) (req : CaptureRequest)
      (key : String)
      → zero < pos_part r.max_retries
      → ch.cancelled n 0 ≡ none
      → str_eq key "" ≡ false
      → Understands (net 0 n) json serve req key
      → (gateway_client c r json ch net).capture n req key ≡ reply (serve key req)
  unfolding gateway_client http_client retry_client
  gateway_capture_roundtrip serve n req key some_try alive named u =
      (retry_first_final r (attempts ch n (λ k. (http_client c json (net k)).capture n req key))
        (λ k. plain "") 0 (reply (serve key req)) some_try (λ k lt. absurd (omega arith))
        (record {
          alive = alive;
          answered = understood serve (net 0 n) _ req key named u;
          final = refl;
        })).0
