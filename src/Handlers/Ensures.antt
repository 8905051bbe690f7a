-- ===== src/Handlers/Ensures.antt =====
-- What the handlers ensure: every request is answered with a status of its operation.
use ficmart_payment_gateway.Prelude.{
  ℕ, String, ◌≡◌, refl, Bool, true, false, ◌||◌, ◌==◌, arith, List, [], ◌∷◌,
}
use ficmart_payment_gateway.Failure.{Error}
use ficmart_payment_gateway.Domain.{Payment}
use ficmart_payment_gateway.Bank.Retry.{Answer, reply, fault}
use ficmart_payment_gateway.Exec.{Result, ok, err, panic, Env}
use ficmart_payment_gateway.Exec.Triple.{
  Pred, Ends, Triple, Triple-bind, Triple-pure, Triple-lift, Triple-attempt,
}
use ficmart_payment_gateway.Exec.Fair.{FaultsAreHonest, KeysStay, RowsStayWellFormed}
use ficmart_payment_gateway.Services.Intent.{Sound, Served}
use ficmart_payment_gateway.Services.Authorize.Ensures.{authorize-Served}
use ficmart_payment_gateway.Services.Capture.Ensures.{capture-Served}
use ficmart_payment_gateway.Services.Void.Ensures.{void-Served}
use ficmart_payment_gateway.Services.Refund.Ensures.{refund-Served}
use ficmart_payment_gateway.Handlers.{ApiPayment, to_api_payment, build_error_response}
use ficmart_payment_gateway.Handlers.Replies.{
  Body, payment, failure, Response, AuthorizeRequest, auth_status, change_status, command_of,
  map_error, converted, after_payment, authorize_payment, capture_payment, void_payment,
  refund_payment,
}

abbrev pub is_among : ℕ → List ℕ → Bool
is_among s [] = false
is_among s (t ∷ ts) = (s == t) || is_among s ts

-- Success with a payment, or a failure with one of the statuses.
abbrev pub Answers : ℕ → List ℕ → ℕ → Body → Type 0
Answers success failures s (payment _) = s ≡ success
Answers success failures s (failure _) = is_among s failures ≡ true
Answers success failures s _ = ⊥

abbrev pub auth_failures : List ℕ
auth_failures = 400 ∷ 408 ∷ 409 ∷ 500 ∷ []

abbrev pub change_failures : List ℕ
change_failures = 400 ∷ 404 ∷ 408 ∷ 409 ∷ 500 ∷ []

auth_status-is_among : (s : ℕ) → is_among (auth_status s) auth_failures ≡ true
auth_status-is_among s = ground arith

change_status-is_among : (s : ℕ) → is_among (change_status s) change_failures ≡ true
change_status-is_among s = ground arith

-- The tables and the calls are in order, and the response is an answer.
abbrev pub Answered : ℕ → List ℕ → Response → Pred
Answered success failures r d s = Sound d s × Answers success failures r.status r.body

module _ (parse_uuid : String → Answer String) (text : Error → String)
    (to_upper : String → String) where
  module _ (choose : ℕ → ℕ) (success : ℕ) (failures : List ℕ)
      (known : (s : ℕ) → is_among (choose s) failures ≡ true) where
    map_error-Answers :
        (x : Error)
        → let r = map_error parse_uuid text to_upper choose x in
          Answers success failures r.status r.body
    unfolding map_error build_error_response
    map_error-Answers x = known _

    converted-Answers :
        (p : Payment)
        → let r =
            converted parse_uuid text to_upper choose success payment
              (to_api_payment parse_uuid p) in
          Answers success failures r.status r.body
    converted-Answers p = any_answer (to_api_payment parse_uuid p)
      where
        any_answer :
            (a : Answer ApiPayment)
            → let r = converted parse_uuid text to_upper choose success payment a in
              Answers success failures r.status r.body
        any_answer (reply a) = refl
        any_answer (fault x) = map_error-Answers x

    after_payment-Answered :
        (e : Env) (r : Result Payment)
        → Triple e
            (Ends Served (λ _. Sound) r)
            (after_payment parse_uuid text to_upper choose success r)
            (Answered success failures)
            (λ x d s. ⊥)
    unfolding after_payment
    after_payment-Answered e (ok p) = Triple-pure _ (λ d s h. (h.0, converted-Answers p))
    after_payment-Answered e (err x) = Triple-pure _ (λ d s h. (h, map_error-Answers x))
    after_payment-Answered e panic = Triple-lift panic (λ d s h. h)

  module _ (e : Env) (honest : FaultsAreHonest e) (stay : RowsStayWellFormed e)
      (keys : KeysStay e) where
    -- Under FaultsAreHonest, RowsStayWellFormed and KeysStay, whatever uuid.Parse, Error() and
    -- strings.ToUpper return: the handler AuthorizePayment does not panic, keeps the tables and
    -- the calls in order, and answers a payment with status 201 or a failure with status 400, 408,
    -- 409 or 500.
    pub authorize_payment-Answered :
        (req : AuthorizeRequest) (key : String)
        → Triple e Sound
            (authorize_payment parse_uuid text to_upper req key)
            (Answered 201 auth_failures)
            (λ x d s. ⊥)
    unfolding authorize_payment
    authorize_payment-Answered req key =
        Triple-bind _ _
          (Triple-attempt _ _ (authorize-Served e honest stay keys (command_of req) key))
          (after_payment-Answered auth_status 201 auth_failures auth_status-is_among e)

    -- Under FaultsAreHonest, RowsStayWellFormed and KeysStay, whatever uuid.Parse, Error() and
    -- strings.ToUpper return: the handler CapturePayment does not panic, keeps the tables and the
    -- calls in order, and answers a payment with status 200 or a failure with status 400, 404,
    -- 408, 409 or 500.
    pub capture_payment-Answered :
        (payment_id key : String)
        → Triple e Sound
            (capture_payment parse_uuid text to_upper payment_id key)
            (Answered 200 change_failures)
            (λ x d s. ⊥)
    unfolding capture_payment
    capture_payment-Answered payment_id key =
        Triple-bind _ _ (Triple-attempt _ _ (capture-Served e honest stay keys payment_id key))
          (after_payment-Answered change_status 200 change_failures change_status-is_among e)

    -- Under FaultsAreHonest, RowsStayWellFormed and KeysStay, whatever uuid.Parse, Error() and
    -- strings.ToUpper return: the handler VoidPayment does not panic, keeps the tables and the
    -- calls in order, and answers a payment with status 200 or a failure with status 400, 404,
    -- 408, 409 or 500.
    pub void_payment-Answered :
        (payment_id key : String)
        → Triple e Sound
            (void_payment parse_uuid text to_upper payment_id key)
            (Answered 200 change_failures)
            (λ x d s. ⊥)
    unfolding void_payment
    void_payment-Answered payment_id key =
        Triple-bind _ _ (Triple-attempt _ _ (void-Served e honest stay keys payment_id key))
          (after_payment-Answered change_status 200 change_failures change_status-is_among e)

    -- Under FaultsAreHonest, RowsStayWellFormed and KeysStay, whatever uuid.Parse, Error() and
    -- strings.ToUpper return: the handler RefundPayment does not panic, keeps the tables and the
    -- calls in order, and answers a payment with status 200 or a failure with status 400, 404,
    -- 408, 409 or 500.
    pub refund_payment-Answered :
        (payment_id key : String)
        → Triple e Sound
            (refund_payment parse_uuid text to_upper payment_id key)
            (Answered 200 change_failures)
            (λ x d s. ⊥)
    unfolding refund_payment
    refund_payment-Answered payment_id key =
        Triple-bind _ _ (Triple-attempt _ _ (refund-Served e honest stay keys payment_id key))
          (after_payment-Answered change_status 200 change_failures change_status-is_among e)

    -- Under FaultsAreHonest, RowsStayWellFormed and KeysStay, whatever uuid.Parse, Error() and
    -- strings.ToUpper return: the handlers CapturePayment, VoidPayment and RefundPayment do not
    -- panic, keep the tables and the calls in order, and answer a payment with status 200 or a
    -- failure with status 400, 404, 408, 409 or 500.
    pub change_payment-Answered :
        (payment_id key : String)
        → Triple e Sound
            (capture_payment parse_uuid text to_upper payment_id key)
            (Answered 200 change_failures)
            (λ x d s. ⊥)
          × Triple e Sound
              (void_payment parse_uuid text to_upper payment_id key)
              (Answered 200 change_failures)
              (λ x d s. ⊥)
          × Triple e Sound
              (refund_payment parse_uuid text to_upper payment_id key)
              (Answered 200 change_failures)
              (λ x d s. ⊥)
    change_payment-Answered payment_id key = (
      capture_payment-Answered payment_id key,
      void_payment-Answered payment_id key,
      refund_payment-Answered payment_id key,
    )
