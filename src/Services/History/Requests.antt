-- ===== src/Services/History/Requests.antt =====
-- Any requests, one after another, with anything that other instances do in between.
use ficmart_payment_gateway.Prelude.{String, List, [], ◌∷◌}
use ficmart_payment_gateway.Domain.{Payment}
use ficmart_payment_gateway.Command.{AuthorizeCommand}
use ficmart_payment_gateway.Store.{Db}
use ficmart_payment_gateway.Exec.{Result, ok, err, panic, Env, Sent, Exec, ◌>>=◌, pure, attempt}
use ficmart_payment_gateway.Exec.Triple.{
  Ends, Triple, Triple-bind, Triple-pure, Triple-attempt, Triple-weaken, Triple-both,
}
use ficmart_payment_gateway.Exec.Fair.{KeysStay, RowsStayWellFormed, FaultsAreHonest}
use ficmart_payment_gateway.Services.Authorize.{authorize}
use ficmart_payment_gateway.Services.Authorize.Ensures.{authorize-Served}
use ficmart_payment_gateway.Services.Capture.{capture}
use ficmart_payment_gateway.Services.Capture.Ensures.{capture-Served}
use ficmart_payment_gateway.Services.Void.{void}
use ficmart_payment_gateway.Services.Void.Ensures.{void-Served}
use ficmart_payment_gateway.Services.Refund.{refund}
use ficmart_payment_gateway.Services.Refund.Ensures.{refund-Served}
use ficmart_payment_gateway.Services.History.{Once}
use ficmart_payment_gateway.Services.History.Steps.{Orderly, KeepsOnce}
use ficmart_payment_gateway.Services.History.Moving.{
  capture-KeepsOnce, void-KeepsOnce, refund-KeepsOnce,
}
use ficmart_payment_gateway.Services.History.Opening.{authorize-KeepsOnce}
use ficmart_payment_gateway.Services.Intent.{Sound, Served}

-- A request to one of the services, with its idempotency key.
pub data Request : Type 0 where
  authorizing : AuthorizeCommand → String → Request
  capturing_of : String → String → Request
  voiding_of : String → String → Request
  refunding_of : String → String → Request

abbrev pub serve : Request → Exec Payment
serve (authorizing cmd key) = authorize cmd key
serve (capturing_of payment_id key) = capture payment_id key
serve (voiding_of payment_id key) = void payment_id key
serve (refunding_of payment_id key) = refund payment_id key

-- The requests in turn, whatever each returns.
abbrev pub serve_all : List Request → Exec Unit
serve_all [] = pure tt
serve_all (r ∷ rs) = attempt (serve r) >>= λ _. serve_all rs

module _ (e : Env) (honest : FaultsAreHonest e) (stay : RowsStayWellFormed e)
    (keys : KeysStay e) where
  both :
      {m : Exec Payment}
      → Triple e Sound m Served (λ _. Sound)
      → KeepsOnce e honest stay keys m
      → Triple e Orderly m (λ p d s. Served p d s × Once d s) (λ x. Orderly)
  both t u = Triple-weaken _ (λ d s h. (h.0, h)) (λ p d s h. h) (λ x d s h. h) (Triple-both _ t u)

  serve-Orderly :
      (r : Request) → Triple e Orderly (serve r) (λ p d s. Served p d s × Once d s) (λ x. Orderly)
  serve-Orderly (authorizing cmd key) =
      both (authorize-Served e honest stay keys cmd key)
        (authorize-KeepsOnce e honest stay keys cmd key)
  serve-Orderly (capturing_of payment_id key) =
      both (capture-Served e honest stay keys payment_id key)
        (capture-KeepsOnce e honest stay keys payment_id key)
  serve-Orderly (voiding_of payment_id key) =
      both (void-Served e honest stay keys payment_id key)
        (void-KeepsOnce e honest stay keys payment_id key)
  serve-Orderly (refunding_of payment_id key) =
      both (refund-Served e honest stay keys payment_id key)
        (refund-KeepsOnce e honest stay keys payment_id key)

  -- Under FaultsAreHonest, RowsStayWellFormed and KeysStay, for any list of authorize, capture,
  -- void and refund requests served in turn, whatever each returns and whatever others commit in
  -- between: from tables and calls in order, where each idempotency key has at most one call among
  -- those sent, was in the table when that call was made, and is in it still, this holds again
  -- afterwards, and no request panics. So from an empty history the services send the bank at most
  -- one call for each key.
  pub at_most_once :
      (rs : List Request) → Triple e Orderly (serve_all rs) (λ _. Orderly) (λ x d s. ⊥)
  at_most_once [] = Triple-pure tt (λ d s h. h)
  at_most_once (r ∷ rs) = Triple-bind _ _ (Triple-attempt (λ x d s. ⊥) _ (serve-Orderly r)) (λ out.
      Triple-weaken _ (λ d s h. still out d s h) (λ a d s h. h) (λ x d s h. h) (at_most_once rs))
    where
      still :
          (out : Result Payment) (d : Db) (s : List Sent)
          → Ends (λ p d s. Served p d s × Once d s) (λ x. Orderly) out d s
          → Orderly d s
      still (ok p) d s h = (h.0.0, h.1)
      still (err x) d s h = h
      still panic d s h = absurd h
