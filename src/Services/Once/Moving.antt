-- ===== src/Services/Once/Moving.antt =====
-- A key that is in the table is not carried out again by the services of capture.go, void.go and
-- refund.go.
use ficmart_payment_gateway.Prelude.{if◌then◌else◌, String, List, Option, none, some}
use ficmart_payment_gateway.Failure.{Error, is_error, duplicate_idempotency_key}
use ficmart_payment_gateway.Domain.{Payment, mark_capturing, mark_voiding, mark_refunding}
use ficmart_payment_gateway.Exec.{Result, ok, err, panic, Env, Exec, Sent, raise}
use ficmart_payment_gateway.Exec.Triple.{
  Ends, Triple, Triple-bind, Triple-pure, Triple-raise, Triple-if, Triple-lift, Triple-gets,
  Triple-attempt, Triple-weaken,
}
use ficmart_payment_gateway.Exec.Fair.{FaultsAreHonest, KeysStay}
use ficmart_payment_gateway.Services.Idempotency.{compute_hash, wait_for_completion}
use ficmart_payment_gateway.Services.Idempotency.Waiting.{
  Triple-wait_for_completion, Triple-check_idempotency,
}
use ficmart_payment_gateway.Services.Once.{
  Held, Held-IsStable, Triple-unreached, mark_payment_transitioning-Held,
}
use ficmart_payment_gateway.Services.Capture
use ficmart_payment_gateway.Services.Void
use ficmart_payment_gateway.Services.Refund

module _ (e : Env) (honest : FaultsAreHonest e) (stay : KeysStay e) (key : String)
    (calls : List Sent) where
  -- The action leaves the key in the table and sends the bank nothing.
  abbrev pub IsHeld : Exec Payment → Type 0
  IsHeld m = Triple e (Held key calls) m (λ _. Held key calls) (λ _. Held key calls)

  pub wait-IsHeld : IsHeld (wait_for_completion key)
  wait-IsHeld =
      Triple-weaken _ (λ d s h. h) (λ p d s h. h.0) (λ x d s h. h)
        (Triple-wait_for_completion e (Held key calls) key honest (Held-IsStable e key calls stay)
          (λ d s h. h.0))

  wait_or_raise-IsHeld :
      (x : Error)
      → Triple e
          (Held key calls)
          (if is_error x duplicate_idempotency_key then wait_for_completion key else raise x)
          (λ _. Held key calls)
          (λ _. Held key calls)
  wait_or_raise-IsHeld x =
      Triple-if (is_error x duplicate_idempotency_key) _ _ (λ taken. wait-IsHeld)
        (λ other. Triple-raise x (λ d s h. h))

  after_mark_capture_once :
      (r : Result Payment)
      → Triple e
          (Ends (λ q d s. ⊥) (λ _. Held key calls) r)
          (Capture.after_mark key r)
          (λ _. Held key calls)
          (λ _. Held key calls)
  unfolding Capture.after_mark
  after_mark_capture_once (ok p) = Triple-unreached
  after_mark_capture_once (err x) = wait_or_raise-IsHeld x
  after_mark_capture_once panic = Triple-lift panic (λ d s h. h)

  after_check_capture_once :
      (payment_id request_hash : String) (o : Option Payment)
      → IsHeld (Capture.after_check payment_id key request_hash o)
  unfolding Capture.after_check
  after_check_capture_once payment_id request_hash (some p) = Triple-pure p (λ d s h. h)
  after_check_capture_once payment_id request_hash none =
      Triple-bind _ _
        (Triple-attempt _ _ (
          mark_payment_transitioning-Held e honest stay key calls payment_id request_hash
            mark_capturing))
        after_mark_capture_once

  -- Under FaultsAreHonest and KeysStay: if the key of the request is in the table when Capture
  -- begins, the service sends the bank nothing, leaves the key in the table and does not panic,
  -- whatever it returns.
  pub capture_once : (payment_id : String) → IsHeld (Capture.capture payment_id key)
  unfolding Capture.capture compute_hash
  capture_once payment_id =
      Triple-bind {Q = λ _. Held key calls} _ _ (Triple-gets _ (λ d s h. h)) λ request_hash.
        Triple-bind {Q = λ _. Held key calls} _ _
          (Triple-weaken _ (λ d s h. h) (λ o d s h. h.0) (λ x d s h. h)
            (Triple-check_idempotency e (Held key calls) key request_hash honest stay
              (Held-IsStable e key calls stay)))
          (after_check_capture_once payment_id request_hash)

  after_mark_void_once :
      (r : Result Payment)
      → Triple e
          (Ends (λ q d s. ⊥) (λ _. Held key calls) r)
          (Void.after_mark key r)
          (λ _. Held key calls)
          (λ _. Held key calls)
  unfolding Void.after_mark
  after_mark_void_once (ok p) = Triple-unreached
  after_mark_void_once (err x) = wait_or_raise-IsHeld x
  after_mark_void_once panic = Triple-lift panic (λ d s h. h)

  after_check_void_once :
      (payment_id request_hash : String) (o : Option Payment)
      → IsHeld (Void.after_check payment_id key request_hash o)
  unfolding Void.after_check
  after_check_void_once payment_id request_hash (some p) = Triple-pure p (λ d s h. h)
  after_check_void_once payment_id request_hash none =
      Triple-bind _ _
        (Triple-attempt _ _ (
          mark_payment_transitioning-Held e honest stay key calls payment_id request_hash
            mark_voiding))
        after_mark_void_once

  -- Under FaultsAreHonest and KeysStay: if the key of the request is in the table when Void
  -- begins, the service sends the bank nothing, leaves the key in the table and does not panic,
  -- whatever it returns.
  pub void_once : (payment_id : String) → IsHeld (Void.void payment_id key)
  unfolding Void.void compute_hash
  void_once payment_id =
      Triple-bind {Q = λ _. Held key calls} _ _ (Triple-gets _ (λ d s h. h)) λ request_hash.
        Triple-bind {Q = λ _. Held key calls} _ _
          (Triple-weaken _ (λ d s h. h) (λ o d s h. h.0) (λ x d s h. h)
            (Triple-check_idempotency e (Held key calls) key request_hash honest stay
              (Held-IsStable e key calls stay)))
          (after_check_void_once payment_id request_hash)

  after_mark_refund_once :
      (r : Result Payment)
      → Triple e
          (Ends (λ q d s. ⊥) (λ _. Held key calls) r)
          (Refund.after_mark key r)
          (λ _. Held key calls)
          (λ _. Held key calls)
  unfolding Refund.after_mark
  after_mark_refund_once (ok p) = Triple-unreached
  after_mark_refund_once (err x) = wait_or_raise-IsHeld x
  after_mark_refund_once panic = Triple-lift panic (λ d s h. h)

  after_check_refund_once :
      (payment_id request_hash : String) (o : Option Payment)
      → IsHeld (Refund.after_check payment_id key request_hash o)
  unfolding Refund.after_check
  after_check_refund_once payment_id request_hash (some p) = Triple-pure p (λ d s h. h)
  after_check_refund_once payment_id request_hash none =
      Triple-bind _ _
        (Triple-attempt _ _ (
          mark_payment_transitioning-Held e honest stay key calls payment_id request_hash
            mark_refunding))
        after_mark_refund_once

  -- Under FaultsAreHonest and KeysStay: if the key of the request is in the table when Refund
  -- begins, the service sends the bank nothing, leaves the key in the table and does not panic,
  -- whatever it returns.
  pub refund_once : (payment_id : String) → IsHeld (Refund.refund payment_id key)
  unfolding Refund.refund compute_hash
  refund_once payment_id =
      Triple-bind {Q = λ _. Held key calls} _ _ (Triple-gets _ (λ d s h. h)) λ request_hash.
        Triple-bind {Q = λ _. Held key calls} _ _
          (Triple-weaken _ (λ d s h. h) (λ o d s h. h.0) (λ x d s h. h)
            (Triple-check_idempotency e (Held key calls) key request_hash honest stay
              (Held-IsStable e key calls stay)))
          (after_check_refund_once payment_id request_hash)
