-- ===== src/Exec.antt =====
-- How the program acts on the world: database statements, transactions and calls of the bank, as
-- functions of an environment and a state.
--
-- The environment answers at numbered steps what the program does not decide: the time, whether a
-- statement fails and with what error, what other requests and workers have committed before a
-- statement, a transaction or a call of the bank, fresh identifiers, and the bank. A statement that fails changes
-- nothing. A transaction is atomic: it sees no commit of another after it has begun.
use ficmart_payment_gateway.Prelude.{ℕ, ◌+◌, String, Bool, Option, none, some, List, [], ◌∷◌, ◌++◌}
use ficmart_payment_gateway.Failure.{Error}
use ficmart_payment_gateway.Domain.{Payment, Time}
use ficmart_payment_gateway.Bank.{
  AuthorizationRequest, AuthorizationResponse, CaptureRequest, CaptureResponse, VoidRequest,
  VoidResponse, RefundRequest, RefundResponse, BankCall, BankResponse, authorize_call, capture_call,
  void_call, refund_call, status_call,
}
use ficmart_payment_gateway.Bank.Retry.{Answer, reply, fault}
use ficmart_payment_gateway.Command.{AuthorizeCommand}
use ficmart_payment_gateway.Store.{Db}
pub mod Ends
pub mod Triple
pub mod Fair

-- `panic` is a run-time panic, such as a nil pointer that is followed.
pub data Result (A : Type 0) : Type 0 where
  ok : A → Result A
  err : Error → Result A
  panic : Result A

abbrev pub from_answer : {A : Type 0} → Answer A → Result A
from_answer (reply a) = ok a
from_answer (fault x) = err x

-- The interface BankClient of client.go; the number is the step at which the call is made.
pub record BankClient : Type 0 where
  pub authorize : ℕ → AuthorizationRequest → String → Answer AuthorizationResponse
  pub capture : ℕ → CaptureRequest → String → Answer CaptureResponse
  pub void : ℕ → VoidRequest → String → Answer VoidResponse
  pub refund : ℕ → RefundRequest → String → Answer RefundResponse
  pub get_authorization : ℕ → String → Answer AuthorizationResponse

pub record Env : Type 0 where
  pub now : ℕ → Time
  pub fault : ℕ → Option Error
  pub others : ℕ → Db → Db
  pub new_uuid : ℕ → String
  -- Whether the request's context is done when the wait loop looks at its channels.
  pub is_done : ℕ → Bool
  -- How many ticks the wait loop handles before its 30 seconds are over.
  pub ticks : ℕ
  pub bank : BankClient
  -- fmt's %+v of the command, and the hexadecimal sha256 of a text.
  pub format_command : AuthorizeCommand → String
  pub sha256_hex : String → String
  -- json.Marshal
  pub marshal_error : Error → Answer String
  pub marshal_response : BankResponse → Answer String

-- A call of the bank: the tables as the caller's last statement or transaction left them, and the
-- tables when the call is made, with what others have committed since.
pub record Sent : Type 0 where
  pub call : BankCall
  pub seen : Db
  pub at : Db

pub record World : Type 0 where
  pub db : Db
  pub step : ℕ
  pub sent : List Sent

abbrev pub Exec : Type 0 → Type 0
Exec A = Env → World → Result A × World

abbrev pub continue : {A B : Type 0} → Result A → (A → Exec B) → Exec B
continue (ok a) f e w = f a e w
continue (err x) f e w = (err x, w)
continue panic f e w = (panic, w)

infixl 5 ◌>>=◌ ◌>>◌
unfoldable pub ◌>>=◌ : {A B : Type 0} → Exec A → (A → Exec B) → Exec B
◌>>=◌ m f e w = let (r, w') = m e w in continue r f e w'

abbrev pub ◌>>◌ : {B : Type 0} → Exec (Unit {0}) → Exec B → Exec B
m >> k = m >>= λ _. k

unfoldable pub pure : {A : Type 0} → A → Exec A
pure a e w = (ok a, w)

unfoldable pub raise : {A : Type 0} → Error → Exec A
raise x e w = (err x, w)

unfoldable pub lift : {A : Type 0} → Result A → Exec A
lift r e w = (r, w)

unfoldable pub gets : {A : Type 0} → (Env → Db → A) → Exec A
gets f e w = (ok (f e w.db), w)

-- A statement's effect on the tables: the tables after it, or the error that the server reports.
abbrev pub wrote : Answer Db → World → Result Unit × World
wrote (reply db) w = (ok tt, record w { db = db })
wrote (fault x) w = (err x, w)

unfoldable pub write : (Db → Answer Db) → Exec Unit
write f e w = wrote (f w.db) w

-- What the environment answers at this step.
unfoldable pub ask : {A : Type 0} → (Env → ℕ → A) → Exec A
ask f e w = (ok (f e w.step), record w { step = w.step + 1 })

-- `if err != nil { return …f(err) }`
abbrev pub fail_with : {A : Type 0} → (Error → Error) → Result A → Result A
fail_with f (ok a) = ok a
fail_with f (err x) = err (f x)
fail_with f panic = panic

unfoldable pub or_fail : {A : Type 0} → (Error → Error) → Exec A → Exec A
or_fail f m e w = let (r, w') = m e w in (fail_with f r, w')

-- The result of a call together with its error, for code that branches on the error.
abbrev pub caught : {A : Type 0} → Result A → Result (Result A)
caught (ok a) = ok (ok a)
caught (err x) = ok (err x)
caught panic = panic

unfoldable pub attempt : {A : Type 0} → Exec A → Exec (Result A)
attempt m e w = let (r, w') = m e w in (caught r, w')

-- Following a pointer.
unfoldable pub deref : {A : Type 0} → Option A → Exec A
deref none e w = (panic, w)
deref (some a) e w = (ok a, w)

abbrev pub fault_or : {A : Type 0} → Option Error → A → Result A
fault_or none a = ok a
fault_or (some x) a = err x

-- A round trip to the database that may fail.
unfoldable pub round_trip : Exec Unit
round_trip e w = (fault_or (e.fault w.step) tt, record w { step = w.step + 1 })

-- The same outside a transaction, where the commits of others show.
unfoldable pub fresh_round_trip : Exec Unit
unfolding round_trip
fresh_round_trip e w = round_trip e (record w { db = e.others w.step w.db })

abbrev pub settle : {A : Type 0} → Db → Result A × World → Result A × World
settle before (ok a, w) = (ok a, w)
settle before (err x, w) = (err x, record w { db = before })
settle before (panic, w) = (panic, record w { db = before })

-- Commit after the body, or the deferred rollback to what was there at the beginning.
unfoldable pub atomically : {A : Type 0} → Exec A → Exec A
atomically m e w = settle w.db (m e w)

-- A call of the bank through the interface. Others may commit between the caller's last commit and
-- the call.
unfoldable pub send : {A : Type 0} → BankCall → (BankClient → ℕ → Answer A) → Exec A
send c f e w =
    let now = e.others w.step w.db in
    (
      from_answer (f e.bank w.step),
      record w {
        db = now;
        step = w.step + 1;
        sent = record { call = c; seen = w.db; at = now } ∷ w.sent;
      },
    )
