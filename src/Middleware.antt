-- ===== src/Middleware.antt =====
-- internal/middleware and WriteError of internal/handlers/error_mapper.go. A handler's run is the
-- sequence of what it does to the http.ResponseWriter that it is given, and how it ends.
pub mod Deadline
pub mod Composed
pub mod Ensures
pub mod Statuses
use ficmart_payment_gateway.Prelude.{
  ℕ, String, Option, none, some, List, [], ◌∷◌, ◌++◌, false, if◌then◌else◌, str_eq, str_append,
}
use ficmart_payment_gateway.Failure.{Error, plain, new_internal_error}
use ficmart_payment_gateway.Failure.Response.{to_http_status, to_error_code}
use ficmart_payment_gateway.Bank.Retry.{Answer, reply, fault}
use ficmart_payment_gateway.Handlers.{ErrorResponse}

-- http.Header, with one value for a name.
abbrev pub Header : Type 0
Header = List (String × String)

-- Header.Set
abbrev pub set_value : String → String → Header → Header
set_value name value [] = (name, value) ∷ []
set_value name value ((n, v) ∷ rest) =
    let others = set_value name value rest in
    if str_eq n name then (name, value) ∷ rest else (n, v) ∷ others

pub record Head : Type 0 where
  pub status : ℕ
  pub header : Header

-- The server's http.ResponseWriter: the header map, the head once it is sent, and the body.
pub record Writer : Type 0 where
  pub header : Header
  pub head : Option Head
  pub body : List String

abbrev pub new_writer : Writer
new_writer = record { header = []; head = none; body = [] }

abbrev pub send_head : ℕ → Option Head → Writer → Writer
send_head code none w = record w { head = some (record { status = code; header = w.header }) }
send_head code (some h) w = w

-- WriteHeader: of several calls the first counts.
abbrev pub write_header : ℕ → Writer → Writer
write_header code w = send_head code w.head w

-- Write: without a head it sends 200 first.
abbrev pub write_body : String → Writer → Writer
write_body chunk w = let sent = write_header 200 w in record sent { body = sent.body ++ chunk ∷ [] }

-- A call of a handler on its writer.
pub data Act : Type 0 where
  set : String → String → Act
  status : ℕ → Act
  chunk : String → Act

abbrev pub act : Act → Writer → Writer
act (set name value) w = record w { header = set_value name value w.header }
act (status code) w = write_header code w
act (chunk text) w = write_body text w

abbrev pub act_all : List Act → Writer → Writer
act_all [] w = w
act_all (a ∷ rest) w = act_all rest (act a w)

-- How a handler ends; a panic's value is printed by %v.
pub data End : Type 0 where
  returned : End
  panicked : String → End

pub record Run : Type 0 where
  pub acts : List Act
  pub end : End

-- What is sent for a response that json.Marshal has made a text of, or has refused.
abbrev pub error_acts : ℕ → Answer String → List Act
error_acts code (reply body) = set "Content-Type" "application/json" ∷ status code ∷ chunk body ∷ []
error_acts code (fault x) = set "Content-Type" "application/json" ∷ status 500 ∷ []

-- `text` is an error's Error(), `to_upper` is strings.ToUpper and `marshal` is json.Marshal.
module _ (text : Error → String) (to_upper : String → String)
    (marshal : ErrorResponse → Answer String) where
  unfoldable pub write_error : Error → List Act
  unfolding to_http_status to_error_code
  write_error x =
      error_acts (to_http_status (some x))
        (marshal (record { success = false; code = to_error_code to_upper x; message = text x }))

  -- The deferred function of Recovery.
  unfoldable pub recovered : List Act → End → Run
  unfolding write_error new_internal_error
  recovered acts returned = record { acts = acts; end = returned }
  recovered acts (panicked value) = record {
    acts = acts ++ write_error (new_internal_error (plain (str_append "panic: " value)));
    end = returned;
  }

  unfoldable pub recovery : Run → Run
  unfolding recovered
  recovery run = recovered run.acts run.end

-- The responseWriter of logging.go.
pub record LoggedWriter : Type 0 where
  pub inner : Writer
  pub status_code : ℕ

abbrev pub act_logged : Act → LoggedWriter → LoggedWriter
act_logged (set name value) rw = record rw { inner = act (set name value) rw.inner }
act_logged (status code) rw = record { inner = write_header code rw.inner; status_code = code }
act_logged (chunk text) rw = record rw { inner = write_body text rw.inner }

abbrev pub act_all_logged : List Act → LoggedWriter → LoggedWriter
act_all_logged [] rw = rw
act_all_logged (a ∷ rest) rw = act_all_logged rest (act_logged a rw)

-- What is logged after the handler: nothing after a panic.
abbrev pub logged : End → LoggedWriter → Option ℕ
logged returned rw = some rw.status_code
logged (panicked value) rw = none

-- Logging on a writer: the writer after it, and the status that is logged.
unfoldable pub logging : Run → Writer → Writer × Option ℕ
logging run w =
    let rw = act_all_logged run.acts (record { inner = w; status_code = 200 }) in
    (rw.inner, logged run.end rw)
