-- ===== src/Middleware/Composed.antt =====
-- The chain of cmd/gateway/main.go: Timeout around Logging around Recovery around the router.
use ficmart_payment_gateway.Prelude.{
  ℕ, String, ◌≡◌, refl, sym, ◌∙◌, ◌≢◌, ◌⊎◌, inl, inr, Bool, true, false, Option, none, some, List,
  [], ◌∷◌, ◌++◌, arith, str_append,
}
use ficmart_payment_gateway.Failure.{
  Error, plain, new_timeout_error, new_internal_error, as_service_error,
}
use ficmart_payment_gateway.Failure.Response.{to_http_status}
use ficmart_payment_gateway.Bank.Retry.{Answer, reply}
use ficmart_payment_gateway.Handlers.{ErrorResponse}
use ficmart_payment_gateway.Middleware.{
  Head, Writer, new_writer, Act, set, status, chunk, act, act_all, write_header, End, returned,
  panicked, Run, write_error, recovered, recovery, LoggedWriter, act_logged, act_all_logged,
  logging,
}
use ficmart_payment_gateway.Middleware.Deadline.{Race, timed_out, panicking, Reach}
use ficmart_payment_gateway.Middleware.Ensures.{first_status, Reach-Passed}
use ficmart_payment_gateway.Middleware.Statuses.{IsLate, Reach-Told}

-- Logging leaves the calls on the writer as they are.
logged_inner :
    (acts : List Act) (w : Writer) (c : ℕ)
    → (act_all_logged acts (record { inner = w; status_code = c })).inner ≡ act_all acts w
logged_inner [] w c = refl
logged_inner (set name value ∷ rest) w c = logged_inner rest (act (set name value) w) c
logged_inner (status code ∷ rest) w c = logged_inner rest (write_header code w) code
logged_inner (chunk text ∷ rest) w c = logged_inner rest (act (chunk text) w) c

abbrev pub sends_no_status : List Act → Bool
sends_no_status [] = true
sends_no_status (status code ∷ rest) = false
sends_no_status (_ ∷ rest) = sends_no_status rest

-- The status is sent at most once, and before the body.
abbrev pub is_tidy : List Act → Bool
is_tidy [] = true
is_tidy (set name value ∷ rest) = is_tidy rest
is_tidy (_ ∷ rest) = sends_no_status rest

abbrev or_ok : Option ℕ → ℕ
or_ok none = 200
or_ok (some c) = c

logged_kept :
    (acts : List Act) (rw : LoggedWriter)
    → sends_no_status acts ≡ true
    → (act_all_logged acts rw).status_code ≡ rw.status_code
logged_kept [] rw h = refl
logged_kept (set name value ∷ rest) rw h = logged_kept rest (act_logged (set name value) rw) h
logged_kept (status code ∷ rest) rw h = ground (arith, h)
logged_kept (chunk text ∷ rest) rw h = logged_kept rest (act_logged (chunk text) rw) h

logged_status :
    (acts : List Act) (w : Writer)
    → is_tidy acts ≡ true
    → (act_all_logged acts (record { inner = w; status_code = 200 })).status_code
      ≡ or_ok (first_status acts)
logged_status [] w h = refl
logged_status (set name value ∷ rest) w h = logged_status rest (act (set name value) w) h
logged_status (status code ∷ rest) w h =
    logged_kept rest (record { inner = write_header code w; status_code = code }) h
logged_status (chunk text ∷ rest) w h =
    logged_kept rest (record { inner = act (chunk text) w; status_code = 200 }) h

-- For a handler that returns, and that sends its status at most once and before its body, Logging
-- does to the writer what the handler does, and logs the status that the handler sends first, or
-- 200 if it sends none.
pub logging-Agrees :
    (acts : List Act) (w : Writer)
    → is_tidy acts ≡ true
    → logging (record { acts = acts; end = returned }) w
      ≡ (act_all acts w, some (or_ok (first_status acts)))
unfolding logging
logging-Agrees acts w h = rw (logged_inner acts w 200, logged_status acts w h) refl

first_status-append :
    (xs ys : List Act) → first_status xs ≡ none → first_status (xs ++ ys) ≡ first_status ys
first_status-append [] ys h = refl
first_status-append (set name value ∷ xs) ys h = first_status-append xs ys h
first_status-append (status code ∷ xs) ys h = ground (arith, h)
first_status-append (chunk text ∷ xs) ys h = ground (arith, h)

first_status-kept :
    (xs ys : List Act) (c : ℕ) → first_status xs ≡ some c → first_status (xs ++ ys) ≡ some c
first_status-kept [] ys c h = ground (arith, h)
first_status-kept (set name value ∷ xs) ys c h = first_status-kept xs ys c h
first_status-kept (status code ∷ xs) ys c h = h
first_status-kept (chunk text ∷ xs) ys c h = h

module _ (text : Error → String) (to_upper : String → String)
    (marshal : ErrorResponse → Answer String)
    (marshals : (r : ErrorResponse) → (body : String) × (marshal r ≡ reply body)) where
  write_error-first :
      (x : Error)
      → first_status (write_error text to_upper marshal x) ≡ some (to_http_status (some x))
  unfolding write_error
  write_error-first x = rw ((marshals _).1) refl

  late_status : first_status (write_error text to_upper marshal new_timeout_error) ≡ some 408
  late_status =
      write_error-first new_timeout_error
      ∙ unfold to_http_status new_timeout_error as_service_error in refl

  failed_status :
      (x : Error)
      → first_status (write_error text to_upper marshal (new_internal_error x)) ≡ some 500
  failed_status x =
      write_error-first (new_internal_error x)
      ∙ unfold to_http_status new_internal_error as_service_error in refl

  -- Where a status under Recovery comes from.
  abbrev pub FromHandler : Run → ℕ → Type 0
  FromHandler run c =
      (first_status run.acts ≡ some c)
      ⊎ ((c ≡ 500)
          × (first_status run.acts ≡ none)
          × ((value : String) × (run.end ≡ panicked value)))

  recovered-FromHandler :
      (acts : List Act) (end : End) (o : Option ℕ) (c : ℕ)
      → first_status acts ≡ o
      → first_status (recovered text to_upper marshal acts end).acts ≡ some c
      → FromHandler (record { acts = acts; end = end }) c
  unfolding recovered
  recovered-FromHandler acts returned o c e h = inl h
  recovered-FromHandler acts (panicked value) (some d) c e h =
      inl (e ∙ sym (first_status-kept acts _ d e) ∙ h)
  recovered-FromHandler acts (panicked value) none c e h =
      let x = plain (str_append "panic: " value) in
      let late = write_error text to_upper marshal (new_internal_error x) in
      let s = first_status-append acts late e in
      let f = failed_status x in inr (ground (arith, s, f, h), e, (value, refl))

  recovered_returns :
      (acts : List Act) (end : End) → (recovered text to_upper marshal acts end).end ≡ returned
  unfolding recovered
  recovered_returns acts returned = refl
  recovered_returns acts (panicked value) = refl

  -- For any run of the router under Recovery and Timeout, in any interleaving of the handler with
  -- the deadline, where json.Marshal makes a text of every error response: Timeout does not panic;
  -- once it has answered itself, a head has been sent; and a head that has been sent has status
  -- 408, and then Timeout was answering, or the status that the router sends first, or 500 where
  -- the router panicked before it sent any.
  pub gateway_response :
      (run : Run) (s : Race)
      → Reach
          (write_error text to_upper marshal new_timeout_error)
          new_writer
          (recovery text to_upper marshal run)
          s
      → ((value : String) → s.phase ≢ panicking value)
        × (s.phase ≡ timed_out → s.writer.head ≢ none)
        × ((h : Head)
            → s.writer.head ≡ some h
            → ((h.status ≡ 408) × IsLate s.phase) ⊎ FromHandler run h.status)
  unfolding recovery
  gateway_response run s r =
      let passed = Reach-Passed r in
      let told = Reach-Told 408 late_status r in
      (
        λ v e.
            let end =
              sym (passed.fell v e) ∙ passed.same_end ∙ recovered_returns run.acts run.end in
            ground (arith, end),
        told.ended,
        λ h e. elim (told.sent h e) [
          | inl l ↦ inl l
          | inr f ↦ inr (recovered-FromHandler run.acts run.end _ h.status refl f)
        ],
      )
