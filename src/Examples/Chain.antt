-- ===== src/Examples/Chain.antt =====
-- The middleware and the process, run.
use ficmart_payment_gateway.Prelude.{String, ◌≡◌, ◌≢◌, refl, ◌⊎◌, false, none, some, List, [], ◌∷◌}
use ficmart_payment_gateway.Prelude.Integer.{ℤ, pos}
use ficmart_payment_gateway.Failure.{
  Error, plain, deadline_exceeded, sentinel, new_timeout_error, new_internal_error,
}
use ficmart_payment_gateway.Failure.Response.{to_http_status, to_error_code}
use ficmart_payment_gateway.Handlers.{ErrorResponse}
use ficmart_payment_gateway.Bank.Retry.{Answer, reply}
use ficmart_payment_gateway.Middleware.{
  Head, Writer, new_writer, Act, set, status, chunk, act_all, returned, panicked, Run, write_error,
  recovery, logging,
}
use ficmart_payment_gateway.Middleware.Deadline.{
  Race, served, timed_out, panicking, handling, hand_over, Reach, begun, later,
}
use ficmart_payment_gateway.Middleware.Ensures.{without_header, served_without_header}
use ficmart_payment_gateway.Middleware.Statuses.{IsLate}
use ficmart_payment_gateway.Middleware.Composed.{FromHandler, logging-Agrees, gateway_response}
use ficmart_payment_gateway.Config.{env_key, parse_log_level, level_warn, Config}
use ficmart_payment_gateway.Config.Pool.{to_int32, pgx_config}
use ficmart_payment_gateway.Gateway.{
  Driver, serve_ended, connect, main, any_line, tells_failure, main_tells_closed,
}

-- A handler that answers with a content type, a status and a body.
abbrev answering_run : Run
answering_run = record {
  acts = set "Content-Type" "application/json" ∷ status 201 ∷ chunk "{}" ∷ [];
  end = returned;
}

abbrev written : Writer
written = record {
  header = [];
  head = some (record { status = 201; header = [] });
  body = "{}" ∷ [];
}

abbrev ended : Race
ended = record {
  writer = written;
  h = ("Content-Type", "application/json") ∷ [];
  code = 201;
  todo = [];
  end = returned;
  phase = served;
}

ended_reached : (late : List Act) → Reach late new_writer answering_run ended
ended_reached late =
    later
      (later
        (later
          (later begun (
            handling (set "Content-Type" "application/json") (status 201 ∷ chunk "{}" ∷ []) refl
              tt))
          (handling (status 201) (chunk "{}" ∷ []) refl tt))
        (handling (chunk "{}") [] refl tt))
      (hand_over refl refl refl)

served_without_header_example :
    (ended.writer ≡ act_all (without_header answering_run.acts) new_writer)
    × (answering_run.end ≡ returned)
served_without_header_example = served_without_header (ended_reached []) refl

logging-Agrees_example :
    logging answering_run new_writer ≡ (act_all answering_run.acts new_writer, some 201)
logging-Agrees_example = logging-Agrees answering_run.acts new_writer refl

abbrev show : Error → String
show x = "error"

abbrev upper : String → String
upper s = s

abbrev marshal : ErrorResponse → Answer String
marshal r = reply "{}"

-- A router that panics before it has written.
abbrev panicking_run : Run
panicking_run = record { acts = []; end = panicked "nil" }

-- The state in which the panic has been answered.
abbrev failed_race : Race
failed_race = record {
  writer = record {
    header = [];
    head = some (record { status = 500; header = [] });
    body = "{}" ∷ [];
  };
  h = ("Content-Type", "application/json") ∷ [];
  code = 500;
  todo = [];
  end = returned;
  phase = served;
}

failed_reached :
    Reach
      (write_error show upper marshal new_timeout_error)
      new_writer
      (recovery show upper marshal panicking_run)
      failed_race
unfolding recovery ficmart_payment_gateway.Middleware.recovered write_error to_http_status
    to_error_code new_internal_error ficmart_payment_gateway.Failure.as_service_error
failed_reached =
    later
      (later
        (later
          (later begun (
            handling (set "Content-Type" "application/json") (status 500 ∷ chunk "{}" ∷ []) refl
              tt))
          (handling (status 500) (chunk "{}" ∷ []) refl tt))
        (handling (chunk "{}") [] refl tt))
      (hand_over refl refl refl)

gateway_response_example :
    ((value : String) → failed_race.phase ≢ panicking value)
    × (failed_race.phase ≡ timed_out → failed_race.writer.head ≢ none)
    × ((h : Head)
        → failed_race.writer.head ≡ some h
        → ((h.status ≡ 408) × IsLate failed_race.phase)
          ⊎ FromHandler show upper marshal (λ r. ("{}", refl)) panicking_run h.status)
gateway_response_example =
    gateway_response show upper marshal (λ r. ("{}", refl)) panicking_run failed_race failed_reached

abbrev settings : Config
settings = record {
  primary = record { env = "test" };
  server = record {
    port = "8080";
    read_timeout = pos 15000000000;
    write_timeout = pos 15000000000;
    idle_timeout = pos 60000000000;
  };
  database = record {
    host = "localhost";
    port = pos 5432;
    user = "u";
    password = "p";
    name = "gateway";
    ssl_mode = "disable";
    max_open_conns = pos 25;
    max_idle_conns = pos 5;
    conn_max_lifetime = pos 300000000000;
    conn_max_idle_time = pos 300000000000;
  };
  bank_client = record {
    bank_base_url = "http://localhost:8787";
    bank_conn_timeout = pos 30000000000;
  };
  retry = record { base_delay = pos 1; max_retries = pos 5; max_backoff = pos 10 };
  logger = record { level = "info" };
  worker = record { interval = pos 30000000000; batch_size = pos 100 };
}

abbrev driver : Driver
driver = record {
  parse_config = λ s. reply (record {
    conn_string = s;
    max_conns = pos 4;
    min_conns = pos 0;
    max_conn_lifetime = pos 0;
    max_conn_idle_time = pos 0;
    health_check_period = pos 60000000000;
  });
  new_with_config = λ pool. none;
  ping = none;
}

abbrev print : ℤ → String
print n = "0"

abbrev port_taken : Error
port_taken = plain "address already in use"

reached_database : (connect print driver settings.database).1 ≡ none
unfolding connect pgx_config
reached_database = refl

main_tells_closed_example :
    let (lines, code) =
      main print (λ x. false) (reply settings) driver (serve_ended (some port_taken)) none in
    (code ≡ 0) × (any_line tells_failure lines ≡ false)
main_tells_closed_example =
    main_tells_closed print (λ x. false) settings driver port_taken none reached_database

env_key_test : env_key (λ s. s) "GATEWAY_database__max_open_conns" ≡ "database.max_open_conns"
unfolding env_key
env_key_test = refl

-- A variable without the prefix keeps its name.
other_key_test : env_key (λ s. s) "GATE_a__b___c" ≡ "GATE_a.b._c"
unfolding env_key
other_key_test = refl

level_test : parse_log_level (λ s. s) "warning" ≡ level_warn
unfolding parse_log_level
level_test = refl

-- A limit of 2 ^ 32 connections becomes 0.
wrapped_test : to_int32 (pos 4294967296) ≡ pos 0
unfolding to_int32
wrapped_test = refl
