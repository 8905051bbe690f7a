-- ===== src/Gateway.antt =====
-- cmd/gateway/main.go, with Connect of internal/infrastructure/persistence/postgres/connection.go: how
-- the parts are put together, how the process starts and how it ends.
use ficmart_payment_gateway.Prelude.{
  ℕ, String, ◌≡◌, refl, ◌∙◌, Bool, true, false, ◌||◌, Option, none, some, List, [], ◌∷◌, ◌++◌,
  arith, if◌then◌else◌, str_append,
}
use ficmart_payment_gateway.Prelude.Integer.{ℤ}
use ficmart_payment_gateway.Failure.{Error}
use ficmart_payment_gateway.Domain.{Time}
use ficmart_payment_gateway.Bank.Retry.{
  Answer, reply, fault, RetryBankClient, new_retry_bank_client,
}
use ficmart_payment_gateway.Bank.Client.{HttpBankClient, new_bank_client}
use ficmart_payment_gateway.Worker.Backoff.{RetryWorker}
use ficmart_payment_gateway.Config.{Config, DatabaseConfig}
use ficmart_payment_gateway.Config.Pool.{PoolConfig, pgx_config}

pub record Server : Type 0 where
  pub addr : String
  pub read_timeout : Time
  pub write_timeout : Time
  pub idle_timeout : Time

-- NewRetryWorker, from the settings that it keeps.
abbrev pub new_retry_worker : Time → ℤ → ℤ → ℤ → RetryWorker
new_retry_worker interval batch_size max_retries max_backoff = record {
  interval = interval;
  batch_size = batch_size;
  max_retries = max_retries;
  max_backoff = max_backoff;
}

pub record ExpirationWorker : Type 0 where
  pub interval : Time

abbrev pub new_expiration_worker : Time → ExpirationWorker
new_expiration_worker interval = record { interval = interval }

-- What main makes of the settings; all four services and both workers hold the one bank client.
pub record Gateway : Type 0 where
  pub bank_client : HttpBankClient
  pub retry_bank_client : RetryBankClient
  pub request_timeout : Time
  pub server : Server
  pub retry_worker : RetryWorker
  pub expiration_worker : ExpirationWorker

unfoldable pub new_gateway : Config → Gateway
unfolding new_bank_client new_retry_bank_client
new_gateway cfg = record {
  bank_client = new_bank_client cfg.bank_client.bank_base_url cfg.bank_client.bank_conn_timeout;
  retry_bank_client = new_retry_bank_client cfg.retry.base_delay cfg.retry.max_retries;
  request_timeout = cfg.server.read_timeout;
  server = record {
    addr = str_append "0.0.0.0:" cfg.server.port;
    read_timeout = cfg.server.read_timeout;
    write_timeout = cfg.server.write_timeout;
    idle_timeout = cfg.server.idle_timeout;
  };
  retry_worker =
      new_retry_worker cfg.worker.interval cfg.worker.batch_size cfg.retry.max_retries
        cfg.retry.max_backoff;
  expiration_worker = new_expiration_worker cfg.worker.interval;
}

-- A line of the log.
pub data Line : Type 0 where
  not_loaded : Error → Line
  starting : String → String → Line
  no_pool_config : Error → Line
  connecting : String → ℤ → String → Line
  no_pool : Error → Line
  no_ping : Error → Line
  connected : ℤ → ℤ → Line
  not_connected : Error → Line
  serving : String → Line
  shutting_down : Line
  server_failed : Error → Line
  forced_down : Error → Line
  closing_pool : Line
  exited : Line

-- pgxpool's functions.
pub record Driver : Type 0 where
  pub parse_config : String → Answer PoolConfig
  pub new_with_config : PoolConfig → Option Error
  pub ping : Option Error

-- Connect: its lines, and the error that it returns.
abbrev pub pinged : PoolConfig → Option Error → List Line × Option Error
pinged pool (some x) = (no_ping x ∷ [], some x)
pinged pool none = (connected pool.max_conns pool.min_conns ∷ [], none)

abbrev pub opened : Driver → PoolConfig → Option Error → List Line × Option Error
opened v pool (some x) = (no_pool x ∷ [], some x)
opened v pool none = pinged pool v.ping

abbrev pub configured : Driver → DatabaseConfig → Answer PoolConfig → List Line × Option Error
configured v c (fault x) = (no_pool_config x ∷ [], some x)
configured v c (reply pool) =
    let (lines, failed) = opened v pool (v.new_with_config pool) in
    (connecting c.host c.port c.name ∷ lines, failed)

unfoldable pub connect : (ℤ → String) → Driver → DatabaseConfig → List Line × Option Error
unfolding pgx_config
connect print v c = configured v c (pgx_config print v.parse_config c)

-- What the `select` sees first: a signal, or ListenAndServe's result.
pub data Ending : Type 0 where
  signalled : Ending
  serve_ended : Option Error → Ending

abbrev pub tells_failure : Line → Bool
tells_failure (server_failed x) = true
tells_failure _ = false

abbrev pub any_line : (Line → Bool) → List Line → Bool
any_line test [] = false
any_line test (l ∷ ls) = test l || any_line test ls

any_line-append :
    (test : Line → Bool) (ls ms : List Line)
    → any_line test (ls ++ ms) ≡ (any_line test ls || any_line test ms)
any_line-append test [] ms = refl
any_line-append test (l ∷ ls) ms = ground (arith, any_line-append test ls ms)

-- `is_closed` is errors.Is(err, http.ErrServerClosed).
module _ (print : ℤ → String) (is_closed : Error → Bool) where
  abbrev pub ending_lines : Ending → List Line
  ending_lines signalled = shutting_down ∷ []
  ending_lines (serve_ended none) = []
  ending_lines (serve_ended (some x)) = if is_closed x then server_failed x ∷ [] else []

  abbrev pub shutdown_lines : Option Error → List Line
  shutdown_lines none = exited ∷ closing_pool ∷ []
  shutdown_lines (some x) = forced_down x ∷ exited ∷ closing_pool ∷ []

  -- main after the connection: os.Exit(1), or the server until its end and the return of main.
  unfoldable pub after_connect : Config → Ending → Option Error → Option Error → List Line × ℕ
  unfolding new_gateway
  after_connect cfg ending shutdown (some x) = (not_connected x ∷ [], 1)
  after_connect cfg ending shutdown none =
      (serving (new_gateway cfg).server.addr ∷ (ending_lines ending ++ shutdown_lines shutdown), 0)

  -- The lines of a run of the process, and its exit code.
  unfoldable pub main : Answer Config → Driver → Ending → Option Error → List Line × ℕ
  unfolding after_connect connect
  main (fault x) v ending shutdown = (not_loaded x ∷ [], 1)
  main (reply cfg) v ending shutdown =
      let (lines, failed) = connect print v cfg.database in
      let (rest, code) = after_connect cfg ending shutdown failed in
      (starting cfg.server.port cfg.logger.level ∷ (lines ++ rest), code)

  ending_told :
      (x : Error) (shutdown : Option Error)
      → any_line tells_failure (ending_lines (serve_ended (some x)) ++ shutdown_lines shutdown)
        ≡ is_closed x
  ending_told x none = ground arith
  ending_told x (some y) = ground arith

  opened_quiet :
      (v : Driver) (pool : PoolConfig)
      → any_line tells_failure (opened v pool (v.new_with_config pool)).0 ≡ false
  opened_quiet v pool = ground arith

  connect_quiet :
      (v : Driver) (c : DatabaseConfig) → any_line tells_failure (connect print v c).0 ≡ false
  unfolding connect
  connect_quiet v c = by_pool (pgx_config print v.parse_config c)
    where
      by_pool : (a : Answer PoolConfig) → any_line tells_failure (configured v c a).0 ≡ false
      by_pool (fault x) = refl
      by_pool (reply pool) = opened_quiet v pool

  -- Where the settings are loaded, the database is reached and ListenAndServe returns an error:
  -- the process exits with code 0, and the error is logged if and only if it is
  -- http.ErrServerClosed.
  pub main_tells_closed :
      (cfg : Config) (v : Driver) (x : Error) (shutdown : Option Error)
      → (connect print v cfg.database).1 ≡ none
      → let (lines, code) = main (reply cfg) v (serve_ended (some x)) shutdown in
        (code ≡ 0) × (any_line tells_failure lines ≡ is_closed x)
  unfolding main after_connect
  main_tells_closed cfg v x shutdown up = rw up (
    refl,
    any_line-append tells_failure (connect print v cfg.database).0 _
        ∙ rw (connect_quiet v cfg.database) (ending_told x shutdown),
  )
