-- ===== src/Lib.antt =====
-- The payment gateway (Go): it takes requests to authorize, capture, void and refund a payment,
-- records each in PostgreSQL before it calls the bank, and keeps requests with the same
-- idempotency key from being carried out twice.
--
-- The parts and the files that model them:
--   Domain          internal/domain/payment.go: the entity and its state machine. A method on
--                   `*Payment` returns the new record beside the error. Lifecycle has the diagram,
--                   Methods every sequence of calls, Invariant what they keep.
--   Failure         the error values of the program with wrapping, errors.Is and errors.As;
--                   Category and Response are internal/application/error_categorizer.go.
--   Bank            internal/infrastructure/bank: the data, in Retry the client that repeats calls,
--                   and in Client the HTTP client with the two together.
--   Store           the two tables of internal/db/migrations, as lists of rows.
--   Exec            how code acts on the world, and in Triple rules for what it ensures.
--   Postgres        internal/infrastructure/persistence/postgres: the statements of both
--                   repositories.
--   Services        internal/application/services: Idempotency and Transactions are helpers.go, the
--                   other modules one service each. Each `Ensures` says what its service ensures.
--                   Once is about requests whose key is taken, History about the calls of any list
--                   of requests, and Quiet about runs in which nothing fails.
--   Worker          internal/worker: Backoff and Resume are helpers.go with the operations of
--                   retry_worker.go, Retries is its queries and loops, Expiration the other
--                   worker, and Ensures what they ensure.
--   Handlers        internal/handlers: what is answered; Replies has the handlers.
--   Middleware      internal/middleware and WriteError of internal/handlers: a handler's run as its
--                   calls on a writer; Deadline is the timeout, two goroutines as a step relation.
--   Config          internal/config: the settings and how they are loaded.
--   Gateway         cmd/gateway/main.go and Connect: what is made of the settings, how the process
--                   starts and ends, and what it logs.
--   Examples        a small world in which the theorems are run, alone and, in Meddling, beside
--                   workers that write over what the services have stored.
--
-- How effects are modelled. An action takes an environment and a world (the tables, a step counter
-- and the calls sent to the bank) to a result (a value, an error, or a panic) and a world. The
-- environment answers, step by step, what the program does not decide: the clock, the failures of
-- statements, the commits of other requests and workers before a statement on the pool, a
-- transaction or a call of the bank, fresh identifiers, the bank, json.Marshal, fmt's %+v and
-- sha256. Theorems hold for every environment that meets the assumptions they name, which are
-- those of Exec/Fair: an error of a statement that failed for a reason outside the tables does not
-- claim a violated constraint or a missing row; others delete no key; others keep the rows well
-- formed.
--
-- Choices. Times and durations are integers of nanoseconds. A statement that fails changes nothing,
-- and so does a transaction whose commit fails. A transaction sees no commit of others after it has
-- begun; a key that is inserted twice is refused in the order of commits, where the server would
-- make the second transaction wait for the first. The wait loop runs for as many ticks as the
-- environment grants before its 30 seconds are over, so it ends, as in the source, by its timer.
-- The retry loop runs on the rounds that are left of MaxRetries, which is the bound of its `for`.
-- The UUID columns hold texts here. A worker's ticker is a number of ticks. Log lines are left out.
-- For the handlers, uuid.Parse, strings.ToUpper and an error's Error() are parameters.
--
-- The theorems about runs in which nothing fails assume IsQuiet of Services/Quiet: no statement
-- fails and nobody else commits. The calls that the retry worker repeats under a key are not among
-- the requests of Services/History, which are those of the four services.
--
-- A call of a timeoutWriter's method is one step of the handler's goroutine, and what the handler
-- does after Timeout has returned is left out. For the bank's client, the network and encoding/json
-- are parameters; for the settings, koanf, the validator and pgxpool are.
--
-- Not modelled: the generated API (internal/api), which is generated code and the pages of its
-- documentation; tests, mocks and fixtures. Of cmd/gateway/main.go, that the workers run beside the
-- server and stop with it is left out, since each is modelled by itself.
pub mod Bank
pub mod Command
pub mod Config
pub mod Domain
pub mod Examples
pub mod Exec
pub mod Failure
pub mod Gateway
pub mod Handlers
pub mod Middleware
pub mod Postgres
pub mod Prelude
pub mod Services
pub mod Store
pub mod Worker
