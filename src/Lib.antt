-- ===== src/Lib.antt =====
-- A banking server in Go: users hold balances, and credits, debits, transfers and rollbacks move
-- money between them. This library models its core and proves what the operations do.
--
-- The parts and their files:
--   Domain        internal/domain: balances, transactions, requests, users, events, audit entries,
--                 and their validation. Domain/Total and Domain/Change say what "the money of the
--                 bank" and "one row changed" mean.
--   Repository    internal/repository and internal/service/cache.go: the database tables, the
--                 Redis cache, and the statements that the services run on them.
--                 Repository/Constraints has the checks of migrations/002, 003, 004 and 008,
--                 Repository/Numeric the rounding of the columns of amounts.
--   Service       internal/service/balance.go (Service/Balance) and transaction.go
--                 (Service/Transaction): `GetCurrent`, `Initialize`, `CreditSync`, `DebitSync`,
--                 `TransferSync`, `GetByID`, `RollbackSync`, `RollbackByAdmin`. Service/User,
--                 Service/Auth, Service/Event and Service/Projector are user.go, auth.go, event.go
--                 and projector.go. The files named
--                 ...Laws, Moving, Write, RollbackLegs, RollbackEffects, Access, Responses, and
--                 Service/Quiet and Service/Coherence, have the proofs.
--   Auth          internal/auth: passwords and tokens. bcrypt and golang-jwt are parameters, whose
--                 contracts are the records `IsBcrypt` and `IsJwt`; Auth/Samples has a library that
--                 keeps them.
--   Worker        internal/worker/pool.go and types.go: jobs, and the pool as a machine whose
--                 workers, clients and owner take turns in any order; the adapter of
--                 cmd/server/main.go that hands a job to the transaction service.
--   Http          internal/api/middleware/auth.go and rate_limit.go: who passes, and how often;
--                 internal/api/v1/balances.go (Http/Transactions), scheduled_transactions.go
--                 (Http/Schedules) and users.go (Http/Users): the status and the value that a handler answers with. `uuid.Parse`
--                 is a parameter, of which the theorems assume that it undoes `UUID.String`. A body
--                 is what decoding its JSON gives.
--   Breaker       internal/utils/circuit_breaker.go: the breaker's state machine and the registry;
--                 Breaker/Middleware is internal/api/middleware/circuit_breaker.go. Calls run one
--                 after the other: the atomic loads and stores of one call, between which the
--                 program lets another caller step, are taken together.
--   Scheduled     internal/domain, internal/repository and internal/service/scheduled_transaction*.go
--                 in Domain/Scheduled, Repository/Scheduled and Service/Scheduled. `time.AddDate` is
--                 a parameter, of which the dates' theorems assume that it moves time forward.
--   Rbac          internal/api/middleware/rbac.go: the role checks; `UUID.String` is a parameter.
--   Base          numbers, signed integers, dictionaries and tests shared by the others.
--
-- State. `World` holds the tables, the cache, the view of an open database transaction, the
-- counter of processed transactions, and the number of outside calls made so far. An operation
-- is a function from a world to a result and a world: the result is a value or an error, with
-- the context that `fmt.Errorf("...: %w", err)` adds, less the numbers that some texts quote.
-- Every outside call (statement, cache command, `uuid.New`, `time.Now`) takes one tick, and the
-- environment `Env`, a parameter of every theorem, says for each tick whether the call fails and
-- what it gives. A call that fails changes nothing. An expired cache entry is a failing read.
--
-- Amounts are signed integers that count tenths of a cent. The program's values are float64, of
-- which finer amounts and the rounding of sums are not modelled; a value that is written to a
-- NUMERIC(18,2) or DECIMAL(15,2) column is rounded to cents, half away from zero, each row alone.
-- Ids are numbers with 0 for the nil id, and times are
-- numbers. The operations of the services are modelled one at a time.
--
-- A response channel of a job has room for one result, and a worker that cannot send waits or gives
-- up; the machine's log is the program's log of jobs. `strings.ToLower` is taken on ASCII letters.
--
-- Not modelled: the HTTP handlers of registration, login and lists, routing, the tickers of the
-- background workers, sessions, logging, tracing, metrics other than the counters, start-up, and
-- the queries that list or count rows.
pub mod Base
pub mod Domain
pub mod Repository
pub mod Service
pub mod Auth
pub mod Worker
pub mod Http
pub mod Breaker
pub mod Rbac
