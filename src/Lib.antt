-- ===== src/Lib.antt =====
-- SimpleBank: its money and identity store (internal/db and internal/db/sqlc), the constraints of
-- its schema (internal/db/migrations), its HTTP API (internal/api), its tokens (internal/token),
-- its jobs (internal/worker), its notification hub and listener (internal/notification), its
-- configuration (internal/config) and its process (cmd/app).
--
-- The parts. A handler checks a request, asks the store and turns the answer into a reply. The
-- store (internal/db) runs each operation as one transaction: it composes SQL statements
-- (internal/db/sqlc), classifies their errors, and commits or rolls back. A transfer also writes a
-- notification for either party and a NOTIFY, which the listener receives and publishes to the
-- hub, and the hub hands to the streams of its owner. A login and a renewal make tokens and a
-- cookie, and keep the session of the refresh token in the store. A registration queues jobs,
-- whose workers write verification codes and send mails. The process reads the configuration,
-- opens the pool, starts the listener and the worker, runs the server, and asks them to stop in
-- turn.
--
-- The files.
-- Prelude: Boolean tests, signed integers with Go's wrap-around, lists as tables.
-- Currency, Errors: internal/currency/currency.go and internal/db/errors.go.
-- Sqlc: one file for each of internal/db/sqlc/*.sql.go, one function per statement under its name
--   in snake case. Sqlc/Models holds the rows and `Db`, the tables; Sqlc/Tx the steps of a
--   transaction. Sqlc/Effects and Sqlc/Accepts say what a statement did and when it is accepted.
-- Store: internal/db/*_tx.go. `transfer_tx` is `TransferTx`, `create_account_tx`
--   `CreateAccountTx`, and so on; `exec_tx` is `execTx`. Under Store/Transfer the steps of a
--   transfer are followed to the ways in which a call can end. Store/Transfer/Interleaved is the
--   machine of clients that wait for each other's row locks.
-- Ledger: the invariant of accounts, entries and transfers, and what transfers and openings do to
--   it. Ledger/Book is the abstract view, a book of balances with the steps that it permits.
-- Config: internal/config/config.go, the limits; Config/Settings reads and validates the rest.
-- Token: internal/token, the claims (`Payload`) and `JwtMaker`.
-- History: sequences of calls of the store, and what holds after any of them.
-- Api: internal/api. Api/Handler is what the handlers share; Api/Accounts and Api/Transfers are
--   account.go and transfer.go, Api/Users, Api/Login and Api/Tokens user.go, Api/Cookie
--   session_cookie.go, Api/Notifications notification.go and Api/Stream its event stream,
--   Api/Origin the same-origin guard of middleware.go with the forwarding headers of server.go,
--   Api/Routes routes.go with the middleware of server.go, Api/Validator validator.go, Api/Meta
--   meta.go with the probes, Api/Spa spa.go, and Api/Errors errors.go.
-- Worker: internal/worker/verify_email.go and registration_notice.go.
-- Hub: internal/notification/hub.go, with the reading side of a stream.
-- Listener: internal/notification/listener.go, its loop, its reconnection and its lifecycle.
-- Smtp: internal/mail/smtp.go.
-- App: cmd/app/main.go, the calls by which the parts of the process are started and asked to stop,
--   in their order and with what they answer. App/Startup makes the parts from the command, and
--   has the healthcheck.
-- Tests: a small bank, and a run of each result's hypotheses.
--
-- How the state is modelled. `Db` holds each table as a list, newest row first, the queue of
-- pg_notify, and the row locks that the running transaction holds. A statement checks the
-- constraints of its table in the order in which PostgreSQL does, and fails with the code and the
-- constraint's name. A transaction is a function from the tables to an error or to an answer with
-- the new tables. A uuid is the number of its 128 bits, whose order is that of its text; a time
-- is a number of microseconds since Go's zero time; an amount is an integer, and where Go
-- subtracts or negates int64 the wrap-around is written out. What the server draws for one
-- transaction, its uuidv7() defaults, now() and clock_timestamp(), is the argument `Pg`.
--
-- What another package or the outside answers is an argument: a decoder or a function in a record
-- (`Net`, `Http`, the codec of cursors, the JWT library), with what it documents as named laws
-- where a result needs them, or a script of the answers (the connections of the listener, the
-- starts and stops of the services), over which a loop is structural.
--
-- Bounds. 2^53 - 1 is the largest amount and balance, 24 hours the window of the daily limit, 15
-- minutes the life of a verification code, and 16 the buffer of a stream. The delays of a
-- reconnection double from 100 milliseconds up to 5 seconds. Every definition of the program is
-- structural; only the client that walks through the pages of notifications has fuel, and one page
-- more than there are rows is enough for it.
--
-- What is not modelled. In the store a transaction takes effect at one point, as the row locks and
-- unique keys make concurrent ones do; of their interleaving only the row locks of transfers are
-- modelled. Connections, timeouts and contexts are not, beyond the order of starting and stopping,
-- where an interrupted start and its Stop are calls whose effects may come in either order; nor is
-- the result that Go returns beside an error. What echo's limit of bodies answers before a handler
-- runs is an argument, and what a handler then reads of a body is a decoder's answer. `pgx`, `echo`, the validator, JWT, json,
-- base64, url parsing, river and the mail and password libraries are not read. Left out are the
-- headers and timers of the event stream, security headers and logs, passwords and random texts,
-- the runner of the migrations, the rates of the limiters and the command line: they are input and
-- output, or configuration of those libraries.
pub mod Prelude
pub mod Currency
pub mod Errors
pub mod Sqlc
pub mod Config
pub mod Token
pub mod Store
pub mod Ledger
pub mod History
pub mod Api
pub mod Worker
pub mod Hub
pub mod Listener
pub mod Smtp
pub mod App
pub mod Tests
