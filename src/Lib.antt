-- ===== src/Lib.antt =====
-- Verification of the online banking backend: the money operations (transfers with their one-time
-- codes, deposits, withdrawals, reversals, card payments, scheduled payments, and the ledger that all
-- of them write), sign-up and sign-in, the back office, and rate limiting. The code is under
-- backend/app, where the paths below start; the model follows the service methods statement by
-- statement.
--
-- The program's parts. The rate limiter (core/rate_limiter.py, core/middleware.py) lets a request in.
-- The dependencies of its router find the signed-in user (modules/auth/dependencies.py), and the
-- router calls one method of a service (modules/{transactions,cards,scheduled_payments,auth,admin,
-- beneficiaries,customers}/service.py). A service reads and writes rows through repositories on one
-- database session per request, commits or rolls back, raises a domain error (core/exceptions.py) or
-- returns, and queues background messages (background_tasks/tasks.py) after its commit. Requests meet
-- only in the database: in rows that another request has committed while this one waited for a row
-- lock, or between an unlocked read and its write. Two background jobs call the same code.
--
-- The files:
--   Prelude         Boolean tests, signed numbers (balances) and the library names all others use
--   Table           a table as a list of rows by key: lookup, insert, update, and their laws
--   Db              the rows, errors and CHECK/UNIQUE constraints: modules/*/models.py,
--                   core/exceptions.py; in Db.Responses the HTTP status of an error
--   Session         db/session.py: actions that see a database, commit it and raise; in Session.Keeps
--                   one rule per construct for invariants, in Session.Atomic the shape "check, write
--                   once, commit" that most operations have, in Session.Reports actions that
--                   send an audit entry or fail
--   Ledger          a balance change with its ledger entry: modules/ledger_entries/repository.py
--   Transactions    modules/transactions/repository.py and modules/exchange_rates/repository.py
--   Transfers       modules/transactions/service.py up to execute_scheduled_transfer: Validation
--                   (_validate_and_create_pending_transaction), Access
--                   (_get_owned_pending_transaction), Challenge (initiate_transfer, resend_otp),
--                   Confirm (confirm_transfer), Locked and Execution (_execute_locked_transfer,
--                   execute_scheduled_transfer); the other files below it are proofs
--   Teller          TransactionService.deposit and withdraw
--   Reversal        TransactionService.reverse_transaction
--   Cards           modules/cards/service.py, and the card numbers of modules/cards/repository.py
--   Auth            modules/auth/service.py, modules/auth/repository.py, modules/users/repository.py:
--                   RegistrationChecks and Registration (register, confirm_registration), Login,
--                   TwoFactor, Refresh, ResetTokens and Passwords, Access
--                   (modules/auth/dependencies.py); Cookies and Router the endpoints of
--                   modules/auth/router.py with the refresh token's cookie; in Browser a browser that
--                   uses them; Crypto is the parameter for third-party code
--   Accounts        modules/accounts/repository.py, modules/customers/service.py, and the ownership
--                   checks modules/{accounts,cards,beneficiaries}/dependencies.py
--   Beneficiaries   modules/beneficiaries/service.py
--   Admin           modules/admin/service.py: Checks, Customers, Accounts, Cards, Beneficiaries, Views;
--                   Router has the endpoints of modules/admin/router.py that write, Movements any
--                   sequence of the operations that move money
--   Portal          the routers of customers, modules/{transactions,cards,customers,beneficiaries,
--                   scheduled_payments,accounts,exchange_rates}/router.py: Router has the endpoints that
--                   write, Views those that read, Transactions the queries of TransactionService
--   Pages           a query's rows and one page of them
--   Notifications   send_notification_task of background_tasks/tasks.py, with its templates
--   App             Config: the guard of core/config.py; ClientIp: get_client_ip of
--                   modules/auth/dependencies.py; Middleware: core/middleware.py in the order of
--                   main.py
--   RateLimit       core/rate_limiter.py (InMemory, Redis), and in Limits RateLimitMiddleware and
--                   _build_rate_limits of main.py; History is the promise of a limiter
--   Schedules       modules/scheduled_payments, and the two jobs of background_tasks/tasks.py: Sweep
--                   (_execute_scheduled_payments_async) and Expiry (_expire_stale_transactions_async)
--   Bank            the requests of the services, the API and the jobs as one data type, and sequences
--                   of them
--   Tests           a sample bank, and every theorem with hypotheses applied to it
--   The files of a folder that are not named here hold proofs.
--
-- How it is modelled:
--   - A method is an action on a session: the rows that the session sees, the rows that are
--     committed, and the messages sent. It returns a value or an error, and either way a session.
--     A flush only sends attribute writes to the database, so the model writes at once. A commit
--     checks the constraints of the rows; those that fail make an IntegrityError, which is not a
--     domain error. `try: ... except DomainError` restores the committed rows and runs its handler.
--   - Waiting for a lock (SELECT ... FOR UPDATE) is an action that applies `others`, any function
--     from databases to databases: what other requests commit before the lock is granted. The
--     theorems hold for every `others`, or name what they need of it. In Bank it is any sequence of
--     requests of the same bank. While a lock is held, no other request writes the locked rows.
--     confirm_transfer has a second such place, between its unlocked reads and its writes, and the
--     sweep of abandoned transfers has one between its query and its writes. The execution of a
--     transfer has three (Moment): while it waits for its locks, after the rollback of a failure, which
--     releases them, and between the reload, which takes none, and the write of the failure.
--   - In the operations that take no lock and are not named here (the back office without its money
--     operations, profiles, saved recipients, the blocking of cards, schedules, new codes, logins and
--     passwords), the reads and the writes are one step: no other request commits between them.
--   - ORDER BY leaves open the order of rows with one created_at: the order in which the database
--     returns the rows of a paged query is an argument.
--   - UUIDs, account numbers, currencies, code hashes, users and instants (in seconds) are natural
--     numbers: the code only compares them, and orders instants. Amounts are in cents, so a Decimal
--     with two places is a natural number, and balances are integers. Rates count units of 10^-8.
--   - What a request draws from outside is an argument: a fresh id, a reference number and the
--     time are a Stamp, the hash of a fresh one-time code is a number, and the SHA-256 of the code
--     that a customer enters is the parameter hash_otp_code, of which nothing is assumed.
--   - argon2, jose, pyotp, Fernet and SHA-256 are the record Crypto, a parameter of the sign-in code.
--     Nothing is assumed of them but, for password resets, that the claims of a token do not
--     depend on when it is read (IsSteady). Raw tokens, passwords, their hashes and secrets are
--     numbers; an e-mail address is the number of its lower-case form. What a login draws at random
--     is a Draw.
--   - In register, confirm_registration, create_customer and refresh, `others` stands between the reads,
--     which take no lock, and the writes. The IntegrityError of a lost race becomes a ConflictError.
--   - Texts of the rate limiter are lists of code points, times are in the unit of its windows. The
--     Redis server is a record with INCR and EXPIRE, of which nothing is assumed.
--   - An endpoint of the auth router answers with a body and what it does to the refresh token's
--     cookie. A browser keeps the cookie until max_age is over, and sends it while it has it.
--   - What is inside of the ASGI middleware is a function from a scope to the messages that it sends, and
--     whether it then raises. Starlette answers an exception that no other handler has answered
--     outside of the middleware, by the handler for Exception, unless a response was begun.
--     Metrics are taken to be enabled. The template of a path, a fresh request id and the JSON of a
--     refusal are arguments.
--   - The text of a notification is the list of its parts: fixed words, and the values of placeholders.
--   - Every definition is structural recursion; no fuel is used.
--
-- Not modelled: the identity map of an AsyncSession, by which an unlocked read of a row that the
-- session has read before returns the old values (locked reads refresh them), the 28 digits of
-- Decimal arithmetic and the overflow of NUMERIC(18,2) (requests are limited to 10^9, far below),
-- the UNIQUE constraints of reference numbers and of reversals (ids and numbers are fresh, and
-- reversals are checked under a lock), free text (notes, merchants, names, free-text search), the
-- lists of deleted rows and of audit logs, durations and the other metrics, logging, the store of
-- codes for tests, the parsing of requests, the PDF statement, the mail and SMS providers, the
-- endpoints of test environments, and the frontend.
pub mod Prelude
pub mod Table
pub mod Db
pub mod Session
pub mod Pages
pub mod Ledger
pub mod Transactions
pub mod Transfers
pub mod Teller
pub mod Reversal
pub mod Cards
pub mod Accounts
pub mod Beneficiaries
pub mod Admin
pub mod Auth
pub mod Notifications
pub mod RateLimit
pub mod Schedules
pub mod Portal
pub mod Bank
pub mod App
mod Tests
