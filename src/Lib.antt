-- ===== src/Lib.antt =====
-- B4FastAPI (src/backend/app): a FastAPI backend with accounts, sessions, API keys, an inbox,
-- support conversations, a durable mail outbox and hosted billing over Redis and a SQL database.
--
-- Prelude holds what the modules share: Boolean tests, list functions that do what WHERE, UPDATE
-- and DELETE do to rows, and lemmas on them.
-- Database is the SQL database (src/backend/app/core/db/session.py) as an interface: a table with an
-- abstract state and the documented effect of each statement on its rows. Cache is Redis
-- (src/backend/app/core/cache/redis.py) as an interface over clock readings; Cache.Keys has the keys
-- and values of the backend. Both have an instance, at which the tests run.
-- Outbox is src/backend/app/models/notification.py: `claim`, `retry`, `finish`, `add`, each statement
-- in order. `claim_during` is `claim` with what other transactions commit between its statements,
-- `claim` the case in which they commit nothing there. Outbox.Trace has histories of calls by any
-- workers, in which a claim runs whole or as single statements between which other calls run; what a
-- statement writes is seen by the next one of any worker.
-- Lifecycle is src/backend/app/services/notifications.py: the rows, the queue and the drain loop.
-- Codes is src/backend/app/utils/account_verification.py: the WATCH/MULTI/EXEC rounds, where a round
-- carries what other clients did before its EXEC, and a round of `issue_email_code` the database at
-- each of its reads.
-- Sessions is src/backend/app/utils/token.py.
-- Inbox is src/backend/app/models/inbox.py.
-- Inquiries is src/backend/app/models/inquiry.py, which tells users through the inbox.
-- Access is src/backend/app/deps.py: it reads Accounts and records the uses of ApiKeys.
-- Accounts is src/backend/app/models/user.py: Accounts.Profile has the identities, sign-ins and
-- profiles, Accounts.Roles the roles and the removal of accounts, Accounts.History sequences of
-- calls. A signup writes to the inbox, and a removal to the outbox, in its own transaction.
-- Authentication is src/backend/app/services/auth.py: a method is an action on the cache, the
-- database and the mails handed to the queue, which keeps what was done before an error.
-- Authentication.SignIn has signup, login and its limit, Refresh the renewal of sessions,
-- Passwords the reset by a token, Confirmation what a code by e-mail confirms, Deletion the removal
-- of an account, OAuth the sign-in with Google and GitHub, Emails the verification of an e-mail and
-- what a request tells of its language and address; their child modules have the proofs. The
-- service works on Accounts, Sessions and Codes through their operations, and a deletion writes to
-- Lifecycle's outbox.
-- Photos is src/backend/app/models/profile_photo.py and
-- src/backend/app/services/profile_photo.py, with the objects of the storage and the ways in which a
-- write to it or a commit can fail.
-- Bootstrap is src/backend/app/services/bootstrap.py: the account of a development without a login,
-- made in Accounts.
-- Billing is src/backend/app/models/billing.py: the customers and the reservations of checkouts, with
-- a row of a request that races at each insertion. Billing.Checkout is the opening of a hosted
-- checkout in src/backend/app/services/billing.py; what Stripe answers is a parameter, and a creation
-- with an idempotency key is a function of its request.
-- ApiKeys is src/backend/app/models/api_key.py with its calls in
-- src/backend/app/services/api_key.py.
--
-- Loops: the eight rounds of a transaction and the ten of a drain are lists, one element a round,
-- so that no fuel is needed; the other loops recur on lists.
-- Texts that the code only compares or passes on (tokens, hashes, ids, names) are numbers. Times
-- are in seconds. Logging and metrics are left out, and so are the routers, the settings, the
-- mail templates, the object storage and the calls of Stripe, which read or write outside systems.
-- The rest of src/backend/app/services/billing.py and the services for administration,
-- which combine these parts with such systems, are not modelled.
pub mod Prelude
pub mod Database
pub mod Cache
pub mod Outbox
pub mod Lifecycle
pub mod Codes
pub mod Sessions
pub mod Inbox
pub mod ApiKeys
pub mod Accounts
pub mod Authentication
pub mod Photos
pub mod Bootstrap
pub mod Billing
pub mod Access
pub mod Inquiries
