-- ===== src/Lib.antt =====
-- A verification of authia, a library for authentication: its kernel, its plugins, the session
-- layer, the Postgres storage, the default crypto, the startup validation and the delivery policy.
--
-- A request goes to the kernel (packages/core/src/kernel/auth-kernel.ts, Kernel), which finds the
-- owner of its action (Kernel/Ownership), validates the session where the action needs one
-- (Kernel/Handle, `gate`), runs the policies, the cross-site check first (Kernel/PolicyRun, Csrf),
-- and performs the action: its own, through the session layer (packages/core/src/session, Session),
-- or that of a plugin (packages/core/src/plugins, EmailPassword and Oauth). Both use the storage
-- (packages/storage-postgres, Postgres) and the crypto (packages/crypto-default, Crypto). System
-- puts them together, as the examples of the repository do. The startup validation
-- (packages/core/src/startup, Startup) and the delivery of mail (packages/delivery-provider,
-- Delivery) stand apart. The runtime adapters (packages/node-adapter, and bun-adapter and
-- deno-adapter with the same code, Adapter) parse a request into a context (Adapter/Parsing,
-- Adapter/ParseRequest) and turn a result into a response (Adapter). Application is
-- examples/cycle2-compose.ts: its configuration (Application/Config), the checks with which it
-- starts and the path of a request (Application/Composition, Answers and Serving). Contracts has
-- the types of packages/contracts; Prelude and Io have what all share; Invariant has what requests
-- of any kind keep, first for one statement, then for a plugin, a request and a sequence of
-- requests, and the abstract sessions (Invariant/SessionViews) with which the table of the sessions
-- is compared (Invariant/Refinement); Tests runs the code and the theorems at concrete inputs.
--
-- How the code is read. An asynchronous function is a function of the world that ends with a value,
-- an AuthError or a rejection (Io). Functions, fields and constants keep their names in snake case,
-- types in camel case. `if (isAuthError(a)) return a` after an `await` is the bind of a `do` block;
-- `throw createRollbackSignal(…)` is `roll_back`; try and catch are `catch`. An early return in the
-- middle of a function ends a helper, whose name says what it goes on with. An optional field is an
-- Option, a timestamp its number of milliseconds, an action a constructor. Promise.all of two calls
-- runs both, then tests the results in order.
--
-- The world of the Postgres storage has the committed tables, the open transaction's copy of them,
-- the number of clients that are checked out and a step, which every call of the environment
-- advances. A Backend gives the clock, the random ids and the failures of the server at each step,
-- so a theorem for all backends covers every pattern of failures. A statement is a function of the
-- tables that checks the unique keys and references of
-- packages/storage-postgres/src/migrations/0001_cycle1.sql. A statement that fails has no effect;
-- in a transaction it aborts the transaction, whose COMMIT is then a rollback. Statements of one
-- request run without others between them; theorems on two requests allow any world between the two
-- that keeps the table they name. The one race that the code handles, two callbacks that link the
-- same subject, is looked at from the callback that loses it (Oauth/Race): its storage is any that
-- answers as in the race, and its retry begins in any tables.
--
-- Parameters. The platform's functions on text and URLs are the fields of Platform; argon2, SHA-256
-- and the random source are those of CryptoDependencies; the OAuth provider and the mail delivery
-- are fields of Environment; what an attempt of a delivery does, how long it takes and what a
-- telemetry listener throws are those of PolicyInput; JSON.parse, fetch, the sending of mail and
-- the catalogue of the database are arguments. No law is assumed of any of them. The theorems on
-- what requests keep ask of the provider, the delivery and the registered policies that they do not
-- touch the database. A header or a cookie named by the configuration is read from an object that
-- inherits the names of Object.prototype: for a header the model has them, for the session cookie's
-- name it has none.
--
-- Bounds. The loop of the delivery runs on the number of its rounds, which is maxRetries + 1, and 0
-- where maxRetries is negative. All other loops go down a list or a text.
--
-- Not modelled: the calls of fetch and nodemailer, the cache of connection pools, the renaming of
-- columns and the stubs of packages/storage-postgres/src/repositories/oauth-stubs.ts, which nothing
-- composes, the doubles of the provider and the delivery in the examples, a key of the
-- configuration itself that createCycle2ReferenceApp is given as undefined (the method, path or
-- transport of an action may be), and examples/cycle1-compose.ts, the same composition with one
-- plugin.
pub mod Prelude
pub mod Io
pub mod Contracts
pub mod Session
pub mod Csrf
pub mod Kernel
pub mod EmailPassword
pub mod Oauth
pub mod Postgres
pub mod Startup
pub mod Delivery
pub mod Crypto
pub mod Adapter
pub mod System
pub mod Application
pub mod Invariant
pub mod Tests
