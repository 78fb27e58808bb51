-- ===== src/Postgres.antt =====
-- packages/storage-postgres: the tables, a connection, the repositories and the transactions.
pub mod Tables
pub mod Connection
pub mod Accounts
pub mod SessionRows
pub mod Tokens
pub mod Transactions
pub mod Schema
pub mod Rows
pub mod Additions
pub mod Changes
pub mod Swaps
pub mod Inside
pub mod Atomicity
pub mod Refusals
pub mod Caught
pub mod Catalogues
pub mod Compatibility
