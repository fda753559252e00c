-- ===== src/Repository.antt =====
-- The repositories (internal/repository): each SQL statement is a function on the tables, and each
-- method runs its statements in the order of the source. Names of new rows (`uuid.New()`) and
-- the current time are arguments.
pub mod Insert
pub mod Payments
pub mod Refunds
pub mod Payouts
pub mod Balances
pub mod Statistics
pub mod Merchants
pub mod Callbacks
pub mod Keys
pub mod Scans
