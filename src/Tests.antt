-- ===== src/Tests.antt =====
-- The theorems applied to concrete data.
pub mod Shop
mod Books
mod Money
mod Services
mod Callbacks
mod Keys
mod Jobs
mod Clients
mod Routes
