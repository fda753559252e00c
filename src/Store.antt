-- ===== src/Store.antt =====
-- The PostgreSQL tables that the repositories work on, and the statements of database/sql as
-- actions. Each statement may fail: whether it does is read off a schedule that the environment
-- chooses. A transaction restores the tables unless it commits. A statement, and a transaction
-- that holds the lock of the row which it guards, is one step; Action has one that others commit
-- beside.
pub mod Table
pub mod Action
pub mod Beside
pub mod Inversion
pub mod Calm
use pg_aggregator_back.Common.{ℕ, String, Bool, Option, List}
use pg_aggregator_back.Payment.{Payment}
use pg_aggregator_back.Ledger.{Entry, Payout, Refund}
use pg_aggregator_back.Delivery.{CallbackDelivery}
use pg_aggregator_back.Idempotency.{Record}

-- The columns of `merchants` that are read here.
pub record Merchant : Type 0 where
  pub id : ℕ
  pub is_active : Bool
  pub fee_bearer : String
  pub webhook_url : Option String
  pub webhook_secret : Option String
  pub payout_bank_name : Option String
  pub payout_account_number : Option String
  pub payout_account_holder : Option String

pub record Db : Type 0 where
  pub merchants : List Merchant
  pub payments : List Payment
  pub ledger : List Entry
  pub payouts : List Payout
  pub refunds : List Refund
  pub callbacks : List CallbackDelivery
  pub idempotency_keys : List Record

-- The tables and, for the statements to come, whether each fails (none fails after the last).
pub record Conn : Type 0 where
  pub db : Db
  pub faults : List Bool
