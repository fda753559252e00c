-- ===== src/Ledger.antt =====
-- The append-only merchant ledger, payouts and refunds (internal/domain/ledger/ledger.go).
-- Amounts are signed: credits are positive and debits negative.
use pg_aggregator_back.Common.{ℕ, String, Bool, true, false, Option, ℤ, pos}

pub data EntryType : Type 0 where
  payment_credit refund_debit payout_debit payout_reversal adjustment : EntryType

pub record Entry : Type 0 where
  pub id : ℕ
  pub merchant_id : ℕ
  pub entry_type : EntryType
  pub amount : ℤ
  pub payment_id : Option ℕ
  pub payout_id : Option ℕ
  pub refund_id : Option ℕ
  pub note : String
  pub created_by : Option ℕ
  pub created_at : ℕ

pub record Summary : Type 0 where
  pub balance : ℤ
  pub total_credited : ℤ
  pub total_paid_out : ℤ
  pub total_refunded : ℤ

pub data PayoutStatus : Type 0 where
  requested transferred rejected : PayoutStatus

abbrev pub is_requested : PayoutStatus → Bool
is_requested requested = true
is_requested _ = false

pub record Payout : Type 0 where
  pub id : ℕ
  pub merchant_id : ℕ
  pub amount : ℤ
  pub status : PayoutStatus
  pub bank_name : String
  pub account_number : String
  pub account_holder : String
  pub requested_by : Option ℕ
  pub requested_at : ℕ
  pub processed_by : Option ℕ
  pub processed_at : Option ℕ
  pub reference : Option String
  pub reject_reason : Option String

pub record Refund : Type 0 where
  pub id : ℕ
  pub payment_id : ℕ
  pub merchant_id : ℕ
  pub amount : ℤ
  pub reason : String
  pub created_by : Option ℕ
  pub created_at : ℕ

abbrev pub max_adjustment : ℤ
max_adjustment = pos 1000000000000

abbrev pub max_reason_len : ℕ
max_reason_len = 500
