-- ===== src/Repository/Payouts.antt =====
-- internal/repository/payout_repository.go: a merchant's withdrawal is requested, then transferred
-- or rejected by an admin.
pub mod Effect
pub mod Processed
pub mod Beside
use text.Mathlib.Text.{◌==◌ as str_eq}
use pg_aggregator_back.Common.{
  ℕ, String, ◌||◌, Option, none, some, ℤ, pos, neg, int64, ltb_ℤ, leb_ℤ, ltb, is_some,
  if◌then◌else◌,
}
use pg_aggregator_back.Errors.{
  Error, Violation, open_payout, violation, Result, ok, err, below_minimum_payout,
  merchant_not_found, payout_account_missing, open_payout_exists, insufficient_balance,
  reason_required, text_too_long, payout_not_found, payout_already_processed,
}
use pg_aggregator_back.Payment.Request.{Strings}
use pg_aggregator_back.Ledger.{
  payout_debit, payout_reversal, Entry, requested, transferred, rejected, is_requested, Payout,
}
use pg_aggregator_back.Store.{Db, Merchant}
use pg_aggregator_back.Store.Table.{find, modify}
use pg_aggregator_back.Store.Action.{
  Sql, pure, raise, raise_if, ◌>>=◌, ◌>>◌, query, exec, transaction, transaction_beside,
}
use pg_aggregator_back.Repository.Insert.{
  insert_entry, insert_payout, has_open_payout, sum_ledger, scan_int64,
}
use pg_aggregator_back.Repository.Refunds.{or_failure}

abbrev pub payout_key : Payout → ℕ
payout_key p = p.id

abbrev pub merchant_key : Merchant → ℕ
merchant_key m = m.id

pub record PayoutRequest : Type 0 where
  pub merchant_id : ℕ
  pub amount : ℤ
  pub min_amount : ℤ
  pub requested_by : Option ℕ
  pub payout_id : ℕ
  pub entry_id : ℕ
  pub now : ℕ

-- The account that the payout is sent to.
pub record Account : Type 0 where
  pub bank_name : String
  pub account_number : String
  pub account_holder : String

abbrev pub account_of : Option String → Option String → Option String → Result Account
account_of (some b) (some n) (some h) =
    ok (record { bank_name = b; account_number = n; account_holder = h })
account_of _ _ _ = err payout_account_missing

abbrev pub account : Option Merchant → Result Account
account none = err merchant_not_found
account (some m) = account_of m.payout_bank_name m.payout_account_number m.payout_account_holder

abbrev pub payout_row : PayoutRequest → Account → Payout
payout_row r a = record {
  id = r.payout_id;
  merchant_id = r.merchant_id;
  amount = r.amount;
  status = requested;
  bank_name = a.bank_name;
  account_number = a.account_number;
  account_holder = a.account_holder;
  requested_by = r.requested_by;
  requested_at = r.now;
  processed_by = none;
  processed_at = none;
  reference = none;
  reject_reason = none;
}

abbrev pub payout_entry : PayoutRequest → Entry
payout_entry r = record {
  id = r.entry_id;
  merchant_id = r.merchant_id;
  entry_type = payout_debit;
  amount = int64 (neg r.amount);
  payment_id = none;
  payout_id = some r.payout_id;
  refund_id = none;
  note = "payout requested";
  created_by = r.requested_by;
  created_at = r.now;
}

-- `isOpenPayoutViolation`: that index alone is reported as an open payout.
abbrev pub violation_error : Violation → Error
violation_error open_payout = open_payout_exists
violation_error v = violation v

abbrev pub open_payout_error : Error → Error
open_payout_error (violation v) = violation_error v
open_payout_error e = e

abbrev pub mapped : {A : Type 0} → Result A → Result A
mapped (ok a) = ok a
mapped (err e) = err (open_payout_error e)

-- The reads, under the lock on the merchant's row, and what they must find.
abbrev pub request_checked : PayoutRequest → Sql Account
request_checked r = do
  a ← query (λ d. account (find merchant_key r.merchant_id d.merchants))
  open_exists ← query (λ d. ok (has_open_payout r.merchant_id d.payouts))
  raise_if open_exists open_payout_exists
  balance ← query (λ d. scan_int64 (sum_ledger r.merchant_id d.ledger))
  raise_if (ltb_ℤ balance r.amount) insufficient_balance
  pure a

-- The writes.
abbrev pub request_written : PayoutRequest → Account → Sql (Option Payout)
request_written r a = do
  exec (λ d. mapped (insert_payout (payout_row r a) d))
  exec (insert_entry (payout_entry r))
  pure (some (payout_row r a))

-- The transaction, when nothing commits between the reads and the writes.
unfoldable pub request_transaction : PayoutRequest → Sql (Option Payout)
request_transaction r = transaction (request_checked r >>= request_written r)

-- `Request`, run alone.
unfoldable pub request : PayoutRequest → Sql Payout
request r = do
  raise_if (leb_ℤ r.amount (pos 0) || ltb_ℤ r.amount r.min_amount) below_minimum_payout
  done ← request_transaction r
  or_failure done

-- `Request` while other transactions commit `others` between its reads and its writes: the lock on
-- the merchant's row (FOR NO KEY UPDATE) holds off other requests of the merchant, but not the
-- refunds and adjustments, which only insert rows that refer to the merchant.
unfoldable pub request_beside : (Db → Db) → PayoutRequest → Sql Payout
request_beside others r = do
  raise_if (leb_ℤ r.amount (pos 0) || ltb_ℤ r.amount r.min_amount) below_minimum_payout
  done ← transaction_beside others (request_checked r) (request_written r)
  or_failure done

-- What an admin decides about a payout: the note is a transfer reference or a reject reason.
pub record Decision : Type 0 where
  pub payout_id : ℕ
  pub note : String
  pub admin_id : Option ℕ
  pub entry_id : ℕ
  pub now : ℕ

-- `classifyUnprocessed`
unfoldable pub classify_unprocessed : {A : Type 0} → ℕ → Sql A
classify_unprocessed id = do
  exists ← query (λ d. ok (is_some (find payout_key id d.payouts)))
  raise (if exists then payout_already_processed else payout_not_found)

abbrev pub as_transferred : Decision → String → Payout → Payout
as_transferred k note p = record p {
  status = transferred;
  processed_by = k.admin_id;
  processed_at = some k.now;
  reference = some note;
}

abbrev pub as_rejected : Decision → String → Payout → Payout
as_rejected k note p = record p {
  status = rejected;
  processed_by = k.admin_id;
  processed_at = some k.now;
  reject_reason = some note;
}

abbrev pub process_at : (Payout → Payout) → Db → Option Payout → Option Payout × Db
process_at f d none = (none, d)
process_at f d (some p) =
    if is_requested p.status
    then (some (f p), record d { payouts = modify payout_key p.id f d.payouts })
    else (none, d)

-- UPDATE payouts … WHERE id = $1 AND status = 'requested' RETURNING …
unfoldable pub process_row : ℕ → (Payout → Payout) → Db → Result (Option Payout × Db)
process_row id f d = ok (process_at f d (find payout_key id d.payouts))

abbrev pub or_unprocessed : ℕ → Option Payout → Sql Payout
or_unprocessed id none = classify_unprocessed id
or_unprocessed id (some p) = pure p

abbrev pub max_payout_reference_len : ℕ
max_payout_reference_len = 200

abbrev pub max_payout_reason_len : ℕ
max_payout_reason_len = 500

-- `MarkPaid`: the debit was taken when the payout was requested.
unfoldable pub mark_transferred : Strings → Decision → Sql Payout
mark_transferred go k = do
  raise_if (str_eq (go.trim_space k.note) "") reason_required
  raise_if (ltb max_payout_reference_len (go.rune_count (go.trim_space k.note))) text_too_long
  row ← exec (process_row k.payout_id (as_transferred k (go.trim_space k.note)))
  or_unprocessed k.payout_id row

abbrev pub reversal_entry : Decision → Payout → Entry
reversal_entry k p = record {
  id = k.entry_id;
  merchant_id = p.merchant_id;
  entry_type = payout_reversal;
  amount = p.amount;
  payment_id = none;
  payout_id = some p.id;
  refund_id = none;
  note = "payout rejected";
  created_by = k.admin_id;
  created_at = k.now;
}

abbrev pub reversed : Decision → Option Payout → Sql (Option Payout)
reversed k none = pure none
reversed k (some p) = exec (insert_entry (reversal_entry k p)) >> pure (some p)

-- The transaction of `Reject`; `none` means that no open payout has this key.
unfoldable pub reject_transaction : Decision → String → Sql (Option Payout)
reject_transaction k note =
    transaction (exec (process_row k.payout_id (as_rejected k note)) >>= reversed k)

-- `Reject`
unfoldable pub reject : Strings → Decision → Sql Payout
reject go k = do
  raise_if (str_eq (go.trim_space k.note) "") reason_required
  raise_if (ltb max_payout_reason_len (go.rune_count (go.trim_space k.note))) text_too_long
  row ← reject_transaction k (go.trim_space k.note)
  or_unprocessed k.payout_id row
