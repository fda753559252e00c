-- ===== src/Repository/Balances.antt =====
-- internal/repository/ledger_repository.go: the summary of a merchant's ledger and the admin's
-- adjustments; and the balance card of internal/service/balance_service.go.
pub mod Effect
use text.Mathlib.Text.{◌==◌ as str_eq}
use pg_aggregator_back.Common.{
  ℕ, String, Bool, true, false, not, ◌&&◌, ◌||◌, Option, none, some, List, [], ◌∷◌, ℤ, pos, negsuc,
  neg, ◌+ℤ◌, ltb_ℤ, leb_ℤ, eqb_ℤ, ltb, ◌==◌, is_some, if◌then◌else◌,
}
use pg_aggregator_back.Errors.{
  Error, Violation, foreign_key, violation, Result, ok, err, bind, invalid_adjustment,
  reason_required, text_too_long, merchant_not_found,
}
use pg_aggregator_back.Payment.Request.{Strings}
use pg_aggregator_back.Ledger.{
  EntryType, payment_credit, refund_debit, payout_debit, payout_reversal, adjustment, Entry,
  Summary, max_adjustment, max_reason_len,
}
use pg_aggregator_back.Store.{Db, Merchant}
use pg_aggregator_back.Store.Table.{find}
use pg_aggregator_back.Store.Action.{Sql, pure, raise_if, ◌>>=◌, ◌>>◌, query, exec}
use pg_aggregator_back.Repository.Insert.{insert_entry, has_open_payout, sum_ledger, scan_int64}
use pg_aggregator_back.Repository.Payouts.{Account, account}

-- SUM(amount) FILTER (WHERE …) over a merchant's entries.
abbrev pub sum_of : (EntryType → Bool) → ℕ → List Entry → ℤ
sum_of f m [] = pos 0
sum_of f m (e ∷ es) =
    if e.merchant_id == m && f e.entry_type then e.amount +ℤ sum_of f m es else sum_of f m es

abbrev pub is_credit : EntryType → Bool
is_credit payment_credit = true
is_credit _ = false

abbrev pub is_payout : EntryType → Bool
is_payout payout_debit = true
is_payout payout_reversal = true
is_payout _ = false

abbrev pub is_refund : EntryType → Bool
is_refund refund_debit = true
is_refund _ = false

abbrev pub is_adjustment : EntryType → Bool
is_adjustment adjustment = true
is_adjustment _ = false

-- The four aggregates of `Summary`, as PostgreSQL computes them.
abbrev pub aggregate : ℕ → List Entry → Summary
aggregate m es = record {
  balance = sum_ledger m es;
  total_credited = sum_of is_credit m es;
  total_paid_out = neg (sum_of is_payout m es);
  total_refunded = neg (sum_of is_refund m es);
}

abbrev pub scan_summary : Summary → Result Summary
scan_summary s = bind (scan_int64 s.balance) λ b. bind (scan_int64 s.total_credited) λ c.
    bind (scan_int64 s.total_paid_out) λ p.
      bind (scan_int64 s.total_refunded)
        λ r. ok (record { balance = b; total_credited = c; total_paid_out = p; total_refunded = r })

-- `Summary`
unfoldable pub summary : ℕ → Sql Summary
summary m = query (λ d. scan_summary (aggregate m d.ledger))

-- `HasOpen`
unfoldable pub has_open : ℕ → Sql Bool
has_open m = query (λ d. ok (has_open_payout m d.payouts))

pub record Adjustment : Type 0 where
  pub merchant_id : ℕ
  pub amount : ℤ
  pub reason : String
  pub admin_id : Option ℕ
  pub entry_id : ℕ
  pub now : ℕ

abbrev pub adjustment_entry : Adjustment → String → Entry
adjustment_entry a reason = record {
  id = a.entry_id;
  merchant_id = a.merchant_id;
  entry_type = adjustment;
  amount = a.amount;
  payment_id = none;
  payout_id = none;
  refund_id = none;
  note = reason;
  created_by = a.admin_id;
  created_at = a.now;
}

abbrev pub unknown_merchant : Violation → Error
unknown_merchant foreign_key = merchant_not_found
unknown_merchant v = violation v

abbrev pub merchant_error : Error → Error
merchant_error (violation v) = unknown_merchant v
merchant_error e = e

abbrev pub adjusted : Entry → Result (Unit {0} × Db) → Result (Entry × Db)
adjusted e (ok (_, d)) = ok (e, d)
adjusted e (err x) = err (merchant_error x)

-- `Adjust`
unfoldable pub adjust : Strings → Adjustment → Sql Entry
adjust go a = do
  raise_if
      (eqb_ℤ a.amount (pos 0)
        || ltb_ℤ max_adjustment a.amount
        || ltb_ℤ a.amount (negsuc 999999999999))
      invalid_adjustment
  raise_if (str_eq (go.trim_space a.reason) "") reason_required
  raise_if (ltb max_reason_len (go.rune_count (go.trim_space a.reason))) text_too_long
  exec (λ d.
      adjusted (adjustment_entry a (go.trim_space a.reason))
        (insert_entry (adjustment_entry a (go.trim_space a.reason)) d))

-- The balance card.
pub record BalanceOverview : Type 0 where
  pub summary : Summary
  pub min_payout_amount : ℤ
  pub payout_account : Option Account
  pub can_request : Bool

abbrev pub account_result : Result Account → Option Account
account_result (ok a) = some a
account_result (err e) = none

abbrev pub stored_account : Option Merchant → Result (Option Account)
stored_account none = err merchant_not_found
stored_account (some m) = ok (account_result (account (some m)))

-- `Overview`; `GetPayoutAccount` gives no account unless all three columns are set.
unfoldable pub overview : ℤ → ℕ → Sql BalanceOverview
overview min_amount m = do
  sum ← summary m
  acc ← query (λ d. stored_account (find (λ (x : Merchant). x.id) m d.merchants))
  open_exists ← has_open m
  pure (record {
    summary = sum;
    min_payout_amount = min_amount;
    payout_account = acc;
    can_request = is_some acc && leb_ℤ min_amount sum.balance && not open_exists;
  })
