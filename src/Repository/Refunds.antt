-- ===== src/Repository/Refunds.antt =====
-- internal/repository/refund_repository.go: refunds of a paid production payment.
pub mod Effect
use text.Mathlib.Text.{◌==◌ as str_eq}
use pg_aggregator_back.Common.{
  ℕ, String, Bool, not, ◌&&◌, Option, none, some, ℤ, pos, neg, ◌-ℤ◌, int64, ltb_ℤ, leb_ℤ, eqb_ℤ,
  ltb, if◌then◌else◌,
}
use pg_aggregator_back.Errors.{
  Result, ok, err, db_failure, reason_required, ledger_invalid_amount, text_too_long,
  payment_not_refundable, refund_exceeds_net,
}
use pg_aggregator_back.Payment.{paid, refunded, Payment, status_eq, is_production}
use pg_aggregator_back.Payment.Request.{Strings}
use pg_aggregator_back.Ledger.{refund_debit, Entry, Refund, max_reason_len}
use pg_aggregator_back.Store.{Db}
use pg_aggregator_back.Store.Table.{modify}
use pg_aggregator_back.Store.Action.{
  Sql, pure, raise, raise_if, ◌>>=◌, ◌>>◌, query, exec, transaction,
}
use pg_aggregator_back.Repository.Insert.{insert_entry, insert_refund, sum_refunds, scan_int64}
use pg_aggregator_back.Repository.Payments.{payment_key, find_payment, or_not_found}

-- What an admin asks for, and the names of the rows that the refund creates.
pub record RefundRequest : Type 0 where
  pub payment_id : ℕ
  pub amount : ℤ
  pub reason : String
  pub admin_id : Option ℕ
  pub refund_id : ℕ
  pub entry_id : ℕ
  pub now : ℕ

-- What `RefundWithRemaining` returns.
pub record RefundOutcome : Type 0 where
  pub refund : Refund
  pub full : Bool
  pub payment : Payment
  pub remaining : ℤ

abbrev pub is_refundable : Payment → Bool
is_refundable p =
    status_eq p.status paid && is_production p.environment && ltb_ℤ (pos 0) p.merchant_net_amount

abbrev pub refund_row : RefundRequest → String → Payment → Refund
refund_row r reason p = record {
  id = r.refund_id;
  payment_id = r.payment_id;
  merchant_id = p.merchant_id;
  amount = r.amount;
  reason = reason;
  created_by = r.admin_id;
  created_at = r.now;
}

abbrev pub refund_entry : RefundRequest → String → Payment → Entry
refund_entry r reason p = record {
  id = r.entry_id;
  merchant_id = p.merchant_id;
  entry_type = refund_debit;
  amount = int64 (neg r.amount);
  payment_id = some r.payment_id;
  payout_id = none;
  refund_id = some r.refund_id;
  note = reason;
  created_by = r.admin_id;
  created_at = r.now;
}

abbrev pub as_refunded : ℕ → Payment → Payment
as_refunded now p = record p { status = refunded; updated_at = now }

abbrev pub mark_refunded_at : ℕ → Db → Option Payment → Result (Unit {0} × Db)
mark_refunded_at now d none = err db_failure
mark_refunded_at now d (some p) =
    if status_eq p.status paid
    then ok (tt, record d { payments = modify payment_key p.id (as_refunded now) d.payments })
    else err db_failure

-- UPDATE payments SET status = 'refunded' … WHERE id = $1 AND status = 'paid' RETURNING …: no row is
-- an error like any other.
unfoldable pub mark_refunded : ℕ → ℕ → Db → Result (Unit {0} × Db)
mark_refunded id now d = mark_refunded_at now d (find_payment id d)

abbrev pub mark_if_full : Bool → ℕ → ℕ → Sql (Unit {0})
mark_if_full full id now = if full then exec (mark_refunded id now) else pure tt

abbrev pub outcome : RefundRequest → String → Payment → ℤ → RefundOutcome
outcome r reason p left = record {
  refund = refund_row r reason p;
  full = eqb_ℤ left (pos 0);
  payment = (if eqb_ℤ left (pos 0) then as_refunded r.now p else p);
  remaining = left;
}

-- The writes, once the remaining amount is known to suffice.
unfoldable pub record_refund : RefundRequest → String → Payment → ℤ → Sql (Option RefundOutcome)
record_refund r reason p remaining = do
  exec (insert_refund (refund_row r reason p))
  exec (insert_entry (refund_entry r reason p))
  mark_if_full (eqb_ℤ (int64 (remaining -ℤ r.amount)) (pos 0)) r.payment_id r.now
  pure (some (outcome r reason p (int64 (remaining -ℤ r.amount))))

abbrev pub refund_locked : RefundRequest → String → Payment → Sql (Option RefundOutcome)
refund_locked r reason p = do
  raise_if (not (is_refundable p)) payment_not_refundable
  already ← query (λ d. scan_int64 (sum_refunds r.payment_id d.refunds))
  raise_if (ltb_ℤ (int64 (p.merchant_net_amount -ℤ already)) r.amount) refund_exceeds_net
  record_refund r reason p (int64 (p.merchant_net_amount -ℤ already))

-- The transaction: the payment's row is locked first.
unfoldable pub refund_transaction : RefundRequest → String → Sql (Option RefundOutcome)
refund_transaction r reason =
    transaction (query (λ d. or_not_found (find_payment r.payment_id d)) >>= refund_locked r reason)

-- The body always ends in `some` or an error.
abbrev pub or_failure : {A : Type 0} → Option A → Sql A
or_failure none = raise db_failure
or_failure (some a) = pure a

-- `RefundWithRemaining`
unfoldable pub refund_with_remaining : Strings → RefundRequest → Sql RefundOutcome
refund_with_remaining go r = do
  raise_if (leb_ℤ r.amount (pos 0)) ledger_invalid_amount
  raise_if (str_eq (go.trim_space r.reason) "") reason_required
  raise_if (ltb max_reason_len (go.rune_count (go.trim_space r.reason))) text_too_long
  done ← refund_transaction r (go.trim_space r.reason)
  or_failure done
