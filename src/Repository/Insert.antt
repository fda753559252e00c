-- ===== src/Repository/Insert.antt =====
-- INSERT into `merchant_ledger`, `payment_refunds` and `payouts` with the constraints of migration
-- 021, and the aggregates that are read back. The newest row stands first.
pub mod Effect
use pg_aggregator_back.Common.{
  ℕ, Bool, true, false, not, ◌&&◌, ◌||◌, Option, none, some, List, [], ◌∷◌, ℤ, pos, ◌+ℤ◌, ltb_ℤ,
  eqb_ℤ, fits64, is_some, ◌==◌, if◌then◌else◌,
}
use pg_aggregator_back.Errors.{
  Result, ok, err, db_failure, violation, foreign_key, check, unique, open_payout,
}
use pg_aggregator_back.Payment.{Payment}
use pg_aggregator_back.Ledger.{
  EntryType, payment_credit, refund_debit, payout_debit, payout_reversal, adjustment, Entry, Payout,
  is_requested, Refund,
}
use pg_aggregator_back.Store.{Db, Merchant}
use pg_aggregator_back.Store.Table.{find}

-- A foreign key: NULL, or the key of a row.
abbrev pub refers : {A : Type 0} → (A → ℕ) → List A → Option ℕ → Bool
refers key rows none = true
refers key rows (some k) = is_some (find key k rows)

-- `merchant_ledger_sign_matches_type`, and `amount <> 0`
abbrev pub sign_matches : EntryType → ℤ → Bool
sign_matches payment_credit a = ltb_ℤ (pos 0) a
sign_matches payout_reversal a = ltb_ℤ (pos 0) a
sign_matches refund_debit a = ltb_ℤ a (pos 0)
sign_matches payout_debit a = ltb_ℤ a (pos 0)
sign_matches adjustment a = not (eqb_ℤ a (pos 0))

-- `merchant_ledger_reference_matches_type`
abbrev pub reference_matches : Entry → EntryType → Bool
reference_matches e payment_credit = is_some e.payment_id
reference_matches e refund_debit = is_some e.payment_id && is_some e.refund_id
reference_matches e payout_debit = is_some e.payout_id
reference_matches e payout_reversal = is_some e.payout_id
reference_matches e adjustment = true

-- Two keys in a unique index; NULLs never collide.
abbrev pub same_key : Option ℕ → Option ℕ → Bool
same_key (some a) (some b) = a == b
same_key _ _ = false

-- The partial unique indexes: one credit for a payment, one debit and one reversal for a payout,
-- one debit for a refund.
abbrev pub same_slot : Entry → Entry → EntryType → EntryType → Bool
same_slot e x payment_credit payment_credit = same_key e.payment_id x.payment_id
same_slot e x payout_debit payout_debit = same_key e.payout_id x.payout_id
same_slot e x payout_reversal payout_reversal = same_key e.payout_id x.payout_id
same_slot e x refund_debit refund_debit = same_key e.refund_id x.refund_id
same_slot e x _ _ = false

abbrev pub clashes : Entry → List Entry → Bool
clashes e [] = false
clashes e (x ∷ xs) = e.id == x.id || same_slot e x e.entry_type x.entry_type || clashes e xs

abbrev pub refers_all : Entry → Db → Bool
refers_all e d =
    is_some (find (λ (m : Merchant). m.id) e.merchant_id d.merchants)
    && refers (λ (p : Payment). p.id) d.payments e.payment_id
    && refers (λ (p : Payout). p.id) d.payouts e.payout_id
    && refers (λ (r : Refund). r.id) d.refunds e.refund_id

-- INSERT INTO merchant_ledger
unfoldable pub insert_entry : Entry → Db → Result (Unit {0} × Db)
insert_entry e d =
    if not (sign_matches e.entry_type e.amount && reference_matches e e.entry_type)
    then err (violation check)
    else if clashes e d.ledger
    then err (violation unique)
    else if not (refers_all e d)
    then err (violation foreign_key)
    else ok (tt, record d { ledger = e ∷ d.ledger })

-- INSERT INTO payment_refunds (the reason is not blank: `Refund` has looked)
unfoldable pub insert_refund : Refund → Db → Result (Unit {0} × Db)
insert_refund r d =
    if not (ltb_ℤ (pos 0) r.amount)
    then err (violation check)
    else if is_some (find (λ (x : Refund). x.id) r.id d.refunds)
    then err (violation unique)
    else if not (
        is_some (find (λ (m : Merchant). m.id) r.merchant_id d.merchants)
        && is_some (find (λ (p : Payment). p.id) r.payment_id d.payments))
    then err (violation foreign_key)
    else ok (tt, record d { refunds = r ∷ d.refunds })

-- SELECT EXISTS (… FROM payouts WHERE merchant_id = $1 AND status = 'requested')
abbrev pub has_open_payout : ℕ → List Payout → Bool
has_open_payout m [] = false
has_open_payout m (p ∷ ps) = p.merchant_id == m && is_requested p.status || has_open_payout m ps

-- INSERT INTO payouts; `uq_payouts_one_open_per_merchant` has its own error.
unfoldable pub insert_payout : Payout → Db → Result (Unit {0} × Db)
insert_payout p d =
    if not (ltb_ℤ (pos 0) p.amount)
    then err (violation check)
    else if is_some (find (λ (x : Payout). x.id) p.id d.payouts)
    then err (violation unique)
    else if is_requested p.status && has_open_payout p.merchant_id d.payouts
    then err (violation open_payout)
    else if not (is_some (find (λ (m : Merchant). m.id) p.merchant_id d.merchants))
    then err (violation foreign_key)
    else ok (tt, record d { payouts = p ∷ d.payouts })

-- SELECT COALESCE(SUM(amount), 0) FROM merchant_ledger WHERE merchant_id = $1
abbrev pub sum_ledger : ℕ → List Entry → ℤ
sum_ledger m [] = pos 0
sum_ledger m (e ∷ es) = if e.merchant_id == m then e.amount +ℤ sum_ledger m es else sum_ledger m es

-- SELECT COALESCE(SUM(amount), 0) FROM payment_refunds WHERE payment_id = $1
abbrev pub sum_refunds : ℕ → List Refund → ℤ
sum_refunds p [] = pos 0
sum_refunds p (r ∷ rs) =
    if r.payment_id == p then r.amount +ℤ sum_refunds p rs else sum_refunds p rs

-- `Scan` of a sum, which PostgreSQL computes without bound, into an `int64`.
abbrev pub scan_int64 : ℤ → Result ℤ
scan_int64 z = if fits64 z then ok z else err db_failure
