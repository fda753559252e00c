-- ===== src/Accounting/Returned.antt =====
-- The refund entries of the ledger and the refunds that they stand for.
use pg_aggregator_back.Common.{
  ℕ, String, true, false, Option, ◌≡◌, refl, ◌∙◌, inl, inr, ℤ, pos, neg, ◌+ℤ◌, ◌-ℤ◌, ltb_ℤ, eqb_ℤ,
  int64, int64_in_range, int64_bounds, pos_part, int_laws, arith, ◌==◌, if◌then◌else◌, Bool-cases,
  ◌<◌, ◌^◌,
}
use pg_aggregator_back.Payment.{Payment}
use pg_aggregator_back.Ledger.{Refund}
use pg_aggregator_back.Store.{Db}
use pg_aggregator_back.Repository.Insert.{sum_refunds}
use pg_aggregator_back.Repository.Insert.Effect.{insert_entry-ok}
use pg_aggregator_back.Repository.Payments.{credit_entry}
use pg_aggregator_back.Repository.Payments.Effect.{Settles, paid_db}
use pg_aggregator_back.Repository.Refunds.{RefundRequest, RefundOutcome, refund_row}
use pg_aggregator_back.Repository.Refunds.Effect.{Refunds, remaining_of}
use pg_aggregator_back.Repository.Payouts.{payout_entry, reversal_entry, as_rejected}
use pg_aggregator_back.Repository.Balances.{sum_of, is_refund, adjustment_entry}
use pg_aggregator_back.Accounting.Effect.{
  Effect, nothing, created, moved, settled, given_back, asked, sent, turned_down, corrected,
}
use pg_aggregator_back.Accounting.Total.{total, sum_skip}
use pg_aggregator_back.Accounting.Earned.{insert_payment-ok}

-- What merchant `m` has given back by a refund.
abbrev pub returned : ℕ → Refund → ℤ
returned m r = if r.merchant_id == m then r.amount else pos 0

abbrev pub Returns : ℕ → Db → Type 0
Returns m d = sum_of is_refund m d.ledger ≡ neg (total (returned m) d.refunds)

-- The negation of an amount that an `int64` covers does not wrap around.
pub exact_neg :
    (z a : ℤ)
    → pos_part z < 2 ^ 63
    → ltb_ℤ (pos 0) a ≡ true
    → ltb_ℤ z a ≡ false
    → int64 (neg a) ≡ neg a
exact_neg z a bound h k = int64_in_range (neg a) (grind int_laws) (grind int_laws)

module _ (m : ℕ) where
  given_same :
      (r : RefundRequest) (reason : String) (p : Payment) (s t : ℤ)
      → int64 (neg r.amount) ≡ neg r.amount
      → s ≡ neg t
      → (if p.merchant_id == m then int64 (neg r.amount) +ℤ s else s)
        ≡ neg (returned m (refund_row r reason p) +ℤ t)
  given_same r reason p s t exact h = elim (Bool-cases (p.merchant_id == m)) [
    | inl mine ↦ rw (exact, mine) (grind int_laws)
    | inr foreign ↦ rw (foreign) (grind int_laws)
  ]

  Refunds-Returns :
      (r : RefundRequest) (reason : String) (o : RefundOutcome) (p : Payment) (d d' : Db)
      → Refunds r reason o p d d'
      → Returns m d
      → Returns m d'
  Refunds-Returns r reason o p d d' done h =
      let exact =
        exact_neg (remaining_of p d r.payment_id) r.amount
          (int64_bounds (p.merchant_net_amount -ℤ sum_refunds r.payment_id d.refunds)).0
          done.amount_pos done.covered in
      let same =
        given_same r reason p (sum_of is_refund m d.ledger) (total (returned m) d.refunds) exact
          h in
      elim (Bool-cases (eqb_ℤ (int64 (remaining_of p d r.payment_id -ℤ r.amount)) (pos 0))) [
        | inl full ↦ rw (done.books, full) (grind (arith, same))
        | inr partial ↦ rw (done.books, partial) (grind (arith, same))
      ]

  Settles-Returns :
      (entry_id id : ℕ) (paid_at : Option ℕ) (net : ℤ) (now : ℕ) (p : Payment) (d d' : Db)
      → Settles entry_id id paid_at net now p d d'
      → Returns m d
      → Returns m d'
  Settles-Returns entry_id id paid_at net now p d d' done h = elim done.books [
    | inl (due, inserted) ↦
        let entry = credit_entry entry_id p.merchant_id net id now in
        let (books, _, _) = insert_entry-ok entry (paid_db paid_at net now p d) inserted in
        rw (books) (sum_skip is_refund m entry d.ledger refl ∙ h)
    | inr (not_due, books) ↦ rw (books) h
  ]

  -- Every change keeps the refund entries equal to the refunds, with the sign turned.
  pub Effect-Returns : (d d' : Db) → Effect d d' → Returns m d → Returns m d'
  Effect-Returns d d' (nothing e) h = rw (e) h
  Effect-Returns d d' (created p e) h = rw (insert_payment-ok p d d' e) h
  Effect-Returns d d' (moved id new paid_at now p done) h = rw (done.books) h
  Effect-Returns d d' (settled entry_id id paid_at net now p done) h =
      Settles-Returns entry_id id paid_at net now p d d' done h
  Effect-Returns d d' (given_back r reason o p done) h = Refunds-Returns r reason o p d d' done h
  Effect-Returns d d' (asked r q done) h =
      rw (done.books) (sum_skip is_refund m (payout_entry r) d.ledger refl ∙ h)
  Effect-Returns d d' (sent k note q done) h = rw (done.books) h
  Effect-Returns d d' (turned_down k note q done) h =
      rw (done.books)
        (sum_skip is_refund m (reversal_entry k (as_rejected k note q)) d.ledger refl ∙ h)
  Effect-Returns d d' (corrected a reason e done) h =
      rw (done.books) (sum_skip is_refund m (adjustment_entry a reason) d.ledger refl ∙ h)
