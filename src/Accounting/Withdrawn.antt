-- ===== src/Accounting/Withdrawn.antt =====
-- The payout entries of the ledger and the payouts that they stand for.
use pg_aggregator_back.Common.{
  ℕ, String, Bool, true, false, not, ◌&&◌, Option, ◌≡◌, refl, sym, ap, ◌∙◌, inl, inr, ℤ, pos, neg,
  ◌+ℤ◌, ◌-ℤ◌, int64, eqb_ℤ, pos_part, int_laws, arith, ◌==◌, if◌then◌else◌, Bool-cases, fits64, ◌<◌,
  ◌^◌,
}
use pg_aggregator_back.Payment.{Payment}
use pg_aggregator_back.Ledger.{Payout, PayoutStatus, rejected, is_requested}
use pg_aggregator_back.Store.{Db}
use pg_aggregator_back.Repository.Insert.{sum_ledger}
use pg_aggregator_back.Repository.Insert.Effect.{insert_entry-ok}
use pg_aggregator_back.Repository.Payments.{credit_entry}
use pg_aggregator_back.Repository.Payments.Effect.{Settles, paid_db}
use pg_aggregator_back.Repository.Refunds.{RefundRequest, RefundOutcome, refund_entry}
use pg_aggregator_back.Repository.Refunds.Effect.{Refunds, remaining_of}
use pg_aggregator_back.Repository.Payouts.{
  payout_key, PayoutRequest, Account, payout_row, Decision, as_rejected, as_transferred,
}
use pg_aggregator_back.Repository.Payouts.Effect.{Requests}
use pg_aggregator_back.Repository.Payouts.Processed.{Rejects}
use pg_aggregator_back.Repository.Balances.{sum_of, is_payout, adjustment_entry}
use pg_aggregator_back.Accounting.Effect.{
  Effect, nothing, created, moved, settled, given_back, asked, sent, turned_down, corrected,
}
use pg_aggregator_back.Accounting.Total.{
  total, total-modify, total-modify_same, find_again, sum_skip,
}
use pg_aggregator_back.Accounting.Earned.{insert_payment-ok}
use pg_aggregator_back.Accounting.Returned.{exact_neg}

abbrev pub is_rejected : PayoutStatus → Bool
is_rejected rejected = true
is_rejected _ = false

-- What a payout has taken from merchant `m`: nothing once it is rejected.
abbrev pub withdrawn : ℕ → Payout → ℤ
withdrawn m q = if q.merchant_id == m && not (is_rejected q.status) then q.amount else pos 0

abbrev pub Withdraws : ℕ → Db → Type 0
Withdraws m d = sum_of is_payout m d.ledger ≡ neg (total (withdrawn m) d.payouts)

pub fits_below : (z : ℤ) → fits64 z ≡ true → pos_part z < 2 ^ 63
fits_below z h = ground arith

module _ (m : ℕ) where
  asked_same :
      (r : PayoutRequest) (a : Account) (s t : ℤ)
      → int64 (neg r.amount) ≡ neg r.amount
      → s ≡ neg t
      → (if r.merchant_id == m then int64 (neg r.amount) +ℤ s else s)
        ≡ neg (withdrawn m (payout_row r a) +ℤ t)
  asked_same r a s t exact h = elim (Bool-cases (r.merchant_id == m)) [
    | inl mine ↦ rw (exact, mine) (grind int_laws)
    | inr foreign ↦ rw (foreign) (grind int_laws)
  ]

  withdrawn-as_rejected :
      (k : Decision) (note : String) (q : Payout) → withdrawn m (as_rejected k note q) ≡ pos 0
  withdrawn-as_rejected k note q = ground arith

  withdrawn-as_transferred :
      (k : Decision) (note : String) (q : Payout)
      → is_requested q.status ≡ true
      → withdrawn m (as_transferred k note q) ≡ withdrawn m q
  withdrawn-as_transferred k note q h = ground arith

  -- A rejection gives back what the request took.
  reversed_same :
      (q : Payout) (s t : ℤ)
      → is_requested q.status ≡ true
      → s ≡ neg t
      → (if q.merchant_id == m then q.amount +ℤ s else s) ≡ neg (t -ℤ withdrawn m q +ℤ pos 0)
  reversed_same q s t still_open h = elim (Bool-cases (q.merchant_id == m)) [
    | inl mine ↦
        let all : withdrawn m q ≡ q.amount = ground arith in rw (all, mine) (grind int_laws)
    | inr foreign ↦
        let nil : withdrawn m q ≡ pos 0 = ground arith in rw (nil, foreign) (grind int_laws)
  ]

  Requests-Withdraws :
      (r : PayoutRequest) (q : Payout) (d d' : Db)
      → Requests r q d d'
      → Withdraws m d
      → Withdraws m d'
  Requests-Withdraws r q d d' done h =
      let bound : pos_part (sum_ledger r.merchant_id d.ledger) < 2 ^ 63 =
        fits_below (sum_ledger r.merchant_id d.ledger) done.balance_fits in
      let exact =
        exact_neg (sum_ledger r.merchant_id d.ledger) r.amount bound done.amount_pos done.covered in
      let same =
        asked_same r done.destination (sum_of is_payout m d.ledger) (total (withdrawn m) d.payouts)
          exact h in
      rw (done.books) (grind (arith, same))

  Rejects-Withdraws :
      (k : Decision) (note : String) (q : Payout) (d d' : Db)
      → Rejects k note q d d'
      → Withdraws m d
      → Withdraws m d'
  Rejects-Withdraws k note q d d' done h =
      let sum =
        total-modify (withdrawn m) payout_key q.id (as_rejected k note) d.payouts
          (find_again payout_key k.payout_id d.payouts done.found) in
      let same =
        reversed_same q (sum_of is_payout m d.ledger) (total (withdrawn m) d.payouts)
          done.open_before h in
      rw (done.books, sum, withdrawn-as_rejected k note q) (grind (arith, same))

  Refunds-Withdraws :
      (r : RefundRequest) (reason : String) (o : RefundOutcome) (p : Payment) (d d' : Db)
      → Refunds r reason o p d d'
      → Withdraws m d
      → Withdraws m d'
  Refunds-Withdraws r reason o p d d' done h =
      let skip = sum_skip is_payout m (refund_entry r reason p) d.ledger refl in
      elim (Bool-cases (eqb_ℤ (int64 (remaining_of p d r.payment_id -ℤ r.amount)) (pos 0))) [
        | inl full ↦ rw (done.books, full) (skip ∙ h)
        | inr partial ↦ rw (done.books, partial) (skip ∙ h)
      ]

  Settles-Withdraws :
      (entry_id id : ℕ) (paid_at : Option ℕ) (net : ℤ) (now : ℕ) (p : Payment) (d d' : Db)
      → Settles entry_id id paid_at net now p d d'
      → Withdraws m d
      → Withdraws m d'
  Settles-Withdraws entry_id id paid_at net now p d d' done h = elim done.books [
    | inl (due, inserted) ↦
        let entry = credit_entry entry_id p.merchant_id net id now in
        let (books, _, _) = insert_entry-ok entry (paid_db paid_at net now p d) inserted in
        rw (books) (sum_skip is_payout m entry d.ledger refl ∙ h)
    | inr (not_due, books) ↦ rw (books) h
  ]

  -- Every change keeps the payout entries equal to the payouts that stand, with the sign turned.
  pub Effect-Withdraws : (d d' : Db) → Effect d d' → Withdraws m d → Withdraws m d'
  Effect-Withdraws d d' (nothing e) h = rw (e) h
  Effect-Withdraws d d' (created p e) h = rw (insert_payment-ok p d d' e) h
  Effect-Withdraws d d' (moved id new paid_at now p done) h = rw (done.books) h
  Effect-Withdraws d d' (settled entry_id id paid_at net now p done) h =
      Settles-Withdraws entry_id id paid_at net now p d d' done h
  Effect-Withdraws d d' (given_back r reason o p done) h =
      Refunds-Withdraws r reason o p d d' done h
  Effect-Withdraws d d' (asked r q done) h = Requests-Withdraws r q d d' done h
  Effect-Withdraws d d' (sent k note q done) h = rw (done.books) (
      h
      ∙ ap neg (
          sym (
            total-modify_same (withdrawn m) payout_key k.payout_id (as_transferred k note) d.payouts
              done.found (withdrawn-as_transferred k note q done.open_before))))
  Effect-Withdraws d d' (turned_down k note q done) h = Rejects-Withdraws k note q d d' done h
  Effect-Withdraws d d' (corrected a reason e done) h =
      rw (done.books) (sum_skip is_payout m (adjustment_entry a reason) d.ledger refl ∙ h)
