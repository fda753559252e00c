-- ===== src/Accounting/Earned.antt =====
-- The credits in the ledger and the payments that earned them.
use pg_aggregator_back.Common.{
  ℕ, String, eqb_ℤ, int64, Bool, true, false, ◌&&◌, ◌||◌, Option, ◌∷◌, ◌≡◌, refl, sym, ◌∙◌, inl,
  inr, ℤ, pos, ◌+ℤ◌, ◌-ℤ◌, ltb_ℤ, ◌≤ℤ◌, int_laws, arith, ◌==◌, if◌then◌else◌, Bool-cases,
}
use pg_aggregator_back.Errors.{ok}
use pg_aggregator_back.Payment.{
  Status, paid, refunded, Payment, status_eq, is_production, allowed_source_statuses,
}
use pg_aggregator_back.Store.{Db}
use pg_aggregator_back.Repository.Insert.Effect.{insert_entry-ok}
use pg_aggregator_back.Repository.Payments.{
  insert_payment, new_row, payment_key, as_paid, with_status, guarded, credit_entry,
}
use pg_aggregator_back.Repository.Payments.Effect.{Settles, paid_db}
use pg_aggregator_back.Repository.Refunds.{
  RefundRequest, RefundOutcome, is_refundable, refund_entry, as_refunded,
}
use pg_aggregator_back.Repository.Refunds.Effect.{Refunds, remaining_of}
use pg_aggregator_back.Repository.Payouts.{payout_entry, reversal_entry, as_rejected}
use pg_aggregator_back.Repository.Balances.{sum_of, is_credit, adjustment_entry}
use pg_aggregator_back.Accounting.Effect.{
  Effect, nothing, created, moved, settled, given_back, asked, sent, turned_down, corrected,
}
use pg_aggregator_back.Accounting.Total.{
  total, total-modify, total-modify_same, find_again, sum_skip,
}

-- A payment that the customer has paid, refunded later or not.
abbrev pub is_settled : Status → Bool
is_settled s = status_eq s paid || status_eq s refunded

-- What merchant `m` has earned by a payment.
abbrev pub earned : ℕ → Payment → ℤ
earned m p =
    if p.merchant_id == m && is_production p.environment && is_settled p.status
    then p.merchant_net_amount
    else pos 0

-- The credits of `m` add up to what its payments earned.
abbrev pub Earns : ℕ → Db → Type 0
Earns m d = sum_of is_credit m d.ledger ≡ total (earned m) d.payments

zero_add : (t : ℤ) → pos 0 +ℤ t ≡ t
zero_add t = grind int_laws

pub insert_payment-ok :
    (p : Payment) (d d' : Db)
    → insert_payment p d ≡ ok (tt, d')
    → d' ≡ record d { payments = new_row p ∷ d.payments }
unfolding insert_payment
insert_payment-ok p d d' h = ground arith

refundable_settled : (p : Payment) → is_refundable p ≡ true → is_settled p.status ≡ true
refundable_settled p h = ground arith

module _ (m : ℕ) where
  earned-new_row : (p : Payment) → earned m (new_row p) ≡ pos 0
  earned-new_row p = ground arith

  earned-with_status :
      (new : Status) (paid_at : Option ℕ) (now : ℕ) (p : Payment)
      → guarded new p ≡ true
      → status_eq new paid ≡ false
      → status_eq new refunded ≡ false
      → earned m (with_status new paid_at now p) ≡ earned m p
  unfolding allowed_source_statuses
  earned-with_status new paid_at now p g a b = ground arith

  earned-as_refunded :
      (now : ℕ) (p : Payment)
      → is_settled p.status ≡ true
      → earned m (as_refunded now p) ≡ earned m p
  earned-as_refunded now p s = ground arith

  earned-before : (p : Payment) → guarded paid p ≡ true → earned m p ≡ pos 0
  unfolding allowed_source_statuses
  earned-before p g = ground arith

  -- A settlement adds the same amount on both sides.
  settled_same :
      (entry_id id : ℕ) (paid_at : Option ℕ) (net : ℤ) (now : ℕ) (p : Payment) (s t : ℤ)
      → is_production p.environment && ltb_ℤ (pos 0) net ≡ true
      → s ≡ t
      → (if p.merchant_id == m
            && is_credit (credit_entry entry_id p.merchant_id net id now).entry_type
          then net +ℤ s
          else s)
        ≡ t -ℤ pos 0 +ℤ earned m (as_paid paid_at net now p)
  settled_same entry_id id paid_at net now p s t due h = elim (Bool-cases (p.merchant_id == m)) [
    | inl mine ↦ grind int_laws
    | inr foreign ↦ grind int_laws
  ]

  settled_none :
      (paid_at : Option ℕ) (net : ℤ) (now : ℕ) (p : Payment) (t : ℤ)
      → is_production p.environment && ltb_ℤ (pos 0) net ≡ false
      → pos 0 ≤ℤ net
      → t ≡ t -ℤ pos 0 +ℤ earned m (as_paid paid_at net now p)
  settled_none paid_at net now p t not_due n =
      let nil : earned m (as_paid paid_at net now p) ≡ pos 0 = ground arith in
      rw (nil) (grind int_laws)

  Settles-Earns :
      (entry_id id : ℕ) (paid_at : Option ℕ) (net : ℤ) (now : ℕ) (p : Payment) (d d' : Db)
      → Settles entry_id id paid_at net now p d d'
      → Earns m d
      → Earns m d'
  Settles-Earns entry_id id paid_at net now p d d' done h =
      let again = find_again payment_key id d.payments done.found in
      let sum =
        total-modify (earned m) payment_key p.id (as_paid paid_at net now) d.payments again in
      let changed = rw (earned-before p done.allowed) at sum in
      elim done.books [
        | inl (due, inserted) ↦
            let (books, _, _) =
              insert_entry-ok (credit_entry entry_id p.merchant_id net id now)
                (paid_db paid_at net now p d) inserted in
            rw (books, changed)
              (settled_same entry_id id paid_at net now p (sum_of is_credit m d.ledger)
                (total (earned m) d.payments) due h)
        | inr (not_due, books) ↦
            rw (books, changed)
              (h
                ∙ settled_none paid_at net now p (total (earned m) d.payments) not_due
                    done.net_nonneg)
      ]

  Refunds-Earns :
      (r : RefundRequest) (reason : String) (o : RefundOutcome) (p : Payment) (d d' : Db)
      → Refunds r reason o p d d'
      → Earns m d
      → Earns m d'
  Refunds-Earns r reason o p d d' done h =
      let skip = sum_skip is_credit m (refund_entry r reason p) d.ledger refl in
      elim (Bool-cases (eqb_ℤ (int64 (remaining_of p d r.payment_id -ℤ r.amount)) (pos 0))) [
        | inl full ↦
            rw (done.books, full)
              (skip
                ∙ h
                ∙ sym (
                    total-modify_same (earned m) payment_key r.payment_id (as_refunded r.now)
                      d.payments done.found
                      (earned-as_refunded r.now p (refundable_settled p done.refundable))))
        | inr partial ↦ rw (done.books, partial) (skip ∙ h)
      ]

  -- Every change keeps the credits equal to the earnings.
  pub Effect-Earns : (d d' : Db) → Effect d d' → Earns m d → Earns m d'
  Effect-Earns d d' (nothing e) h = rw (e) h
  Effect-Earns d d' (created p e) h =
      rw (insert_payment-ok p d d' e, earned-new_row p)
        (h ∙ sym (zero_add (total (earned m) d.payments)))
  Effect-Earns d d' (moved id new paid_at now p done) h = rw (done.books) (
      h
      ∙ sym (
          total-modify_same (earned m) payment_key id (with_status new paid_at now) d.payments
            done.found
            (earned-with_status new paid_at now p done.allowed done.not_paid done.not_refunded)))
  Effect-Earns d d' (settled entry_id id paid_at net now p done) h =
      Settles-Earns entry_id id paid_at net now p d d' done h
  Effect-Earns d d' (given_back r reason o p done) h = Refunds-Earns r reason o p d d' done h
  Effect-Earns d d' (asked r q done) h =
      rw (done.books) (sum_skip is_credit m (payout_entry r) d.ledger refl ∙ h)
  Effect-Earns d d' (sent k note q done) h = rw (done.books) h
  Effect-Earns d d' (turned_down k note q done) h =
      rw (done.books)
        (sum_skip is_credit m (reversal_entry k (as_rejected k note q)) d.ledger refl ∙ h)
  Effect-Earns d d' (corrected a reason e done) h =
      rw (done.books) (sum_skip is_credit m (adjustment_entry a reason) d.ledger refl ∙ h)
