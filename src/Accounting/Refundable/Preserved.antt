-- ===== src/Accounting/Refundable/Preserved.antt =====
-- Every change keeps the refunds of every payment within its net.
use pg_aggregator_back.Common.{
  ℕ, String, true, false, Option, none, some, ◌∷◌, ◌≡◌, refl, sym, ap, subst, inl, inr, ℤ, pos,
  ◌-ℤ◌, eqb_ℤ, int64, arith, ◌==◌, Bool-cases,
}
use pg_aggregator_back.Errors.{ok}
use pg_aggregator_back.Payment.{Payment}
use pg_aggregator_back.Store.{Db}
use pg_aggregator_back.Store.Table.{find}
use pg_aggregator_back.Repository.Insert.{sum_refunds}
use pg_aggregator_back.Repository.Insert.Effect.{insert_entry-ok}
use pg_aggregator_back.Repository.Payments.{
  insert_payment, payment_key, as_paid, with_status, credit_entry,
}
use pg_aggregator_back.Repository.Payments.Effect.{Settles, paid_db}
use pg_aggregator_back.Repository.Refunds.{RefundRequest, RefundOutcome, refund_row, as_refunded}
use pg_aggregator_back.Repository.Refunds.Effect.{Refunds, remaining_of}
use pg_aggregator_back.Accounting.Effect.{
  Effect, nothing, created, moved, settled, given_back, asked, sent, turned_down, corrected,
}
use pg_aggregator_back.Accounting.Earned.{insert_payment-ok}
use pg_aggregator_back.Accounting.Refundable.{
  Within, Covered, Covers-modify, clashes-find, insert_payment-fresh, Within-new_row,
  Within-with_status, Within-as_paid, Within-partial, Within-full,
}

module _ (j : ℕ) where
  creates-Covered :
      (p : Payment) (d d' : Db) → insert_payment p d ≡ ok (tt, d') → Covered j d → Covered j d'
  creates-Covered p d d' e h = elim (Bool-cases (p.id == j)) [
    | inl same ↦
        let fresh = clashes-find p d.payments (insert_payment-fresh p d d' e) in
        let eq : p.id ≡ j = ground arith in
        let missing : find payment_key j d.payments ≡ none =
          subst (λ i. find payment_key i d.payments ≡ none) eq fresh in
        let nil : sum_refunds j d.refunds ≡ pos 0 = rw (missing) at h in
        rw (insert_payment-ok p d d' e, same) (Within-new_row p (sum_refunds j d.refunds) nil)
    | inr other ↦ rw (insert_payment-ok p d d' e, other) h
  ]

  Settles-Covered :
      (entry_id id : ℕ) (paid_at : Option ℕ) (net : ℤ) (now : ℕ) (p : Payment) (d d' : Db)
      → Settles entry_id id paid_at net now p d d'
      → Covered j d
      → Covered j d'
  Settles-Covered entry_id id paid_at net now p d d' done h =
      let s = sum_refunds j d.refunds in
      let after : Covered j (paid_db paid_at net now p d) =
        Covers-modify j id (as_paid paid_at net now) p d.payments s s done.found refl (λ _. refl)
          (λ _ w. Within-as_paid paid_at net now p s done.allowed done.net_nonneg done.net_fits w)
          h in
      elim done.books [
        | inl (due, inserted) ↦
            let entry = credit_entry entry_id p.merchant_id net id now in
            let (books, _, _) = insert_entry-ok entry (paid_db paid_at net now p d) inserted in
            rw (books) after
        | inr (not_due, books) ↦ rw (books) after
      ]

  partly-Covered :
      (r : RefundRequest) (reason : String) (o : RefundOutcome) (p : Payment) (d d' : Db)
      → Refunds r reason o p d d'
      → eqb_ℤ (int64 (remaining_of p d r.payment_id -ℤ r.amount)) (pos 0) ≡ false
      → Covered j d
      → Covered j d'
  partly-Covered r reason o p d d' done partial h = elim (Bool-cases (r.payment_id == j)) [
    | inl same ↦
        let eq : r.payment_id ≡ j = ground arith in
        let sums = ap (λ i. sum_refunds i d.refunds) (sym eq) in
        let found : find payment_key j d.payments ≡ some p =
          subst (λ i. find payment_key i d.payments ≡ some p) eq done.found in
        let own : Within p (sum_refunds r.payment_id d.refunds) = rw (found, sums) at h in
        let kept =
          Within-partial p (sum_refunds r.payment_id d.refunds) r.amount own done.refundable
            done.amount_pos done.covered partial in
        rw (done.books, partial, same, found, sums) kept
    | inr other ↦ rw (done.books, partial, other) h
  ]

  fully-Covered :
      (r : RefundRequest) (reason : String) (o : RefundOutcome) (p : Payment) (d d' : Db)
      → Refunds r reason o p d d'
      → eqb_ℤ (int64 (remaining_of p d r.payment_id -ℤ r.amount)) (pos 0) ≡ true
      → Covered j d
      → Covered j d'
  fully-Covered r reason o p d d' done full h =
      let s = sum_refunds j d.refunds in
      let s' = sum_refunds j (refund_row r reason p ∷ d.refunds) in
      rw (done.books, full)
        (Covers-modify j r.payment_id (as_refunded r.now) p d.payments s s' done.found refl
          (λ other. rw (other) refl)
          (λ same w.
            let eq : j ≡ r.payment_id = ground arith in
            let sums = ap (λ i. sum_refunds i d.refunds) eq in
            let own : Within p (sum_refunds r.payment_id d.refunds) = rw (sums) at w in
            let kept =
              Within-full p (sum_refunds r.payment_id d.refunds) r.amount own done.refundable
                done.amount_pos done.covered r.now full in
            rw (same, sums) kept)
          h)

  pub Effect-Covered : (d d' : Db) → Effect d d' → Covered j d → Covered j d'
  Effect-Covered d d' (nothing e) h = rw (e) h
  Effect-Covered d d' (created p e) h = creates-Covered p d d' e h
  Effect-Covered d d' (moved id new paid_at now p done) h =
      let s = sum_refunds j d.refunds in
      rw (done.books) (
        Covers-modify j id (with_status new paid_at now) p d.payments s s done.found refl
          (λ _. refl)
          (λ _ w.
            Within-with_status new paid_at now p s done.allowed done.not_paid done.not_refunded w)
          h)
  Effect-Covered d d' (settled entry_id id paid_at net now p done) h =
      Settles-Covered entry_id id paid_at net now p d d' done h
  Effect-Covered d d' (given_back r reason o p done) h =
      elim (Bool-cases (eqb_ℤ (int64 (remaining_of p d r.payment_id -ℤ r.amount)) (pos 0))) [
        | inl full ↦ fully-Covered r reason o p d d' done full h
        | inr partial ↦ partly-Covered r reason o p d d' done partial h
      ]
  Effect-Covered d d' (asked r q done) h = rw (done.books) h
  Effect-Covered d d' (sent k note q done) h = rw (done.books) h
  Effect-Covered d d' (turned_down k note q done) h = rw (done.books) h
  Effect-Covered d d' (corrected a reason e done) h = rw (done.books) h
