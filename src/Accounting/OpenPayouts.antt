-- ===== src/Accounting/OpenPayouts.antt =====
-- The open payouts of a merchant: there is never more than one.
use pg_aggregator_back.Common.{
  ℕ, String, false, ◌&&◌, Option, some, ◌∷◌, ◌≡◌, refl, inl, inr, ℤ, pos, ◌+ℤ◌, ◌-ℤ◌, int64, eqb_ℤ,
  ◌≤ℤ◌, int_laws, arith, ◌==◌, if◌then◌else◌, Bool-cases, List, [],
}
use pg_aggregator_back.Payment.{Payment}
use pg_aggregator_back.Ledger.{Payout, is_requested}
use pg_aggregator_back.Store.{Db}
use pg_aggregator_back.Store.Table.{find, modify}
use pg_aggregator_back.Repository.Insert.{has_open_payout}
use pg_aggregator_back.Repository.Insert.Effect.{insert_entry-ok}
use pg_aggregator_back.Repository.Payments.{credit_entry}
use pg_aggregator_back.Repository.Payments.Effect.{Settles, paid_db}
use pg_aggregator_back.Repository.Refunds.{RefundRequest, RefundOutcome}
use pg_aggregator_back.Repository.Refunds.Effect.{Refunds, remaining_of}
use pg_aggregator_back.Repository.Payouts.{
  payout_key, PayoutRequest, Account, payout_row, as_rejected, as_transferred,
}
use pg_aggregator_back.Accounting.Effect.{
  Effect, nothing, created, moved, settled, given_back, asked, sent, turned_down, corrected,
}
use pg_aggregator_back.Accounting.Total.{total, total-modify, find_again}
use pg_aggregator_back.Accounting.Earned.{insert_payment-ok}

-- 1 for an open payout of merchant `m`.
abbrev pub open_weight : ℕ → Payout → ℤ
open_weight m q = if q.merchant_id == m && is_requested q.status then pos 1 else pos 0

-- At most one payout of `m` is open.
abbrev pub OneOpen : ℕ → Db → Type 0
OneOpen m d = total (open_weight m) d.payouts ≤ℤ pos 1

module _ (m : ℕ) where
  none_open : (qs : List Payout) → has_open_payout m qs ≡ false → total (open_weight m) qs ≡ pos 0
  none_open [] h = refl
  none_open (q ∷ qs) h = grind (int_laws, none_open qs)

  open_weight-le : (q : Payout) → open_weight m q ≤ℤ pos 1
  open_weight-le q = ground arith

  lowered : (t a b : ℤ) → t ≤ℤ pos 1 → b ≤ℤ a → t -ℤ a +ℤ b ≤ℤ pos 1
  lowered t a b h k = grind int_laws

  -- A change that closes a payout, or leaves it open.
  closes-OneOpen :
      (id : ℕ) (f : Payout → Payout) (q : Payout) (qs : List Payout)
      → find payout_key id qs ≡ some q
      → open_weight m (f q) ≤ℤ open_weight m q
      → total (open_weight m) qs ≤ℤ pos 1
      → total (open_weight m) (modify payout_key q.id f qs) ≤ℤ pos 1
  closes-OneOpen id f q qs found le h =
      let sum =
        total-modify (open_weight m) payout_key q.id f qs (find_again payout_key id qs found) in
      rw (sum) (lowered (total (open_weight m) qs) (open_weight m q) (open_weight m (f q)) h le)

  opens-OneOpen :
      (r : PayoutRequest) (a : Account) (qs : List Payout)
      → has_open_payout r.merchant_id qs ≡ false
      → total (open_weight m) qs ≤ℤ pos 1
      → open_weight m (payout_row r a) +ℤ total (open_weight m) qs ≤ℤ pos 1
  opens-OneOpen r a qs closed h = elim (Bool-cases (r.merchant_id == m)) [
    | inl mine ↦
        let same : r.merchant_id ≡ m = ground arith in
        let nil : total (open_weight m) qs ≡ pos 0 = none_open qs (rw (same) at closed) in
        rw (mine, nil) (grind int_laws)
    | inr foreign ↦ rw (foreign) (grind int_laws)
  ]

  Settles-OneOpen :
      (entry_id id : ℕ) (paid_at : Option ℕ) (net : ℤ) (now : ℕ) (p : Payment) (d d' : Db)
      → Settles entry_id id paid_at net now p d d'
      → OneOpen m d
      → OneOpen m d'
  Settles-OneOpen entry_id id paid_at net now p d d' done h = elim done.books [
    | inl (due, inserted) ↦
        let entry = credit_entry entry_id p.merchant_id net id now in
        let (books, _, _) = insert_entry-ok entry (paid_db paid_at net now p d) inserted in
        rw (books) h
    | inr (not_due, books) ↦ rw (books) h
  ]

  Refunds-OneOpen :
      (r : RefundRequest) (reason : String) (o : RefundOutcome) (p : Payment) (d d' : Db)
      → Refunds r reason o p d d'
      → OneOpen m d
      → OneOpen m d'
  Refunds-OneOpen r reason o p d d' done h =
      elim (Bool-cases (eqb_ℤ (int64 (remaining_of p d r.payment_id -ℤ r.amount)) (pos 0))) [
        | inl full ↦ rw (done.books, full) h
        | inr partial ↦ rw (done.books, partial) h
      ]

  -- Every change keeps at most one payout open.
  pub Effect-OneOpen : (d d' : Db) → Effect d d' → OneOpen m d → OneOpen m d'
  Effect-OneOpen d d' (nothing e) h = rw (e) h
  Effect-OneOpen d d' (created p e) h = rw (insert_payment-ok p d d' e) h
  Effect-OneOpen d d' (moved id new paid_at now p done) h = rw (done.books) h
  Effect-OneOpen d d' (settled entry_id id paid_at net now p done) h =
      Settles-OneOpen entry_id id paid_at net now p d d' done h
  Effect-OneOpen d d' (given_back r reason o p done) h = Refunds-OneOpen r reason o p d d' done h
  Effect-OneOpen d d' (asked r q done) h =
      rw (done.books) (opens-OneOpen r done.destination d.payouts done.none_open h)
  Effect-OneOpen d d' (sent k note q done) h =
      rw (done.books)
        (closes-OneOpen k.payout_id (as_transferred k note) q d.payouts done.found (ground arith) h)
  Effect-OneOpen d d' (turned_down k note q done) h =
      rw (done.books)
        (closes-OneOpen k.payout_id (as_rejected k note) q d.payouts done.found (ground arith) h)
  Effect-OneOpen d d' (corrected a reason e done) h = rw (done.books) h
