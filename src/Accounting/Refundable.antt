-- ===== src/Accounting/Refundable.antt =====
-- The refunds of one payment never exceed what the merchant earned by it, and a payment is
-- `refunded` exactly when they reach it.
pub mod Preserved
use pg_aggregator_back.Common.{
  ℕ, String, Bool, true, false, not, ◌&&◌, ◌||◌, Option, none, some, List, [], ◌∷◌, ◌≡◌, refl, sym,
  ap, ◌∙◌, ◌⊎◌, inl, inr, ℤ, pos, neg, ◌+ℤ◌, ◌-ℤ◌, ltb_ℤ, eqb_ℤ, int64, int64_in_range, ◌≤ℤ◌,
  pos_part, neg_part, int_laws, arith, ◌==◌, ◌<◌, ◌^◌, if◌then◌else◌, Bool-cases, ==_iff,
}
use pg_aggregator_back.Errors.{ok}
use pg_aggregator_back.Payment.{
  Status, paid, refunded, Payment, status_eq, is_production, allowed_source_statuses,
}
use pg_aggregator_back.Ledger.{Refund}
use pg_aggregator_back.Store.{Db}
use pg_aggregator_back.Store.Table.{find, modify, find-key, find-modify}
use pg_aggregator_back.Repository.Insert.{sum_refunds}
use pg_aggregator_back.Repository.Insert.Effect.{insert_entry-ok}
use pg_aggregator_back.Repository.Payments.{
  insert_payment, new_row, payment_clashes, payment_key, find_payment, as_paid, with_status,
  guarded, credit_entry,
}
use pg_aggregator_back.Repository.Payments.Effect.{Settles, paid_db}
use pg_aggregator_back.Repository.Payments.Moves.{Moves}
use pg_aggregator_back.Repository.Refunds.{
  RefundRequest, RefundOutcome, is_refundable, refund_row, as_refunded,
}
use pg_aggregator_back.Repository.Refunds.Effect.{Refunds, remaining_of}
use pg_aggregator_back.Accounting.Effect.{
  Effect, nothing, created, moved, settled, given_back, asked, sent, turned_down, corrected,
}
use pg_aggregator_back.Accounting.Earned.{insert_payment-ok, is_settled}

-- The refunds of a payment add up to `s`: nothing before it is paid, at most its net, all of the
-- net once it is `refunded`. There are no refunds of a payment that does not exist.
pub record Within (p : Payment) (s : ℤ) : Type 0 where
  pub net_nonneg : pos 0 ≤ℤ p.merchant_net_amount
  pub net_fits : pos_part p.merchant_net_amount < 2 ^ 63
  pub sum_nonneg : pos 0 ≤ℤ s
  pub sum_le : s ≤ℤ p.merchant_net_amount
  pub unpaid : (is_settled p.status ≡ true) ⊎ (s ≡ pos 0)
  pub all : (status_eq p.status refunded ≡ false) ⊎ (s ≡ p.merchant_net_amount)

abbrev pub Covers : Option Payment → ℤ → Type 0
Covers none s = s ≡ pos 0
Covers (some p) s = Within p s

abbrev pub Covered : ℕ → Db → Type 0
Covered id d = Covers (find_payment id d) (sum_refunds id d.refunds)

-- The update of one row, with what it does to the sum of that payment's refunds.
pub Covers-modify :
    (j k : ℕ) (f : Payment → Payment) (p : Payment) (ps : List Payment) (s s' : ℤ)
    → find payment_key k ps ≡ some p
    → (f p).id ≡ p.id
    → (k == j ≡ false → s' ≡ s)
    → (k == j ≡ true → Within p s → Within (f p) s')
    → Covers (find payment_key j ps) s
    → Covers (find payment_key j (modify payment_key p.id f ps)) s'
Covers-modify j k f p ps s s' found key_kept foreign own h =
    let is_k : p.id ≡ k = find-key payment_key k ps found in
    let seen = find-modify payment_key k j f ps found key_kept in
    elim (Bool-cases (k == j)) [
      | inl same ↦
          let eq : k ≡ j = ground arith in rw (is_k, seen, same) (own same (rw (← eq, found) at h))
      | inr other ↦ rw (is_k, seen, other, foreign other) h
    ]

pub clashes-find :
    (p : Payment) (ps : List Payment)
    → payment_clashes p ps ≡ false
    → find payment_key p.id ps ≡ none
clashes-find p [] h = refl
clashes-find p (q ∷ ps) h = ground (arith, clashes-find p ps)

unless : {b : Bool} {X : Type 0} → (b ≡ true) ⊎ X → b ≡ false → X
unless (inl t) f = absurd (cc (t, f))
unless (inr x) f = x

pub insert_payment-fresh :
    (p : Payment) (d d' : Db)
    → insert_payment p d ≡ ok (tt, d')
    → payment_clashes p d.payments ≡ false
unfolding insert_payment
insert_payment-fresh p d d' h = ground arith

pub Within-new_row : (p : Payment) (s : ℤ) → s ≡ pos 0 → Within (new_row p) s
Within-new_row p s h = record {
  net_nonneg = omega arith;
  net_fits = omega arith;
  sum_nonneg = rw h (omega arith);
  sum_le = rw h (omega arith);
  unpaid = inr h;
  all = inr h;
}

pub Within-with_status :
    (new : Status) (paid_at : Option ℕ) (now : ℕ) (p : Payment) (s : ℤ)
    → guarded new p ≡ true
    → status_eq new paid ≡ false
    → status_eq new refunded ≡ false
    → Within p s
    → Within (with_status new paid_at now p) s
unfolding allowed_source_statuses
Within-with_status new paid_at now p s g a b h =
    let before : is_settled p.status ≡ false = ground arith in
    let nil = unless h.unpaid before in
    record {
      net_nonneg = h.net_nonneg;
      net_fits = h.net_fits;
      sum_nonneg = h.sum_nonneg;
      sum_le = h.sum_le;
      unpaid = inr nil;
      all = inl b;
    }

pub Within-as_paid :
    (paid_at : Option ℕ) (net : ℤ) (now : ℕ) (p : Payment) (s : ℤ)
    → guarded paid p ≡ true
    → pos 0 ≤ℤ net
    → pos_part net < 2 ^ 63
    → Within p s
    → Within (as_paid paid_at net now p) s
unfolding allowed_source_statuses
Within-as_paid paid_at net now p s g n f h =
    let before : is_settled p.status ≡ false = ground arith in
    let nil = unless h.unpaid before in
    record {
      net_nonneg = n;
      net_fits = f;
      sum_nonneg = h.sum_nonneg;
      sum_le = rw nil n;
      unpaid = inl refl;
      all = inl refl;
    }

-- What is left can be computed without wrap-around.
remaining_exact :
    (p : Payment) (s : ℤ)
    → Within p s
    → int64 (p.merchant_net_amount -ℤ s) ≡ p.merchant_net_amount -ℤ s
remaining_exact p s h =
    let a = h.net_nonneg in
    let b = h.net_fits in
    let c = h.sum_nonneg in
    let e = h.sum_le in
    int64_in_range (p.merchant_net_amount -ℤ s) (grind int_laws) (grind int_laws)

-- A refund that is covered stays within the net; it is full exactly when nothing is left.
module _ (p : Payment) (s a : ℤ) (h : Within p s) (refundable : is_refundable p ≡ true)
    (positive : ltb_ℤ (pos 0) a ≡ true)
    (covered : ltb_ℤ (int64 (p.merchant_net_amount -ℤ s)) a ≡ false) where
  left_exact : int64 (int64 (p.merchant_net_amount -ℤ s) -ℤ a) ≡ p.merchant_net_amount -ℤ s -ℤ a
  left_exact =
      let exact = remaining_exact p s h in
      let enough = rw (exact) at covered in
      let b = h.net_fits in
      let c = h.sum_nonneg in
      rw (exact)
        (int64_in_range (p.merchant_net_amount -ℤ s -ℤ a) (grind int_laws) (grind int_laws))

  pub Within-partial :
      eqb_ℤ (int64 (int64 (p.merchant_net_amount -ℤ s) -ℤ a)) (pos 0) ≡ false → Within p (a +ℤ s)
  Within-partial more =
      let exact = remaining_exact p s h in
      let enough = rw (exact) at covered in
      let c = h.sum_nonneg in
      record {
        net_nonneg = h.net_nonneg;
        net_fits = h.net_fits;
        sum_nonneg = grind int_laws;
        sum_le = grind int_laws;
        unpaid = inl (ground arith);
        all = inl (ground arith);
      }

  pub Within-full :
      (now : ℕ)
      → eqb_ℤ (int64 (int64 (p.merchant_net_amount -ℤ s) -ℤ a)) (pos 0) ≡ true
      → Within (as_refunded now p) (a +ℤ s)
  Within-full now full =
      let exact = remaining_exact p s h in
      let enough = rw (exact) at covered in
      let nothing_left = rw (left_exact) at full in
      let c = h.sum_nonneg in
      record {
        net_nonneg = h.net_nonneg;
        net_fits = h.net_fits;
        sum_nonneg = grind int_laws;
        sum_le = grind int_laws;
        unpaid = inl refl;
        all = inr (grind int_laws);
      }
