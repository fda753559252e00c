-- ===== src/Repository/Refunds/Effect.antt =====
-- What `RefundWithRemaining` has done when it ended well, and that it has done nothing otherwise.
use text.Mathlib.Text.{◌==◌ as str_eq}
use pg_aggregator_back.Ledger.{max_reason_len, refund_debit, Refund}
use pg_aggregator_back.Common.{
  ltb, ℕ, String, Bool, true, false, not, Option, none, some, ◌∷◌, ◌≡◌, refl, sym, ap, ◌∙◌, inl,
  inr, ℤ, pos, neg, ◌-ℤ◌, int64, fits64, ltb_ℤ, leb_ℤ, eqb_ℤ, arith, Bool-cases, Option-cases,
  if◌then◌else◌,
}
use pg_aggregator_back.Errors.{
  Error, ok, err, payment_not_refundable, refund_exceeds_net, ledger_invalid_amount,
  reason_required, text_too_long,
}
use pg_aggregator_back.Payment.{
  Status, pending, paid, expired, failed, cancelled, refunded, other_status, production, Payment,
  status_eq,
}
use pg_aggregator_back.Payment.Request.{Strings}
use pg_aggregator_back.Store.{Db, Conn}
use pg_aggregator_back.Store.Table.{modify, find-key}
use pg_aggregator_back.Store.Action.{raise_if, ◌>>=◌, query, exec}
use pg_aggregator_back.Store.Inversion.{
  raise_if-ok, >>=-ok, query-ok, exec-ok, transaction-keeps, transaction-none, Atomic, guard-ok,
  guard-Atomic, transaction-Atomic, >>=-Atomic,
}
use pg_aggregator_back.Repository.Payments.Effect.{production_of}
use pg_aggregator_back.Repository.Insert.{insert_entry, insert_refund, sum_refunds, scan_int64}
use pg_aggregator_back.Repository.Insert.Effect.{insert_entry-ok, insert_refund-ok}
use pg_aggregator_back.Repository.Payments.{payment_key, find_payment, or_not_found}
use pg_aggregator_back.Repository.Refunds.{
  RefundRequest, RefundOutcome, is_refundable, refund_row, refund_entry, as_refunded,
  mark_refunded_at, mark_refunded, mark_if_full, outcome, record_refund, refund_locked,
  refund_transaction, or_failure, refund_with_remaining,
}

-- The refund of the amount to the payment.
abbrev pub refund_of : RefundRequest → String → Payment → Refund
refund_of r reason p = record {
  id = r.refund_id;
  payment_id = r.payment_id;
  merchant_id = p.merchant_id;
  amount = r.amount;
  reason = reason;
  created_by = r.admin_id;
  created_at = r.now;
}

-- The tables with the refund and the debit of the payment's merchant.
abbrev pub refunded_db : RefundRequest → String → Payment → Db → Db
refunded_db r reason p d = record d {
  refunds = refund_of r reason p ∷ d.refunds;
  ledger =
      record {
        id = r.entry_id;
        merchant_id = p.merchant_id;
        entry_type = refund_debit;
        amount = int64 (neg r.amount);
        payment_id = some r.payment_id;
        payout_id = none;
        refund_id = some r.refund_id;
        note = reason;
        created_by = r.admin_id;
        created_at = r.now;
      }
      ∷ d.ledger;
}

-- The payment `p` after a full refund.
abbrev pub refunded_payment : ℕ → Payment → Payment
refunded_payment now p = record p { status = refunded; updated_at = now }

abbrev pub fully_refunded_db : RefundRequest → String → Payment → Db → Db
fully_refunded_db r reason p d = record (refunded_db r reason p d) {
  payments = modify payment_key p.id (refunded_payment r.now) d.payments;
}

-- What is left to refund.
abbrev pub remaining_of : Payment → Db → ℕ → ℤ
remaining_of p d id = int64 (p.merchant_net_amount -ℤ sum_refunds id d.refunds)

-- A committed refund of payment `p`.
pub record Refunds (r : RefundRequest) (reason : String) (o : RefundOutcome) (p : Payment)
    (d d' : Db) : Type 0 where
  pub found : find_payment r.payment_id d ≡ some p
  pub is_id : p.id ≡ r.payment_id
  pub was_paid : p.status ≡ paid
  pub in_production : p.environment ≡ production
  pub net_pos : ltb_ℤ (pos 0) p.merchant_net_amount ≡ true
  pub refundable : is_refundable p ≡ true
  pub sum_fits : fits64 (sum_refunds r.payment_id d.refunds) ≡ true
  pub covered : ltb_ℤ (remaining_of p d r.payment_id) r.amount ≡ false
  pub amount_pos : ltb_ℤ (pos 0) r.amount ≡ true
  pub entry_neg : ltb_ℤ (int64 (neg r.amount)) (pos 0) ≡ true
  pub result : o ≡ (
      let left = int64 (remaining_of p d r.payment_id -ℤ r.amount) in
      record {
        refund = refund_of r reason p;
        full = eqb_ℤ left (pos 0);
        payment = (if eqb_ℤ left (pos 0) then refunded_payment r.now p else p);
        remaining = left;
      })
  pub books : d' ≡ (
      if eqb_ℤ (int64 (remaining_of p d r.payment_id -ℤ r.amount)) (pos 0)
      then fully_refunded_db r reason p d
      else refunded_db r reason p d)

paid_of : (s : Status) → status_eq s paid ≡ true → s ≡ paid
paid_of paid h = refl
paid_of pending h = cc
paid_of expired h = cc
paid_of failed h = cc
paid_of cancelled h = cc
paid_of refunded h = cc
paid_of (other_status s) h = cc

module _ (r : RefundRequest) (reason : String) (p : Payment) where
  scanned : (z : ℤ) {n : ℤ} → scan_int64 z ≡ ok n → (fits64 z ≡ true) × (n ≡ z)
  scanned z {n} h = ground arith

  mark_refunded-ok :
      (d d' : Db) {u : Unit {0}}
      → find_payment r.payment_id d ≡ some p
      → mark_refunded r.payment_id r.now d ≡ ok (u, d')
      → d' ≡ record d { payments = modify payment_key p.id (as_refunded r.now) d.payments }
  unfolding mark_refunded
  mark_refunded-ok d d' found h = marked (rw found at h)
    where
      marked :
          {u : Unit {0}}
          → mark_refunded_at r.now d (some p) ≡ ok (u, d')
          → d' ≡ record d { payments = modify payment_key p.id (as_refunded r.now) d.payments }
      marked h = ground arith

  mark_if_full-ok :
      (full : Bool) (c c' : Conn) {u : Unit {0}}
      → find_payment r.payment_id c.db ≡ some p
      → mark_if_full full r.payment_id r.now c ≡ (ok u, c')
      → c'.db ≡ (
          if full
          then record c.db { payments = modify payment_key p.id (as_refunded r.now) c.db.payments }
          else c.db)
  mark_if_full-ok full c c' found h = elim (Bool-cases full) [
    | inl t ↦ rw t (mark_refunded-ok c.db c'.db found (exec-ok _ c (rw t at h)))
    | inr f ↦ rw f (ap (λ x. x.1.db) (sym (rw f at h)))
  ]

  -- The three writes of a refund.
  record_refund-ok :
      (remaining : ℤ) (o : RefundOutcome) (c c' : Conn)
      → find_payment r.payment_id c.db ≡ some p
      → record_refund r reason p remaining c ≡ (ok (some o), c')
      → (o ≡ outcome r reason p (int64 (remaining -ℤ r.amount)))
        × (ltb_ℤ (pos 0) r.amount ≡ true)
        × (ltb_ℤ (int64 (neg r.amount)) (pos 0) ≡ true)
        × (c'.db ≡ (
            if eqb_ℤ (int64 (remaining -ℤ r.amount)) (pos 0)
            then fully_refunded_db r reason p c.db
            else refunded_db r reason p c.db))
  unfolding record_refund
  record_refund-ok remaining o c c' found h =
      let full : Bool = eqb_ℤ (int64 (remaining -ℤ r.amount)) (pos 0) in
      let (u, c₁, e₁, h₁) = >>=-ok (exec (insert_refund (refund_row r reason p))) _ c h in
      let (v, c₂, e₂, h₂) = >>=-ok (exec (insert_entry (refund_entry r reason p))) _ c₁ h₁ in
      let (w, c₃, e₃, h₃) = >>=-ok (mark_if_full full r.payment_id r.now) _ c₂ h₂ in
      let (d₁, positive) = insert_refund-ok (refund_row r reason p) c.db (exec-ok _ c e₁) in
      let (d₂, sign, _) = insert_entry-ok (refund_entry r reason p) c₁.db (exec-ok _ c₁ e₂) in
      let both : c₂.db ≡ refunded_db r reason p c.db = rw (d₂, d₁) refl in
      let marked = mark_if_full-ok full c₂ c₃ (rw both found) e₃ in
      (cc h₃, positive, sign, ap (λ x. x.1.db) (sym h₃) ∙ rw (both) at marked)

-- The checks under the lock, then the writes.
refund_locked-ok :
    (r : RefundRequest) (reason : String) (p : Payment) (o : RefundOutcome) (c c' : Conn)
    → find_payment r.payment_id c.db ≡ some p
    → refund_locked r reason p c ≡ (ok (some o), c')
    → Refunds r reason o p c.db c'.db
refund_locked-ok r reason p o c c' found h =
    let (u, c₁, e₁, h₁) = >>=-ok (raise_if (not (is_refundable p)) payment_not_refundable) _ c h in
    let (refundable, s₁) = raise_if-ok (not (is_refundable p)) payment_not_refundable e₁ in
    let (already, c₂, e₂, h₂) =
      >>=-ok (query (λ d. scan_int64 (sum_refunds r.payment_id d.refunds))) _ c₁ h₁ in
    let (read, s₂) = query-ok (λ d. scan_int64 (sum_refunds r.payment_id d.refunds)) c₁ e₂ in
    let (fits, is_sum) = scanned r reason p (sum_refunds r.payment_id c₁.db.refunds) read in
    let (v, c₃, e₃, h₃) =
      >>=-ok
        (raise_if (ltb_ℤ (int64 (p.merchant_net_amount -ℤ already)) r.amount) refund_exceeds_net) _
        c₂ h₂ in
    let (enough, s₃) =
      raise_if-ok (ltb_ℤ (int64 (p.merchant_net_amount -ℤ already)) r.amount) refund_exceeds_net
        e₃ in
    let same₁ : c₁.db ≡ c.db = ap (λ x. x.db) (sym s₁) in
    let same₃ : c₃.db ≡ c.db = ap (λ x. x.db) (sym s₃) ∙ s₂ ∙ same₁ in
    let sum_is : already ≡ sum_refunds r.payment_id c.db.refunds =
      is_sum ∙ ap (λ d. sum_refunds r.payment_id d.refunds) same₁ in
    let (result, positive, sign, books) =
      record_refund-ok r reason p (int64 (p.merchant_net_amount -ℤ already)) o c₃ c'
        (rw same₃ found) h₃ in
    let is_id : p.id ≡ r.payment_id = find-key payment_key r.payment_id c.db.payments found in
    record {
      found = found;
      is_id = is_id;
      was_paid = paid_of p.status (ground arith);
      in_production = production_of p.environment (ground arith);
      net_pos = ground arith;
      refundable = ground arith;
      sum_fits = rw (← same₁) fits;
      covered = rw (← sum_is) enough;
      amount_pos = positive;
      entry_neg = sign;
      result = rw (← sum_is) result;
      books = rw (← sum_is, ← same₃) books;
    }

found_payment :
    (id : ℕ) (d : Db) {p : Payment}
    → or_not_found (find_payment id d) ≡ ok p
    → find_payment id d ≡ some p
found_payment id d {p} h = elim (Option-cases (find_payment id d)) [
  | inl missing ↦ absurd (cc (rw missing at h))
  | inr (q, found) ↦ found ∙ cc (rw found at h)
]

-- What a refund has done to the tables, at the payment that it found.
abbrev pub RefundsSome : RefundRequest → String → RefundOutcome → Db → Db → Type 0
RefundsSome r reason o d d' = (p : Payment) × Refunds r reason o p d d'

refund_body-ok :
    (r : RefundRequest) (reason : String) (o : RefundOutcome) (c c' : Conn)
    → (query (λ d. or_not_found (find_payment r.payment_id d)) >>= refund_locked r reason) c
      ≡ (ok (some o), c')
    → RefundsSome r reason o c.db c'.db
refund_body-ok r reason o c c' h =
    let (p, c₁, e, rest) = >>=-ok (query (λ d. or_not_found (find_payment r.payment_id d))) _ c h in
    let (read, same) = query-ok (λ d. or_not_found (find_payment r.payment_id d)) c e in
    let found = found_payment r.payment_id c.db read in
    (p, rw (← same) (refund_locked-ok r reason p o c₁ c' (rw same found) rest))

module _ (go : Strings) (r : RefundRequest) where
  or_failure-ok :
      (row : Option RefundOutcome) (o : RefundOutcome) (c c' : Conn)
      → or_failure row c ≡ (ok o, c')
      → (row ≡ some o) × (c ≡ c')
  or_failure-ok none o c c' h = cc
  or_failure-ok (some x) o c c' h = (cc, cc)

  -- A refund that ended well was of a paid production payment with a positive net, and for at most
  -- what earlier refunds left of it. It has added the refund and the debit of the payment's
  -- merchant, has made the payment `refunded` if nothing is left, and has changed nothing else; and
  -- it returns the refund, the payment and what is left.
  pub refund_with_remaining-ok :
      (o : RefundOutcome) (c c' : Conn)
      → refund_with_remaining go r c ≡ (ok o, c')
      → RefundsSome r (go.trim_space r.reason) o c.db c'.db
  unfolding refund_with_remaining refund_transaction
  refund_with_remaining-ok o c c' h =
      let (_, h₁) = guard-ok (leb_ℤ r.amount (pos 0)) ledger_invalid_amount _ c c' h in
      let (_, h₂) = guard-ok (str_eq (go.trim_space r.reason) "") reason_required _ c c' h₁ in
      let (_, h₃) =
        guard-ok (ltb max_reason_len (go.rune_count (go.trim_space r.reason))) text_too_long _ c c'
          h₂ in
      let (row, c₁, ran, rest) =
        >>=-ok (refund_transaction r (go.trim_space r.reason)) or_failure c h₃ in
      let (is_o, same) = or_failure-ok row o c₁ c' rest in
      rw (← same) (
        transaction-keeps (RefundsSome r (go.trim_space r.reason) o) _ c c₁ o
          (refund_body-ok r (go.trim_space r.reason) o) (rw (is_o) at ran))

  or_failure-err :
      (row : Option RefundOutcome) (c c₁ c' : Conn) (e : Error)
      → refund_transaction r (go.trim_space r.reason) c ≡ (ok row, c₁)
      → or_failure row c₁ ≡ (err e, c')
      → c'.db ≡ c.db
  unfolding refund_transaction
  or_failure-err none c c₁ c' e ran rest = ap (λ x. x.1.db) (sym rest) ∙ transaction-none _ c ran
  or_failure-err (some o) c c₁ c' e ran rest = cc

  -- A refund that ended in an error has changed nothing.
  pub refund_with_remaining-Atomic : Atomic (refund_with_remaining go r)
  unfolding refund_with_remaining refund_transaction
  refund_with_remaining-Atomic = guard-Atomic (leb_ℤ r.amount (pos 0)) ledger_invalid_amount _ (
      guard-Atomic (str_eq (go.trim_space r.reason) "") reason_required _ (
        guard-Atomic (ltb max_reason_len (go.rune_count (go.trim_space r.reason))) text_too_long _ (
          >>=-Atomic (refund_transaction r (go.trim_space r.reason)) or_failure
            (transaction-Atomic _) or_failure-err)))
