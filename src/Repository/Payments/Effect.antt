-- ===== src/Repository/Payments/Effect.antt =====
-- What `MarkPaid` and `UpdateStatus` have done when they ended well, under any schedule of failing
-- statements; and that they have done nothing when they ended in an error.
use pg_aggregator_back.Common.{
  ℕ, true, false, ◌&&◌, ◌∷◌, Option, none, some, ◌≡◌, refl, sym, ap, ◌∙◌, ◌⊎◌, inl, inr, ℤ, pos,
  pos_part, ◌≤ℤ◌, ltb_ℤ, ◌<◌, ◌^◌, arith, Option-cases, Bool-cases,
}
use pg_aggregator_back.Errors.{Error, ok, err}
use pg_aggregator_back.Payment.{
  Status, pending, paid, expired, Environment, sandbox, production, other_environment, Payment,
  is_production, can_transition_to,
}
use pg_aggregator_back.Payment.Transitions.{
  ◌⟶◌, settle as settle_arrow, settle_late, arrow_of_allowed,
}
use pg_aggregator_back.Ledger.{payment_credit}
use pg_aggregator_back.Repository.Insert.Effect.{insert_entry-ok}
use pg_aggregator_back.Store.{Db, Conn}
use pg_aggregator_back.Store.Table.{modify, find-key}
use pg_aggregator_back.Store.Action.{◌>>=◌, exec}
use pg_aggregator_back.Store.Inversion.{
  ReadsOnly, >>=-ok, >>=-err, >>=-ReadsOnly, query-ReadsOnly, exec-ok, transaction-err,
  transaction-none, transaction-keeps,
}
use pg_aggregator_back.Repository.Insert.{insert_entry}
use pg_aggregator_back.Repository.Payments.{
  payment_key, find_payment, get_by_id, classify, guarded, Settled, settle_at, settle_row,
  credit_entry, credit, credited, settle, mark_paid, or_classify,
}

-- The tables in which the payment `p` is paid with the net `net`, and nothing else has changed.
abbrev pub paid_db : Option ℕ → ℤ → ℕ → Payment → Db → Db
paid_db paid_at net now p d = record d {
  payments =
      modify payment_key p.id
        (λ (q : Payment). record q {
          status = paid;
          paid_at = paid_at;
          merchant_net_amount = net;
          updated_at = now;
        })
        d.payments;
}

-- The same with a credit of the net to the payment's merchant, for that payment.
abbrev pub credited_db : ℕ → ℕ → Option ℕ → ℤ → ℕ → Payment → Db → Db
credited_db entry_id id paid_at net now p d = record (paid_db paid_at net now p d) {
  ledger =
      record {
        id = entry_id;
        merchant_id = p.merchant_id;
        entry_type = payment_credit;
        amount = net;
        payment_id = some id;
        payout_id = none;
        refund_id = none;
        note = "";
        created_by = none;
        created_at = now;
      }
      ∷ d.ledger;
}

-- A credit is due: the payment is a production payment and the net is positive.
abbrev pub Due : Payment → ℤ → Type 0
Due p net = (p.environment ≡ production) × (ltb_ℤ (pos 0) net ≡ true)

-- A committed settlement of payment `p`: the row, and the credit exactly when one is due.
pub record Settles (entry_id id : ℕ) (paid_at : Option ℕ) (net : ℤ) (now : ℕ) (p : Payment)
    (d d' : Db) : Type 0 where
  pub found : find_payment id d ≡ some p
  pub is_id : p.id ≡ id
  pub was_open : (p.status ≡ pending) ⊎ (p.status ≡ expired)
  pub allowed : guarded paid p ≡ true
  pub net_nonneg : pos 0 ≤ℤ net
  pub net_fits : pos_part net < 2 ^ 63
  pub books :
      ((is_production p.environment && ltb_ℤ (pos 0) net ≡ true)
        × (insert_entry
              (credit_entry entry_id p.merchant_id net id now)
              (paid_db paid_at net now p d)
            ≡ ok (tt, d')))
      ⊎ ((is_production p.environment && ltb_ℤ (pos 0) net ≡ false)
          × (d' ≡ paid_db paid_at net now p d))
  pub rows :
      (Due p net × (d' ≡ credited_db entry_id id paid_at net now p d))
      ⊎ ((¬ Due p net) × (d' ≡ paid_db paid_at net now p d))

open_of : {s : Status} → s ⟶ paid → (s ≡ pending) ⊎ (s ≡ expired)
open_of settle_arrow = inl refl
open_of settle_late = inr refl

was_open_of : (p : Payment) → guarded paid p ≡ true → (p.status ≡ pending) ⊎ (p.status ≡ expired)
unfolding can_transition_to
was_open_of p h = open_of (arrow_of_allowed p.status paid h)

pub production_of : (e : Environment) → is_production e ≡ true → e ≡ production
production_of production h = refl
production_of sandbox h = cc
production_of (other_environment s) h = cc

Due-of :
    (p : Payment) (net : ℤ) → (is_production p.environment && ltb_ℤ (pos 0) net) ≡ true → Due p net
Due-of p net h = (production_of p.environment (ground arith), ground arith)

Due-not :
    (p : Payment) (net : ℤ)
    → (is_production p.environment && ltb_ℤ (pos 0) net) ≡ false
    → ¬ Due p net
Due-not p net h (live, positive) = cc (rw (live, positive) at h)

pub classify-err :
    {A : Type 0} (id : ℕ) (c : Conn) {c' : Conn} {a : A} → classify id c ≡ (ok a, c') → ⊥
unfolding classify
classify-err id c h = let (p, c₁, _, e) = >>=-ok (get_by_id id) _ c h in cc e

pub classify-ReadsOnly : (A : Type 0) (id : ℕ) → ReadsOnly (classify {A = A} id)
unfolding classify
classify-ReadsOnly A id = >>=-ReadsOnly (get_by_id id) _ (query-ReadsOnly _) (λ p c. refl)

module _ (entry_id id : ℕ) (paid_at : Option ℕ) (net : ℤ) (now : ℕ) where
  -- What the UPDATE returned and left, at the row that it found.
  abbrev RowSettled : Db → Db → Settled → Payment → Type 0
  RowSettled d d' s p =
      (find_payment id d ≡ some p)
      × (guarded paid p ≡ true)
      × (pos 0 ≤ℤ net)
      × (pos_part net < 2 ^ 63)
      × (s.previous ≡ p.status)
      × (s.merchant_id ≡ p.merchant_id)
      × (s.environment ≡ p.environment)
      × (d' ≡ paid_db paid_at net now p d)

  settle_at-none :
      (d d' : Db) (s : Settled) → settle_at paid_at net now d none ≡ ok (some s, d') → ⊥
  settle_at-none d d' s h = cc

  settle_at-some :
      (d d' : Db) (s : Settled) (p : Payment)
      → settle_at paid_at net now d (some p) ≡ ok (some s, d')
      → (guarded paid p ≡ true)
        × (pos 0 ≤ℤ net)
        × (pos_part net < 2 ^ 63)
        × (s.previous ≡ p.status)
        × (s.merchant_id ≡ p.merchant_id)
        × (s.environment ≡ p.environment)
        × (d' ≡ paid_db paid_at net now p d)
  settle_at-some d d' s p h = ground arith

  settle_row-some :
      (d d' : Db) (s : Settled)
      → settle_row id paid_at net now d ≡ ok (some s, d')
      → (p : Payment) × RowSettled d d' s p
  unfolding settle_row
  settle_row-some d d' s h = elim (Option-cases (find_payment id d)) [
    | inl missing ↦ absurd (settle_at-none d d' s (rw missing at h))
    | inr (p, found) ↦
        let (g, n, f, a, b, c, e) = settle_at-some d d' s p (rw found at h) in
        (p, (found, g, n, f, a, b, c, e))
  ]

  -- What the credit did: an INSERT if one is due, nothing otherwise.
  abbrev Credits : Settled → Db → Db → Type 0
  Credits s d d' =
      ((is_production s.environment && ltb_ℤ (pos 0) net ≡ true)
        × (insert_entry (credit_entry entry_id s.merchant_id net id now) d ≡ ok (tt, d')))
      ⊎ ((is_production s.environment && ltb_ℤ (pos 0) net ≡ false) × (d' ≡ d))

  credit-ok :
      (s : Settled) (c c' : Conn) {u : Unit {0}}
      → credit entry_id id net now s c ≡ (ok u, c')
      → Credits s c.db c'.db
  unfolding credit
  credit-ok s c c' h = elim (Bool-cases (is_production s.environment && ltb_ℤ (pos 0) net)) [
    | inl due ↦ inl (due, exec-ok _ c (rw due at h))
    | inr not_due ↦ inr (not_due, ap (λ r. r.1.db) (sym (rw not_due at h)))
  ]

  credited-ok :
      (row : Option Settled) (c c' : Conn) (prev : Status)
      → credited entry_id id net now row c ≡ (ok (some prev), c')
      → (s : Settled) × (row ≡ some s) × (s.previous ≡ prev) × Credits s c.db c'.db
  credited-ok none c c' prev h = cc
  credited-ok (some s) c c' prev h =
      let (u, c₁, paid_in, rest) = >>=-ok (credit entry_id id net now s) _ c h in
      let kept : c'.db ≡ c₁.db = ap (λ r. r.1.db) (sym rest) in
      (s, refl, cc rest, rw kept (credit-ok s c c₁ paid_in))

  abbrev Books : Payment → Db → Db → Type 0
  Books p d d' =
      ((is_production p.environment && ltb_ℤ (pos 0) net ≡ true)
        × (insert_entry (credit_entry entry_id p.merchant_id net id now)
              (paid_db paid_at net now p d)
            ≡ ok (tt, d')))
      ⊎ ((is_production p.environment && ltb_ℤ (pos 0) net ≡ false)
          × (d' ≡ paid_db paid_at net now p d))

  rows_of :
      (p : Payment) (d d' : Db)
      → Books p d d'
      → (Due p net × (d' ≡ credited_db entry_id id paid_at net now p d))
        ⊎ ((¬ Due p net) × (d' ≡ paid_db paid_at net now p d))
  rows_of p d d' (inl (due, inserted)) =
      let (books, _, _) =
        insert_entry-ok (credit_entry entry_id p.merchant_id net id now) _ inserted in
      inl (Due-of p net due, books)
  rows_of p d d' (inr (not_due, books)) = inr (Due-not p net not_due, books)

  Settles-of :
      (d d₁ d' : Db) (s : Settled) (p : Payment)
      → RowSettled d d₁ s p
      → Credits s d₁ d'
      → Settles entry_id id paid_at net now p d d'
  Settles-of d d₁ d' s p (found, g, n, f, a, b, c, e) books =
      let is_id : p.id ≡ id = find-key payment_key id d.payments found in
      let books' : Books p d d' = rw (← e, ← b, ← c) books in
      record {
        found = found;
        allowed = g;
        net_nonneg = n;
        net_fits = f;
        is_id = is_id;
        was_open = was_open_of p g;
        books = books';
        rows = rows_of p d d' books';
      }

  abbrev SettlesFrom : Status → Db → Db → Type 0
  SettlesFrom prev d d' =
      (p : Payment) × (p.status ≡ prev) × Settles entry_id id paid_at net now p d d'

  settle_body-ok :
      (prev : Status) (c c' : Conn)
      → (exec (settle_row id paid_at net now) >>= credited entry_id id net now) c
        ≡ (ok (some prev), c')
      → SettlesFrom prev c.db c'.db
  settle_body-ok prev c c' h =
      let (row, c₂, updated, rest) = >>=-ok (exec (settle_row id paid_at net now)) _ c h in
      let (s, found, same, books) = credited-ok row c₂ c' prev rest in
      let (p, done) = settle_row-some c.db c₂.db s (rw found at (exec-ok _ c updated)) in
      (p, sym done.4 ∙ same, Settles-of c.db c₂.db c'.db s p done books)

  -- A settlement that returned the previous status `prev` has settled the payment found, in one
  -- transaction with its credit.
  pub settle-ok :
      (c c' : Conn) (prev : Status)
      → settle entry_id id paid_at net now c ≡ (ok (some prev), c')
      → SettlesFrom prev c.db c'.db
  unfolding settle
  settle-ok c c' prev h = transaction-keeps (SettlesFrom prev) _ c c' prev (settle_body-ok prev) h

  -- `MarkPaid` that ended well has returned the status of the payment with this id, pending or
  -- expired, and made one change: the payment is paid with the net, the time and nothing else new;
  -- and its merchant is credited the net for it if the payment is in production and the net is
  -- positive, and not otherwise.
  pub mark_paid-ok :
      (c c' : Conn) (prev : Status)
      → mark_paid entry_id id paid_at net now c ≡ (ok prev, c')
      → SettlesFrom prev c.db c'.db
  unfolding mark_paid
  mark_paid-ok c c' prev h =
      let (row, c₁, ran, rest) = >>=-ok (settle entry_id id paid_at net now) _ c h in
      settled_or row c₁ ran rest
    where
      settled_or :
          (row : Option Status) (c₁ : Conn)
          → settle entry_id id paid_at net now c ≡ (ok row, c₁)
          → or_classify id row c₁ ≡ (ok prev, c')
          → SettlesFrom prev c.db c'.db
      settled_or none c₁ ran rest = absurd (classify-err id c₁ rest)
      settled_or (some s) c₁ ran rest = settle-ok c c' prev (rw ran (cc rest))

  -- `MarkPaid` that ended in an error has changed nothing.
  pub mark_paid-err :
      (c c' : Conn) (e : Error)
      → mark_paid entry_id id paid_at net now c ≡ (err e, c')
      → c'.db ≡ c.db
  unfolding mark_paid
  mark_paid-err c c' e h = elim (>>=-err (settle entry_id id paid_at net now) _ c h) [
    | inl failed ↦ transaction-err _ c failed
    | inr (row, c₁, ran, rest) ↦ unsettled row c₁ ran rest
  ]
    where
      unsettled :
          (row : Option Status) (c₁ : Conn)
          → settle entry_id id paid_at net now c ≡ (ok row, c₁)
          → or_classify id row c₁ ≡ (err e, c')
          → c'.db ≡ c.db
      unsettled none c₁ ran rest =
          ap (λ r. r.1.db) (sym rest) ∙ classify-ReadsOnly Status id c₁ ∙ transaction-none _ c ran
      unsettled (some s) c₁ ran rest = cc
