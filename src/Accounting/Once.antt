-- ===== src/Accounting/Once.antt =====
-- A payment is settled at most once, and a payout request that runs alone never overdraws the
-- ledger.
use pg_aggregator_back.Common.{
  ℕ, true, false, Option, some, [], ◌≡◌, refl, sym, subst, ◌∙◌, inl, inr, ℤ, pos, ◌-ℤ◌, ◌≤ℤ◌,
  int_laws, arith, ◌==◌,
}
use pg_aggregator_back.Errors.{ok, err, payment_already_terminal}
use pg_aggregator_back.Payment.{Status, paid, Payment, is_terminal_status, allowed_source_statuses}
use pg_aggregator_back.Ledger.{Payout}
use pg_aggregator_back.Store.{Db, Conn}
use pg_aggregator_back.Store.Table.{find, find-key, find-modify, modify}
use pg_aggregator_back.Store.Action.{query, exec, transaction}
use pg_aggregator_back.Repository.Insert.{sum_ledger}
use pg_aggregator_back.Repository.Insert.Effect.{insert_entry-ok}
use pg_aggregator_back.Repository.Payments.{
  payment_key, find_payment, get_by_id, classify, settle_row, settle, mark_paid, as_paid,
  credit_entry, guarded,
}
use pg_aggregator_back.Repository.Payments.Effect.{Settles, paid_db, mark_paid-ok}
use pg_aggregator_back.Repository.Payouts.{PayoutRequest, request}
use pg_aggregator_back.Repository.Payouts.Beside.{request_beside-request}
use pg_aggregator_back.Accounting.Beside.{request_beside-sum_ledger}
use pg_aggregator_back.Accounting.Earned.{is_settled}

-- The payment stands as paid after a settlement.
Settles-find :
    (entry_id id : ℕ) (paid_at : Option ℕ) (net : ℤ) (now : ℕ) (p : Payment) (d d' : Db)
    → Settles entry_id id paid_at net now p d d'
    → find_payment id d' ≡ some (as_paid paid_at net now p)
Settles-find entry_id id paid_at net now p d d' done =
    let is_id : p.id ≡ id = find-key payment_key id d.payments done.found in
    let seen = find-modify payment_key id id (as_paid paid_at net now) d.payments done.found refl in
    let same : id == id ≡ true = ground arith in
    let after : find_payment id (paid_db paid_at net now p d) ≡ some (as_paid paid_at net now p) =
      subst
        (λ k.
          find payment_key id (modify payment_key k (as_paid paid_at net now) d.payments)
          ≡ some (as_paid paid_at net now p))
        (sym is_id) (seen ∙ rw (same) refl) in
    elim done.books [
      | inl (due, inserted) ↦
          let entry = credit_entry entry_id p.merchant_id net id now in
          let (books, _, _) = insert_entry-ok entry (paid_db paid_at net now p d) inserted in
          rw (books) after
      | inr (not_due, books) ↦ rw (books) after
    ]

-- Settling a settled payment, with no statement failing: the error, and the tables as they were.
settle_again :
    (entry_id id : ℕ) (paid_at : Option ℕ) (net : ℤ) (now : ℕ) (d : Db) (p : Payment)
    → find_payment id d ≡ some p
    → is_settled p.status ≡ true
    → mark_paid entry_id id paid_at net now (record { db = d; faults = [] })
      ≡ (err payment_already_terminal, record { db = d; faults = [] })
unfolding mark_paid settle settle_row transaction exec query classify get_by_id is_terminal_status
    allowed_source_statuses
settle_again entry_id id paid_at net now d p found h =
    let barred : guarded paid p ≡ false = ground arith in
    let terminal : is_terminal_status p.status ≡ true = ground arith in
    rw (found, barred, found, terminal) refl

-- A payment that `MarkPaid` has settled stays settled: a second call, whatever its arguments,
-- returns `ErrPaymentAlreadyTerminal` and changes nothing, when no statement of it fails.
pub mark_paid-mark_paid :
    (e e' id : ℕ) (at at' : Option ℕ) (net net' : ℤ) (now now' : ℕ) (c c' : Conn) (prev : Status)
    → mark_paid e id at net now c ≡ (ok prev, c')
    → mark_paid e' id at' net' now' (record { db = c'.db; faults = [] })
      ≡ (err payment_already_terminal, record { db = c'.db; faults = [] })
mark_paid-mark_paid e e' id at at' net net' now now' c c' prev h =
    let (p, _, done) = mark_paid-ok e id at net now c c' prev h in
    settle_again e' id at' net' now' c'.db (as_paid at net now p)
      (Settles-find e id at net now p c.db c'.db done) refl

still_positive : (s t : ℤ) → (s -ℤ s) ≤ℤ t → pos 0 ≤ℤ t
still_positive s t h = grind int_laws

-- A payout request that ended well, with nothing committed while it ran, was covered: it leaves the
-- sum of the merchant's ledger at zero or above, whatever the sum was before and whichever
-- statements could have failed.
pub request-sum_ledger :
    (r : PayoutRequest) (q : Payout) (c c' : Conn)
    → request r c ≡ (ok q, c')
    → (pos 0 ≤ℤ sum_ledger r.merchant_id c'.db.ledger)
      × (sum_ledger r.merchant_id c'.db.ledger ≡ sum_ledger r.merchant_id c.db.ledger -ℤ q.amount)
request-sum_ledger r q c c' h =
    let (_, after, least) =
      request_beside-sum_ledger (λ d. d) r q c c' (request_beside-request r c ∙ h) in
    (still_positive (sum_ledger r.merchant_id c.db.ledger) _ least, after)
