-- ===== src/Accounting/Beside.antt =====
-- What a payout request does to the balance while other transactions commit.
use pg_aggregator_back.Common.{
  ℕ, true, false, ◌≡◌, ℤ, neg, ◌+ℤ◌, ◌-ℤ◌, ◌≤ℤ◌, int64, ltb_ℤ, pos_part, int_laws, arith, ◌==◌,
  if◌then◌else◌, ◌<◌, ◌^◌,
}
use pg_aggregator_back.Errors.{ok}
use pg_aggregator_back.Ledger.{Payout}
use pg_aggregator_back.Store.{Db, Conn}
use pg_aggregator_back.Repository.Insert.{sum_ledger}
use pg_aggregator_back.Repository.Payouts.{PayoutRequest, request_beside}
use pg_aggregator_back.Repository.Payouts.Beside.{request_beside-ok}
use pg_aggregator_back.Accounting.Returned.{exact_neg}
use pg_aggregator_back.Accounting.Withdrawn.{fits_below}

covers : (s a : ℤ) → ltb_ℤ s a ≡ false → a ≤ℤ s
covers s a h = grind int_laws

taken :
    (m : ℕ) (a s : ℤ) → int64 (neg a) ≡ neg a → (if m == m then int64 (neg a) +ℤ s else s) ≡ s -ℤ a
taken m a s exact = let mine : m == m ≡ true = ground arith in rw (mine, exact) (grind int_laws)

left_over : (a s t : ℤ) → a ≤ℤ s → (t -ℤ s) ≤ℤ (t -ℤ a)
left_over a s t h = grind int_laws

-- A payout request that ended well took an amount that the balance covered when it was read. The
-- merchant's ledger is left at what the transactions that committed beside it made of that balance,
-- less the amount, so it is below zero at most by what those have taken; with none beside it, it is
-- at zero or above.
pub request_beside-sum_ledger :
    (others : Db → Db) (r : PayoutRequest) (q : Payout) (c c' : Conn)
    → request_beside others r c ≡ (ok q, c')
    → (q.amount ≤ℤ sum_ledger r.merchant_id c.db.ledger)
      × (sum_ledger r.merchant_id c'.db.ledger
          ≡ sum_ledger r.merchant_id (others c.db).ledger -ℤ q.amount)
      × ((sum_ledger r.merchant_id (others c.db).ledger -ℤ sum_ledger r.merchant_id c.db.ledger)
          ≤ℤ sum_ledger r.merchant_id c'.db.ledger)
request_beside-sum_ledger others r q c c' h =
    let done = request_beside-ok others r q c c' h in
    let s = sum_ledger r.merchant_id c.db.ledger in
    let t = sum_ledger r.merchant_id (others c.db).ledger in
    let bound : pos_part s < 2 ^ 63 = fits_below s done.checks.balance_fits in
    let exact = exact_neg s r.amount bound done.writes.amount_pos done.checks.covered in
    let enough : r.amount ≤ℤ s = covers s r.amount done.checks.covered in
    let after : sum_ledger r.merchant_id c'.db.ledger ≡ t -ℤ r.amount =
      rw (done.writes.books) (taken r.merchant_id r.amount t exact) in
    (
      rw (done.writes.row) enough,
      rw (done.writes.row) after,
      rw (after) (left_over r.amount s t enough),
    )
