-- ===== src/Accounting.antt =====
-- The calls that change payments, the ledger, refunds and payouts, as one interface: a call runs on
-- the tables under a schedule of failing statements, and calls follow one another in any order.
pub mod Effect
pub mod Total
pub mod Earned
pub mod Returned
pub mod Withdrawn
pub mod OpenPayouts
pub mod Refundable
pub mod Books
pub mod Beside
pub mod Once
pub mod Failed
use pg_aggregator_back.Common.{ℕ, Option, List, [], ◌∷◌, ℤ}
use pg_aggregator_back.Payment.{Status, Payment}
use pg_aggregator_back.Payment.Request.{Strings}
use pg_aggregator_back.Store.{Conn}
use pg_aggregator_back.Repository.Payments.{create, update_status, mark_paid}
use pg_aggregator_back.Repository.Refunds.{RefundRequest, refund_with_remaining}
use pg_aggregator_back.Repository.Payouts.{
  PayoutRequest, request, Decision, mark_transferred, reject,
}
use pg_aggregator_back.Repository.Balances.{Adjustment, adjust}

-- One call of a repository.
pub data Call : Type 0 where
  create_payment : Payment → Call
  change_status : ℕ → Status → Option ℕ → ℕ → Call
  settle_payment : ℕ → ℕ → Option ℕ → ℤ → ℕ → Call
  refund_payment : RefundRequest → Call
  request_payout : PayoutRequest → Call
  transfer_payout reject_payout : Decision → Call
  adjust_ledger : Adjustment → Call

-- The connection after a call, whether the call ended well or in an error.
unfoldable pub run : Strings → Call → Conn → Conn
run go (create_payment p) c = (create p c).1
run go (change_status id new paid_at now) c = (update_status id new paid_at now c).1
run go (settle_payment entry_id id paid_at net now) c = (mark_paid entry_id id paid_at net now c).1
run go (refund_payment r) c = (refund_with_remaining go r c).1
run go (request_payout r) c = (request r c).1
run go (transfer_payout k) c = (mark_transferred go k c).1
run go (reject_payout k) c = (reject go k c).1
run go (adjust_ledger a) c = (adjust go a c).1

unfoldable pub run_all : Strings → List Call → Conn → Conn
unfolding run
run_all go [] c = c
run_all go (x ∷ xs) c = run_all go xs (run go x c)
