-- ===== src/Tests/Books.antt =====
-- The theorems on the books, at one day of the shop.
use pg_aggregator_back.Common.{
  inr, negsuc, none, some, [], ◌∷◌, ◌≡◌, refl, pos, ◌≤ℤ◌, ◌-ℤ◌, neg, ◌+ℤ◌, int64, true, false,
}
use pg_aggregator_back.Errors.{
  ok, err, db_failure, payment_already_terminal, refund_exceeds_net, insufficient_balance,
  payout_not_found,
}
use pg_aggregator_back.Payment.{pending, expired, Payment, allowed_source_statuses, is_valid_status}
use pg_aggregator_back.Store.{Db, Conn}
use pg_aggregator_back.Store.Action.{query, exec, transaction, transaction_beside}
use pg_aggregator_back.Repository.Insert.{insert_entry, insert_refund, insert_payout, sum_ledger}
use pg_aggregator_back.Repository.Payments.{
  create, insert_payment, settle_row, settle, credit, mark_paid, as_paid, update_status,
  update_status_row,
}
use pg_aggregator_back.Repository.Refunds.{
  RefundRequest, mark_refunded, record_refund, refund_transaction, refund_with_remaining,
  RefundOutcome, outcome,
}
use pg_aggregator_back.Ledger.{Payout}
use pg_aggregator_back.Repository.Payments.Effect.{Settles, mark_paid-ok, mark_paid-err}
use pg_aggregator_back.Repository.Payments.Moves.{Moves, update_status-ok}
use pg_aggregator_back.Repository.Refunds.Effect.{RefundsSome, refund_with_remaining-ok}
use pg_aggregator_back.Repository.Payouts.Processed.{RejectsSome, reject-ok}
use pg_aggregator_back.Accounting.Failed.{refund_with_remaining-err, request-reject-err}
use pg_aggregator_back.Repository.Payouts.{
  payout_row, as_rejected, request_transaction, request, request_beside, process_row,
  reject_transaction, reject, classify_unprocessed,
}
use pg_aggregator_back.Repository.Balances.{Adjustment, adjust, aggregate}
use pg_aggregator_back.Accounting.{run, run_all, settle_payment}
use pg_aggregator_back.Accounting.Books.{
  opened, expected, run_all-aggregate, run_all-OneOpen, run_all-Covered,
}
use pg_aggregator_back.Accounting.OpenPayouts.{OneOpen}
use pg_aggregator_back.Accounting.Refundable.{Covered}
use pg_aggregator_back.Accounting.Once.{mark_paid-mark_paid}
use pg_aggregator_back.Accounting.Beside.{request_beside-sum_ledger}
use pg_aggregator_back.Accounting.Effect.{Effect, run-Effect}
use pg_aggregator_back.Tests.Shop.{
  plain, shop, order, day, morning, created_order, give_back, withdrawal, refusal, correction,
}

run_all-aggregate_example :
    aggregate 1 (run_all plain day (opened (shop ∷ []) (false ∷ []))).db.ledger
    ≡ expected 1 (run_all plain day (opened (shop ∷ []) (false ∷ []))).db
run_all-aggregate_example = run_all-aggregate plain 1 (shop ∷ []) day (false ∷ [])

-- The balance at the end of the day: 9930 - 4000 - 100.
balance_of_the_day : sum_ledger 1 (run_all plain day morning).db.ledger ≡ pos 5830
unfolding run_all run create insert_payment mark_paid settle settle_row credit insert_entry
    refund_with_remaining refund_transaction record_refund insert_refund mark_refunded request
    request_transaction insert_payout reject reject_transaction process_row adjust exec query
    transaction allowed_source_statuses int64 neg ◌+ℤ◌ ◌-ℤ◌ is_valid_status
balance_of_the_day = refl

run_all-Covered_example : Covered 7 (run_all plain day morning).db
run_all-Covered_example = run_all-Covered plain 7 (shop ∷ []) day []

run_all-OneOpen_example : OneOpen 1 (run_all plain day morning).db
run_all-OneOpen_example = run_all-OneOpen plain 1 (shop ∷ []) day []

run-Effect_example :
    Effect created_order.db
      (run plain (settle_payment 101 7 (some 100) (pos 9930) 100) created_order).db
run-Effect_example = run-Effect plain (settle_payment 101 7 (some 100) (pos 9930) 100) created_order

-- The order, settled at 100 with a net of 9930.
abbrev settled_order : Conn
settled_order = (mark_paid 101 7 (some 100) (pos 9930) 100 created_order).1

settles_order :
    mark_paid 101 7 (some 100) (pos 9930) 100 created_order ≡ (ok pending, settled_order)
unfolding mark_paid settle settle_row credit insert_entry exec transaction allowed_source_statuses
settles_order = refl

mark_paid-ok_example :
    (p : Payment) × (p.status ≡ pending)
    × Settles 101 7 (some 100) (pos 9930) 100 p created_order.db settled_order.db
mark_paid-ok_example =
    mark_paid-ok 101 7 (some 100) (pos 9930) 100 created_order settled_order pending settles_order

mark_paid-mark_paid_example :
    mark_paid 109 7 none (pos 5000) 150 (record { db = settled_order.db; faults = [] })
    ≡ (err payment_already_terminal, record { db = settled_order.db; faults = [] })
mark_paid-mark_paid_example =
    mark_paid-mark_paid 101 109 7 (some 100) none (pos 9930) (pos 5000) 100 150 created_order
      settled_order pending settles_order

-- The second statement of the settlement fails: the INSERT of the credit.
abbrev failing_order : Conn
failing_order = record created_order { faults = false ∷ false ∷ true ∷ [] }

abbrev after_failure : Conn
after_failure = (mark_paid 101 7 (some 100) (pos 9930) 100 failing_order).1

fails_order :
    mark_paid 101 7 (some 100) (pos 9930) 100 failing_order ≡ (err db_failure, after_failure)
unfolding mark_paid settle settle_row credit insert_entry exec transaction allowed_source_statuses
fails_order = refl

mark_paid-err_example : after_failure.db ≡ failing_order.db
mark_paid-err_example =
    mark_paid-err 101 7 (some 100) (pos 9930) 100 failing_order after_failure db_failure fails_order

abbrev expired_order : Conn
expired_order = (update_status 7 expired none 2000 created_order).1

expires_order : update_status 7 expired none 2000 created_order ≡ (ok pending, expired_order)
unfolding update_status update_status_row exec allowed_source_statuses
expires_order = refl

update_status-ok_example :
    (p : Payment) × (p.status ≡ pending)
    × Moves 7 expired none 2000 p created_order.db expired_order.db
update_status-ok_example =
    update_status-ok 7 expired none 2000 created_order expired_order pending expires_order

-- A refund of more than the net is refused.
abbrev too_much : RefundRequest
too_much = record give_back { amount = pos 9931 }

abbrev after_refusal : Conn
after_refusal = (refund_with_remaining plain too_much settled_order).1

refuses_refund :
    refund_with_remaining plain too_much settled_order ≡ (err refund_exceeds_net, after_refusal)
unfolding mark_paid settle settle_row credit insert_entry refund_with_remaining refund_transaction
    exec query transaction allowed_source_statuses int64 ◌-ℤ◌
refuses_refund = refl

refund_with_remaining-err_example : after_refusal.db ≡ settled_order.db
refund_with_remaining-err_example =
    refund_with_remaining-err plain too_much settled_order after_refusal refund_exceeds_net
      refuses_refund

abbrev given_outcome : RefundOutcome
given_outcome = outcome give_back "wrong size" (as_paid (some 100) (pos 9930) 100 order) (pos 5930)

abbrev given_order : Conn
given_order = (refund_with_remaining plain give_back settled_order).1

gives_back : refund_with_remaining plain give_back settled_order ≡ (ok given_outcome, given_order)
unfolding mark_paid settle settle_row credit insert_entry refund_with_remaining refund_transaction
    record_refund insert_refund mark_refunded exec query transaction allowed_source_statuses int64
    neg ◌-ℤ◌
gives_back = refl

refund_with_remaining-ok_example :
    RefundsSome give_back "wrong size" given_outcome settled_order.db given_order.db
refund_with_remaining-ok_example =
    refund_with_remaining-ok plain give_back given_outcome settled_order given_order gives_back

-- The settled order pays for the withdrawal.
abbrev withdrawn_payout : Payout
withdrawn_payout =
    payout_row withdrawal
      (record { bank_name = "BCA"; account_number = "123"; account_holder = "Shop" })

abbrev withdrawn_order : Conn
withdrawn_order = (request withdrawal settled_order).1

withdraws : request withdrawal settled_order ≡ (ok withdrawn_payout, withdrawn_order)
unfolding mark_paid settle settle_row credit insert_entry request request_transaction insert_payout
    exec query transaction allowed_source_statuses int64 neg ◌+ℤ◌
withdraws = refl

-- A correction of all but one rupiah commits beside the request, after it has read the balance.
abbrev penalty : Adjustment
penalty = record correction { amount = negsuc 9928 }

abbrev penalised : Db → Db
penalised d = (adjust plain penalty (record { db = d; faults = [] })).1.db

abbrev overdrawn_order : Conn
overdrawn_order = (request_beside penalised withdrawal settled_order).1

overdraws :
    request_beside penalised withdrawal settled_order ≡ (ok withdrawn_payout, overdrawn_order)
unfolding mark_paid settle settle_row credit insert_entry request_beside insert_payout adjust exec
    query transaction transaction_beside allowed_source_statuses int64 neg ◌+ℤ◌
overdraws = refl

-- The balance is then below zero.
overdrawn : sum_ledger 1 overdrawn_order.db.ledger ≡ negsuc 4998
unfolding mark_paid settle settle_row credit insert_entry request_beside insert_payout adjust exec
    query transaction transaction_beside allowed_source_statuses int64 neg ◌+ℤ◌
overdrawn = refl

request_beside-sum_ledger_example :
    (withdrawn_payout.amount ≤ℤ sum_ledger 1 settled_order.db.ledger)
    × (sum_ledger 1 overdrawn_order.db.ledger
        ≡ sum_ledger 1 (penalised settled_order.db).ledger -ℤ pos 5000)
    × ((sum_ledger 1 (penalised settled_order.db).ledger -ℤ sum_ledger 1 settled_order.db.ledger)
        ≤ℤ sum_ledger 1 overdrawn_order.db.ledger)
request_beside-sum_ledger_example =
    request_beside-sum_ledger penalised withdrawal withdrawn_payout settled_order overdrawn_order
      overdraws

abbrev after_poor : Conn
after_poor = (request withdrawal created_order).1

refuses_payout : request withdrawal created_order ≡ (err insufficient_balance, after_poor)
unfolding request request_transaction exec query transaction int64
refuses_payout = refl

abbrev refused_payout : Payout
refused_payout = as_rejected refusal "closed" withdrawn_payout

abbrev refused_order : Conn
refused_order = (reject plain refusal withdrawn_order).1

refuses : reject plain refusal withdrawn_order ≡ (ok refused_payout, refused_order)
unfolding mark_paid settle settle_row credit insert_entry request request_transaction insert_payout
    reject reject_transaction process_row exec query transaction allowed_source_statuses int64 neg
    ◌+ℤ◌
refuses = refl

reject-ok_example : RejectsSome plain refusal refused_payout withdrawn_order.db refused_order.db
reject-ok_example = reject-ok plain refusal refused_payout withdrawn_order refused_order refuses

abbrev after_unknown : Conn
after_unknown = (reject plain refusal created_order).1

unknown_payout : reject plain refusal created_order ≡ (err payout_not_found, after_unknown)
unfolding reject reject_transaction process_row classify_unprocessed exec query transaction
unknown_payout = refl

request-reject-err_example : after_unknown.db ≡ created_order.db
request-reject-err_example =
    request-reject-err plain withdrawal refusal created_order after_unknown payout_not_found
      (inr unknown_payout)
