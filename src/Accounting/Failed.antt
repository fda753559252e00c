-- ===== src/Accounting/Failed.antt =====
-- A call that ended in an error has changed nothing, whichever of its statements failed.
use pg_aggregator_back.Common.{◌≡◌, ◌⊎◌, inl, inr}
use pg_aggregator_back.Errors.{Error, err}
use pg_aggregator_back.Payment.Request.{Strings}
use pg_aggregator_back.Store.{Conn}
use pg_aggregator_back.Repository.Refunds.{RefundRequest, refund_with_remaining}
use pg_aggregator_back.Repository.Refunds.Effect.{refund_with_remaining-Atomic}
use pg_aggregator_back.Repository.Payouts.{PayoutRequest, request, Decision, reject}
use pg_aggregator_back.Repository.Payouts.Effect.{request-Atomic}
use pg_aggregator_back.Repository.Payouts.Processed.{reject-Atomic}

-- If `RefundWithRemaining` returns an error, a failed COMMIT included, the tables are as before.
pub refund_with_remaining-err :
    (go : Strings) (r : RefundRequest) (c c' : Conn) (e : Error)
    → refund_with_remaining go r c ≡ (err e, c')
    → c'.db ≡ c.db
refund_with_remaining-err go r c c' e h = refund_with_remaining-Atomic go r c c' e h

-- If `Request` or `Reject` returns an error, a failed COMMIT included, the tables are as before.
pub request-reject-err :
    (go : Strings) (r : PayoutRequest) (k : Decision) (c c' : Conn) (e : Error)
    → (request r c ≡ (err e, c')) ⊎ (reject go k c ≡ (err e, c'))
    → c'.db ≡ c.db
request-reject-err go r k c c' e (inl h) = request-Atomic r c c' e h
request-reject-err go r k c c' e (inr h) = reject-Atomic go k c c' e h
