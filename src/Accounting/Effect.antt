-- ===== src/Accounting/Effect.antt =====
-- What one call does to the tables: nothing, or one of the committed changes.
use pg_aggregator_back.Common.{ℕ, String, Option, ◌≡◌, refl, ◌⊎◌, inl, inr, ℤ}
use pg_aggregator_back.Errors.{Error, Result, ok, err}
use pg_aggregator_back.Payment.{Status, Payment}
use pg_aggregator_back.Payment.Request.{Strings}
use pg_aggregator_back.Ledger.{Entry, Payout}
use pg_aggregator_back.Store.{Db, Conn}
use pg_aggregator_back.Store.Inversion.{Atomic, exec-ok, exec-Atomic}
use pg_aggregator_back.Repository.Payments.{create, insert_payment, update_status, mark_paid}
use pg_aggregator_back.Repository.Payments.Effect.{Settles, mark_paid-ok, mark_paid-err}
use pg_aggregator_back.Repository.Payments.Moves.{Moves, update_status-ok, update_status-err}
use pg_aggregator_back.Repository.Refunds.{RefundRequest, RefundOutcome, refund_with_remaining}
use pg_aggregator_back.Repository.Refunds.Effect.{
  Refunds, refund_with_remaining-ok, refund_with_remaining-Atomic,
}
use pg_aggregator_back.Repository.Payouts.{
  PayoutRequest, request, Decision, as_transferred, mark_transferred, reject,
}
use pg_aggregator_back.Repository.Payouts.Effect.{Requests, request-ok, request-Atomic}
use pg_aggregator_back.Repository.Payouts.Processed.{
  Processes, Rejects, mark_transferred-ok, mark_transferred-Atomic, reject-ok, reject-Atomic,
}
use pg_aggregator_back.Repository.Balances.{Adjustment, adjust}
use pg_aggregator_back.Repository.Balances.Effect.{Adjusts, adjust-ok, adjust-Atomic}
use pg_aggregator_back.Accounting.{
  Call, create_payment, change_status, settle_payment, refund_payment, request_payout,
  transfer_payout, reject_payout, adjust_ledger, run,
}

-- A change that one call can make to the tables.
pub data Effect (d d' : Db) : Type 0 where
  nothing : d' ≡ d → Effect d d'
  created : (p : Payment) → insert_payment p d ≡ ok (tt, d') → Effect d d'
  moved :
      (id : ℕ) (new : Status) (paid_at : Option ℕ) (now : ℕ) (p : Payment)
      → Moves id new paid_at now p d d'
      → Effect d d'
  settled :
      (entry_id id : ℕ) (paid_at : Option ℕ) (net : ℤ) (now : ℕ) (p : Payment)
      → Settles entry_id id paid_at net now p d d'
      → Effect d d'
  given_back :
      (r : RefundRequest) (reason : String) (o : RefundOutcome) (p : Payment)
      → Refunds r reason o p d d'
      → Effect d d'
  asked : (r : PayoutRequest) (q : Payout) → Requests r q d d' → Effect d d'
  sent :
      (k : Decision) (note : String) (q : Payout)
      → Processes k.payout_id (as_transferred k note) q d d'
      → Effect d d'
  turned_down : (k : Decision) (note : String) (q : Payout) → Rejects k note q d d' → Effect d d'
  corrected : (a : Adjustment) (reason : String) (e : Entry) → Adjusts a reason e d d' → Effect d d'

module _ {A : Type 0} where
  -- A call ended well or in an error.
  Ended : (x : Result A × Conn) → Type 0
  Ended x = ((a : A) × (x ≡ (ok a, x.1))) ⊎ ((e : Error) × (x ≡ (err e, x.1)))

  ended : (x : Result A × Conn) → Ended x
  unfolding Ended
  ended (ok a, c) = inl (a, refl)
  ended (err e, c) = inr (e, refl)

  -- The effect of a call: of its end if it ended well, and none otherwise.
  Effect-of :
      (m : Conn → Result A × Conn) (c : Conn)
      → ((a : A) → m c ≡ (ok a, (m c).1) → Effect c.db (m c).1.db)
      → Atomic m
      → Effect c.db (m c).1.db
  unfolding Ended
  Effect-of m c good bad = elim (ended (m c)) [
    | inl (a, h) ↦ good a h
    | inr (e, h) ↦ nothing (bad c (m c).1 e h)
  ]

-- Every call has one of these effects, whatever its arguments and whichever statements fail.
pub run-Effect : (go : Strings) (x : Call) (c : Conn) → Effect c.db (run go x c).db
unfolding run create
run-Effect go (create_payment p) c =
    Effect-of (create p) c (λ a h. created p (exec-ok (insert_payment p) c h))
      (exec-Atomic (insert_payment p))
run-Effect go (change_status id new paid_at now) c =
    Effect-of (update_status id new paid_at now) c
      (λ prev h.
        let (p, _, done) = update_status-ok id new paid_at now c _ prev h in
        moved id new paid_at now p done)
      (λ c c' e h. update_status-err id new paid_at now c c' e h)
run-Effect go (settle_payment entry_id id paid_at net now) c =
    Effect-of (mark_paid entry_id id paid_at net now) c
      (λ prev h.
        let (p, _, done) = mark_paid-ok entry_id id paid_at net now c _ prev h in
        settled entry_id id paid_at net now p done)
      (λ c c' e h. mark_paid-err entry_id id paid_at net now c c' e h)
run-Effect go (refund_payment r) c =
    Effect-of (refund_with_remaining go r) c
      (λ o h.
        let (p, done) = refund_with_remaining-ok go r o c _ h in
        given_back r (go.trim_space r.reason) o p done)
      (refund_with_remaining-Atomic go r)
run-Effect go (request_payout r) c =
    Effect-of (request r) c (λ q h. asked r q (request-ok r q c _ h)) (request-Atomic r)
run-Effect go (transfer_payout k) c =
    Effect-of (mark_transferred go k) c
      (λ s h.
        let (q, _, done) = mark_transferred-ok go k s c _ h in sent k (go.trim_space k.note) q done)
      (mark_transferred-Atomic go k)
run-Effect go (reject_payout k) c =
    Effect-of (reject go k) c
      (λ s h.
        let (q, _, done) = reject-ok go k s c _ h in turned_down k (go.trim_space k.note) q done)
      (reject-Atomic go k)
run-Effect go (adjust_ledger a) c =
    Effect-of (adjust go a) c
      (λ e h. corrected a (go.trim_space a.reason) e (adjust-ok go a e c _ h)) (adjust-Atomic go a)
