-- ===== src/Reconcile.antt =====
-- The jobs that settle and expire payments without a webhook: reconcile
-- (internal/service/payment_service.go) and expiry (internal/service/payment_webhook_service.go).
-- The result's message text is left out. Which payments were flagged with an amount mismatch, rows
-- of `webhook_events`, is a parameter; a failed write of such a row is only logged.
pub mod Confirmed
pub mod Newest
pub mod Pages
use pg_aggregator_back.Common.{
  ℕ, String, Bool, true, false, not, ◌+◌, ◌&&◌, ◌||◌, Option, none, some, List, [], ◌∷◌, ℤ, ltb,
  length, if◌then◌else◌,
}
use pg_aggregator_back.Errors.{Error, Result, ok, err, payment_already_terminal, other_error}
use pg_aggregator_back.Payment.{
  Payment, Status, pending, paid, failed, cancelled, refunded, expired, status_eq,
}
use pg_aggregator_back.Payment.Request.{Strings}
use pg_aggregator_back.Settlement.{
  NormalizedPaymentStatus, verify_provider_payment, merchant_net_for,
}
use pg_aggregator_back.Delivery.{payment_event}
use pg_aggregator_back.Store.Action.{Sql, pure, raise, ◌>>=◌, ◌>>◌, caught}
use pg_aggregator_back.Repository.Payments.{get_by_id, mark_paid, update_status}
use pg_aggregator_back.Repository.Scans.{
  get_by_reference, list_expired_pending, list_reconcile_candidates, ReconcileCursor, Windows,
  no_text,
}
use pg_aggregator_back.Webhook.{WebhookProvider, Registry, write_event, paid_time, settled_payment}
use pg_aggregator_back.Callback.Target.{notify_merchant_payment_event}

-- `Action` of a result.
pub data ReconcileAction : Type 0 where
  updated unchanged expired_local skipped error_action : ReconcileAction

pub record ReconcileResult : Type 0 where
  pub payment_id : ℕ
  pub reference : String
  pub previous_status : Status
  pub current_status : Status
  pub provider_status : Option Status
  pub action : ReconcileAction
  pub merchant_notified : Bool

-- `expireGracePeriod`, 5 minutes.
abbrev pub expire_grace_period : ℕ
expire_grace_period = 300

-- `reconcilePendingWindow`, 24 hours, and `reconcileExpiredWindow`, 6 hours.
abbrev pub reconcile_windows : Windows
reconcile_windows = record { pending_window = 86400; expired_window = 21600 }

-- What surrounds a check of one payment: the strings of Go, the providers, and the ids and the
-- clock that it draws.
pub record Check : Type 0 where
  pub go : Strings
  pub registry : Registry
  pub entry_id : ℕ
  pub delivery_id : ℕ
  pub now : ℕ

abbrev pub first_result : Payment → ReconcileResult
first_result p = record {
  payment_id = p.id;
  reference = p.reference;
  previous_status = p.status;
  current_status = p.status;
  provider_status = none;
  action = unchanged;
  merchant_notified = false;
}

abbrev pub acted : ReconcileAction → ReconcileResult → ReconcileResult
acted a r = record r { action = a }

abbrev pub is_terminal_error : Error → Bool
is_terminal_error payment_already_terminal = true
is_terminal_error _ = false

-- A change that lost a race is a result, any other error is passed on.
abbrev pub lost_race : ReconcileResult → Error → Sql ReconcileResult
lost_race r e = if is_terminal_error e then pure (acted skipped r) else raise e

abbrev pub changed_to : Status → ReconcileAction → ReconcileResult → ReconcileResult
changed_to s a r = record r { current_status = s; action = a; merchant_notified = true }

abbrev pub after_expiry : Check → Payment → ReconcileResult → Result Status → Sql ReconcileResult
after_expiry k p r (err e) = lost_race r e
after_expiry k p r (ok previous) =
    notify_merchant_payment_event k.go k.delivery_id k.now (record p { status = expired })
      (payment_event expired) false
    >> pure (changed_to expired expired_local r)

-- `expireLocally`
unfoldable pub expire_locally : Check → Payment → ReconcileResult → Sql ReconcileResult
expire_locally k p r = caught (update_status p.id expired none k.now) >>= after_expiry k p r

-- Expired locally if its deadline has passed, else the given result.
abbrev pub expire_or :
    Check → Payment → ReconcileResult → ReconcileResult → Bool → Sql ReconcileResult
expire_or k p r otherwise past_expiry = if past_expiry then expire_locally k p r else pure otherwise

abbrev pub after_settlement :
    Check → Payment → Option ℕ → ℤ → ReconcileResult → Result Status → Sql ReconcileResult
after_settlement k p at net r (err e) = lost_race r e
after_settlement k p at net r (ok previous) =
    notify_merchant_payment_event k.go k.delivery_id k.now (settled_payment p at net)
      (payment_event paid) (status_eq previous expired)
    >> pure (changed_to paid updated r)

-- The settlement, once it is confirmed.
unfoldable pub settle_checked :
    Check → Payment → Option ℕ → ReconcileResult → Result ℤ → Sql ReconcileResult
settle_checked k p at r (err e) = raise e
settle_checked k p at r (ok net) =
    caught (mark_paid k.entry_id p.id at net k.now) >>= after_settlement k p at net r

abbrev pub with_provider_status : Status → ReconcileResult → ReconcileResult
with_provider_status s r = record r { provider_status = some s }

-- The verdict on a report that says paid; a mismatch is recorded as an event.
abbrev pub on_verdict :
    Check → Payment → NormalizedPaymentStatus → ReconcileResult → Option Error → Sql ReconcileResult
on_verdict k p s r (some e) = write_event >> pure (acted error_action r)
on_verdict k p s r none = settle_checked k p (paid_time s.paid_at k.now) r (merchant_net_for p)

-- The provider's report. (A nil report without an error, which ends the Go program's run in a
-- panic, is an error here.)
unfoldable pub on_report :
    Check
    → Payment
    → Bool
    → ReconcileResult
    → Result (Option NormalizedPaymentStatus)
    → Sql ReconcileResult
on_report k p past_expiry r (err e) = expire_or k p r (acted error_action r) past_expiry
on_report k p past_expiry r (ok none) = raise other_error
on_report k p past_expiry r (ok (some s)) =
    let r' = with_provider_status s.status r in
    if not (status_eq s.status paid)
    then expire_or k p r' r' past_expiry
    else on_verdict k p s r' (verify_provider_payment p (some s) none)

unfoldable pub ask_provider :
    Check → Payment → String → Bool → ReconcileResult → Result WebhookProvider → Sql ReconcileResult
ask_provider k p ref past_expiry r (err e) = pure (acted error_action r)
ask_provider k p ref past_expiry r (ok pr) = on_report k p past_expiry r (pr.get_payment_status ref)

abbrev pub reference_or_empty : Option String → String
reference_or_empty none = ""
reference_or_empty (some s) = s

abbrev pub is_past_expiry : ℕ → Payment → Bool
is_past_expiry now p = status_eq p.status pending && ltb (p.expires_at + expire_grace_period) now

abbrev pub is_ended : Status → Bool
is_ended s = status_eq s paid || status_eq s failed || status_eq s cancelled || status_eq s refunded

-- `reconcilePaymentData`
unfoldable pub reconcile_payment_data : Check → Payment → Sql ReconcileResult
unfolding ask_provider on_report expire_locally settle_checked
reconcile_payment_data k p =
    let r = first_result p in
    let past_expiry = is_past_expiry k.now p in
    if is_ended p.status
    then pure (acted skipped r)
    else if no_text p.provider_reference
    then expire_or k p r (acted skipped r) past_expiry
    else ask_provider k p (reference_or_empty p.provider_reference) past_expiry r
        (k.registry.provider_by_name p.provider_name)

-- `ReconcilePayment`
unfoldable pub reconcile_payment : Check → ℕ → Sql ReconcileResult
unfolding reconcile_payment_data
reconcile_payment k id = get_by_id id >>= reconcile_payment_data k

-- `CheckPaymentStatus`
unfoldable pub check_payment_status : Check → String → Sql Payment
unfolding reconcile_payment
check_payment_status k reference = do
  p ← get_by_reference reference
  r ← reconcile_payment k p.id
  get_by_id r.payment_id

-- The loop of ReconcileRecentPayments: an error of one payment is only logged.
unfoldable pub reconcile_all : (ℕ → Check) → List Payment → Sql (Unit {0})
unfolding reconcile_payment_data
reconcile_all k [] = pure tt
reconcile_all k (p ∷ ps) = caught (reconcile_payment_data (k p.id) p) >> reconcile_all k ps

abbrev pub last_cursor : Payment → List Payment → ReconcileCursor
last_cursor p [] = record { created_at = p.created_at; id = p.id }
last_cursor p (q ∷ qs) = last_cursor q qs

abbrev pub cursor_of : List Payment → Option ReconcileCursor
cursor_of [] = none
cursor_of (p ∷ ps) = some (last_cursor p ps)

-- The position after a batch: a short one wraps.
unfoldable pub next_cursor : ℕ → List Payment → Option ReconcileCursor
next_cursor batch ps = if ltb (length ps) batch then none else cursor_of ps

-- `ReconcileRecentPayments`: the new position of the scan.
unfoldable pub reconcile_recent_payments :
    (ℕ → Check) → (ℕ → Bool) → ℕ → ℕ → Option ReconcileCursor → Sql (Option ReconcileCursor)
unfolding reconcile_all next_cursor
reconcile_recent_payments k flagged now batch cursor = do
  ps ← list_reconcile_candidates flagged now reconcile_windows batch cursor
  reconcile_all k ps
  pure (next_cursor batch ps)

abbrev pub after_expired : Check → Payment → Result Status → Sql (Unit {0})
after_expired k p (err e) = pure tt
after_expired k p (ok previous) =
    notify_merchant_payment_event k.go k.delivery_id k.now (record p { status = expired })
      (payment_event expired) false

-- The loop of ExpirePayments: a payment that cannot be expired is skipped.
unfoldable pub expire_all : (ℕ → Check) → List Payment → Sql (Unit {0})
expire_all k [] = pure tt
expire_all k (p ∷ ps) =
    caught (update_status p.id expired none (k p.id).now)
    >>= after_expired (k p.id) p
    >> expire_all k ps

-- `ExpirePayments`
unfoldable pub expire_payments : (ℕ → Check) → ℕ → Sql (Unit {0})
unfolding expire_all
expire_payments k now = list_expired_pending now expire_grace_period 200 >>= expire_all k
