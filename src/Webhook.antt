-- ===== src/Webhook.antt =====
-- A provider's webhook (internal/service/payment_webhook_service.go): it is only a trigger, and the
-- provider's own status decides. The provider and its answers are parameters. The row of
-- `webhook_events` and the merchant's notification are part of the outcome; a failed write of that
-- row is only logged, and takes its place in the schedule of statements.
pub mod Named
pub mod Confirmed
pub mod Handler
use pg_aggregator_back.Common.{
  ℕ, String, Bool, true, false, not, ◌||◌, Option, none, some, ℤ, if◌then◌else◌,
}
use pg_aggregator_back.Errors.{
  Error, Result, ok, err, webhook_validation_failed, test_webhook_event, invalid_provider_reference,
  provider_mismatch, webhook_ignored, duplicate_webhook, payment_already_terminal, amount_mismatch,
  webhook_amount_mismatch, provider_verification_failed,
}
use pg_aggregator_back.Payment.{
  Status, paid, failed, cancelled, refunded, expired, Payment, status_eq,
}
use pg_aggregator_back.Settlement.{
  NormalizedPaymentStatus, verify_provider_payment, merchant_net_for,
}
use pg_aggregator_back.Store.{Conn}
use pg_aggregator_back.Store.Action.{Sql, pure, ◌>>=◌, ◌>>◌, caught, tick}
use pg_aggregator_back.Repository.Payments.{get_by_provider_reference, mark_paid}

pub record ProviderWebhookPayload : Type 0 where
  pub provider_reference : String
  pub status : Status
  pub paid_at : Option ℕ
  pub amount : Option ℤ

-- What is called of a provider: GetName, ValidateWebhook, ParseWebhook, GetPaymentStatus.
pub record WebhookProvider : Type 0 where
  pub name : String
  pub validate_webhook : String → String → Bool
  pub parse_webhook : String → Result ProviderWebhookPayload
  pub get_payment_status : String → Result (Option NormalizedPaymentStatus)

-- `getProviderByName` and strings.EqualFold.
pub record Registry : Type 0 where
  pub provider_by_name : String → Result WebhookProvider
  pub equal_fold : String → String → Bool

pub data EventType : Type 0 where
  rejected_event ignored_event paid_late : EventType
  status_event : Status → EventType

pub data EventStatus : Type 0 where
  rejected_status ignored_status verification_failed : EventStatus
  reported : Status → EventStatus

-- How the row of `webhook_events` is finalized.
pub record EventEnd : Type 0 where
  pub payment_id : Option ℕ
  pub provider_reference : String
  pub event_type : EventType
  pub status : EventStatus
  pub processed : Bool
  pub cause : Option Error

-- The merchant is told that a payment is paid, late or not.
pub record Notice : Type 0 where
  pub payment : Payment
  pub late : Bool

-- What `ProcessWebhook` returns, and what it has written and sent.
pub record WebhookEnd : Type 0 where
  pub answer : Option Error
  pub event : EventEnd
  pub notice : Option Notice

-- A write to `webhook_events`.
unfoldable pub write_event : Sql (Unit {0})
write_event c = (ok tt, (tick c).1)

-- `failWebhookEvent`, and the answer.
abbrev pub fail_webhook :
    Option ℕ → String → EventType → EventStatus → Error → Option Error → Sql WebhookEnd
fail_webhook id ref kind status cause answer =
    write_event
    >> pure (record {
      answer = answer;
      event = record {
        payment_id = id;
        provider_reference = ref;
        event_type = kind;
        status = status;
        processed = false;
        cause = some cause;
      };
      notice = none;
    })

-- `completeWebhookEvent`, and the notification.
abbrev pub complete_webhook : ProviderWebhookPayload → Payment → Bool → Sql WebhookEnd
complete_webhook w p late =
    write_event
    >> pure (record {
      answer = none;
      event = record {
        payment_id = some p.id;
        provider_reference = w.provider_reference;
        event_type = (if late then paid_late else status_event w.status);
        status = reported paid;
        processed = true;
        cause = none;
      };
      notice = some (record { payment = p; late = late });
    })

abbrev pub paid_time : Option ℕ → ℕ → Option ℕ
paid_time none now = some now
paid_time (some t) now = some t

abbrev pub settled_payment : Payment → Option ℕ → ℤ → Payment
settled_payment p paid_at net = record p {
  status = paid;
  paid_at = paid_at;
  merchant_net_amount = net;
}

-- Losing the race against another settlement is a duplicate.
abbrev pub settle_error : Error → Error
settle_error payment_already_terminal = duplicate_webhook
settle_error e = e

-- The answer of MarkPaid.
abbrev pub after_mark_paid :
    ProviderWebhookPayload → Payment → Option ℕ → ℤ → Result Status → Sql WebhookEnd
after_mark_paid w p paid_at net (err e) =
    fail_webhook (some p.id) w.provider_reference (status_event w.status) (reported w.status)
      (settle_error e) (some (settle_error e))
after_mark_paid w p paid_at net (ok previous) =
    complete_webhook w (settled_payment p paid_at net) (status_eq previous expired)

-- The settlement, once it is confirmed.
unfoldable pub settle_confirmed :
    ℕ → ℕ → ProviderWebhookPayload → Payment → Result ℤ → Sql WebhookEnd
settle_confirmed entry_id now w p (err e) =
    fail_webhook (some p.id) w.provider_reference (status_event w.status) (reported w.status) e
      (some e)
settle_confirmed entry_id now w p (ok net) =
    caught (mark_paid entry_id p.id (paid_time w.paid_at now) net now)
    >>= after_mark_paid w p (paid_time w.paid_at now) net

abbrev pub is_mismatch : Error → Bool
is_mismatch amount_mismatch = true
is_mismatch webhook_amount_mismatch = true
is_mismatch _ = false

abbrev pub verify_error :
    Payment → ProviderWebhookPayload → Result (Option NormalizedPaymentStatus) → Option Error
verify_error p w (err e) = some e
verify_error p w (ok s) = verify_provider_payment p s w.amount

unfoldable pub confirm : ℕ → ℕ → ProviderWebhookPayload → Payment → Option Error → Sql WebhookEnd
confirm entry_id now w p none = settle_confirmed entry_id now w p (merchant_net_for p)
confirm entry_id now w p (some e) =
    if is_mismatch e
    then fail_webhook (some p.id) w.provider_reference (status_event w.status) rejected_status e
        (some e)
    else fail_webhook (some p.id) w.provider_reference (status_event w.status) verification_failed e
        (some provider_verification_failed)

-- The payment that the webhook names, or the error of the lookup.
unfoldable pub on_payment :
    Registry → ℕ → ℕ → WebhookProvider → ProviderWebhookPayload → Result Payment → Sql WebhookEnd
on_payment g entry_id now pr w (err e) =
    fail_webhook none w.provider_reference (status_event w.status) (reported w.status) e (some e)
on_payment g entry_id now pr w (ok p) =
    if not (g.equal_fold p.provider_name pr.name)
    then fail_webhook (some p.id) w.provider_reference (status_event w.status) rejected_status
        provider_mismatch (some provider_mismatch)
    else if not (status_eq w.status paid)
    then fail_webhook (some p.id) w.provider_reference (status_event w.status) (reported w.status)
        webhook_ignored (some webhook_ignored)
    else if status_eq p.status paid
    then fail_webhook (some p.id) w.provider_reference (status_event w.status) (reported w.status)
        duplicate_webhook (some duplicate_webhook)
    else if status_eq p.status failed || status_eq p.status cancelled || status_eq p.status refunded
    then fail_webhook (some p.id) w.provider_reference (status_event w.status) (reported w.status)
        payment_already_terminal (some payment_already_terminal)
    else confirm entry_id now w p (verify_error p w (pr.get_payment_status w.provider_reference))

abbrev pub is_test : Error → Bool
is_test test_webhook_event = true
is_test _ = false

unfoldable pub on_payload :
    Registry → ℕ → ℕ → WebhookProvider → Result ProviderWebhookPayload → Sql WebhookEnd
on_payload g entry_id now pr (err e) =
    if is_test e
    then fail_webhook none "" ignored_event ignored_status test_webhook_event none
    else fail_webhook none "" rejected_event rejected_status invalid_provider_reference
        (some invalid_provider_reference)
on_payload g entry_id now pr (ok w) =
    caught (get_by_provider_reference w.provider_reference) >>= on_payment g entry_id now pr w

unfoldable pub on_provider :
    Registry → ℕ → ℕ → String → String → Result WebhookProvider → Sql WebhookEnd
on_provider g entry_id now raw signature (err e) =
    fail_webhook none "" rejected_event rejected_status e (some e)
on_provider g entry_id now raw signature (ok pr) =
    if not (pr.validate_webhook raw signature)
    then fail_webhook none "" rejected_event rejected_status webhook_validation_failed
        (some webhook_validation_failed)
    else on_payload g entry_id now pr (pr.parse_webhook raw)

-- `ProcessWebhook`
unfoldable pub process_webhook : Registry → ℕ → ℕ → String → String → String → Sql WebhookEnd
process_webhook g entry_id now name raw signature = do
  write_event
  on_provider g entry_id now raw signature (g.provider_by_name name)
