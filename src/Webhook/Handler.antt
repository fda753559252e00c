-- ===== src/Webhook/Handler.antt =====
-- The answer to a provider's webhook (internal/handler/webhook_handler.go), and the notification
-- that ProcessWebhook sends after a settlement (internal/service/payment_webhook_service.go).
use text.Mathlib.Text.{◌==◌ as str_eq}
use pg_aggregator_back.Common.{ℕ, String, Bool, true, false, Option, none, some, if◌then◌else◌}
use pg_aggregator_back.Errors.{
  Error, duplicate_webhook, payment_already_terminal, webhook_ignored, amount_mismatch,
  webhook_amount_mismatch, provider_verification_failed,
}
use pg_aggregator_back.Payment.{paid}
use pg_aggregator_back.Payment.Request.{Strings}
use pg_aggregator_back.Delivery.{payment_event}
use pg_aggregator_back.Store.Action.{Sql, pure, ◌>>=◌, ◌>>◌}
use pg_aggregator_back.Webhook.{Registry, Notice, process_webhook}
use pg_aggregator_back.Callback.Target.{notify_merchant_payment_event}

-- An answer: the status code, and what its body says.
pub data Answer : Type 0 where
  success_answer ignored_answer : Answer
  error_answer : ℕ → Answer

abbrev pub status_code : Answer → ℕ
status_code success_answer = 200
status_code ignored_answer = 200
status_code (error_answer code) = code

-- Errors that are acknowledged, so that the provider stops retrying.
abbrev pub is_acknowledged : Error → Bool
is_acknowledged duplicate_webhook = true
is_acknowledged payment_already_terminal = true
is_acknowledged webhook_ignored = true
is_acknowledged amount_mismatch = true
is_acknowledged webhook_amount_mismatch = true
is_acknowledged _ = false

abbrev pub is_unverified : Error → Bool
is_unverified provider_verification_failed = true
is_unverified _ = false

-- The answer for what ProcessWebhook returns.
unfoldable pub webhook_answer : Option Error → Answer
webhook_answer none = success_answer
webhook_answer (some e) =
    if is_acknowledged e
    then ignored_answer
    else if is_unverified e
    then error_answer 502
    else error_answer 400

-- What reading the body comes to.
pub data Body : Type 0 where
  too_large unreadable : Body
  payload : String → Body

abbrev pub send_notice : Strings → ℕ → ℕ → Option Notice → Sql (Unit {0})
send_notice go id now none = pure tt
send_notice go id now (some n) =
    notify_merchant_payment_event go id now n.payment (payment_event paid) n.late

-- ProcessWebhook with its notification.
abbrev pub process_and_notify :
    Strings → Registry → ℕ → ℕ → ℕ → String → String → String → Sql (Option Error)
process_and_notify go g entry_id delivery_id now name raw signature = do
  e ← process_webhook g entry_id now name raw signature
  send_notice go delivery_id now e.notice
  pure e.answer

abbrev pub answered_for : Option Error → Sql Answer
answered_for o = pure (webhook_answer o)

abbrev pub on_body : Strings → Registry → ℕ → ℕ → ℕ → String → String → Body → Sql Answer
on_body go g entry_id delivery_id now name signature too_large = pure (error_answer 413)
on_body go g entry_id delivery_id now name signature unreadable = pure (error_answer 400)
on_body go g entry_id delivery_id now name signature (payload raw) =
    process_and_notify go g entry_id delivery_id now name raw signature >>= answered_for

-- `HandleProviderWebhook`
unfoldable pub handle_provider_webhook :
    Strings → Registry → ℕ → ℕ → ℕ → String → String → Body → Sql Answer
unfolding webhook_answer
handle_provider_webhook go g entry_id delivery_id now name signature body =
    if str_eq name ""
    then pure (error_answer 400)
    else on_body go g entry_id delivery_id now name signature body
