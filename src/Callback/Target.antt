-- ===== src/Callback/Target.antt =====
-- Where a payment's callbacks go, and the row that queues one.
use text.Mathlib.Text.{◌==◌ as str_eq}
use pg_aggregator_back.Common.{ℕ, String, Bool, true, false, Option, none, some, if◌then◌else◌}
use pg_aggregator_back.Errors.{Error, Result, ok, err, payment_not_found, merchant_not_found}
use pg_aggregator_back.Payment.{Payment, total_amount}
use pg_aggregator_back.Payment.Request.{Strings}
use pg_aggregator_back.Delivery.{CallbackDelivery, CallbackPayload, EventName, pending}
use pg_aggregator_back.Store.Action.{Sql, pure, raise, ◌>>=◌, ◌>>◌, caught}
use pg_aggregator_back.Repository.Payments.{get_by_id}
use pg_aggregator_back.Repository.Merchants.{get_merchant}
use pg_aggregator_back.Repository.Callbacks.{create_delivery}

abbrev pub trimmed_or_empty : Strings → Option String → String
trimmed_or_empty go none = ""
trimmed_or_empty go (some url) = go.trim_space url

abbrev pub merchant_target : Strings → ℕ → Sql String
merchant_target go id = do m ← get_merchant id; pure (trimmed_or_empty go m.webhook_url)

-- `resolveCallbackTarget`
unfoldable pub resolve_callback_target : Strings → Payment → Sql String
resolve_callback_target go p =
    let own = trimmed_or_empty go p.callback_url in
    if str_eq own "" then merchant_target go p.merchant_id else pure own

abbrev pub is_payment_not_found : Error → Bool
is_payment_not_found payment_not_found = true
is_payment_not_found _ = false

abbrev pub is_merchant_not_found : Error → Bool
is_merchant_not_found merchant_not_found = true
is_merchant_not_found _ = false

abbrev pub or_stored : String → Result String → Sql String
or_stored url (err e) = if is_merchant_not_found e then pure url else raise e
or_stored url (ok target) = if str_eq target "" then pure url else pure target

abbrev pub target_of_payment : Strings → String → Result Payment → Sql String
target_of_payment go url (err e) = if is_payment_not_found e then pure url else raise e
target_of_payment go url (ok p) = caught (resolve_callback_target go p) >>= or_stored url

-- `currentCallbackTarget`
unfoldable pub current_callback_target : Strings → CallbackDelivery → Sql String
current_callback_target go x = caught (get_by_id x.payment_id) >>= target_of_payment go x.target_url

-- The payload of NotifyMerchantPaymentEvent.
abbrev pub payload_of : Payment → EventName → Bool → ℕ → CallbackPayload
payload_of p event late now = record {
  event = event;
  payment_id = p.id;
  reference = p.reference;
  status = p.status;
  amount = p.amount;
  fee_amount = p.fee_amount;
  total_amount = total_amount p;
  currency = p.currency;
  merchant_id = p.merchant_id;
  provider = p.provider_name;
  occurred_at = now;
  late_payment = late;
  provider_reference = p.provider_reference;
  paid_at = p.paid_at;
}

abbrev pub first_delivery : Payment → EventName → Bool → ℕ → ℕ → String → CallbackDelivery
first_delivery p event late id now url = record {
  id = id;
  payment_id = p.id;
  merchant_id = p.merchant_id;
  event_type = event;
  target_url = url;
  request_payload = payload_of p event late now;
  attempt_number = 1;
  status = pending;
  http_status = none;
  response_body = none;
  error_message = none;
  delivered_at = none;
  next_retry_at = none;
  created_at = now;
  updated_at = now;
}

abbrev pub queue_at : Payment → EventName → Bool → ℕ → ℕ → Result String → Sql (Unit {0})
queue_at p event late id now (err e) = pure tt
queue_at p event late id now (ok url) =
    if str_eq url ""
    then pure tt
    else caught (create_delivery (first_delivery p event late id now url) now) >> pure tt

-- `NotifyMerchantPaymentEvent`: it returns nothing; `id` and `now` are what it draws.
unfoldable pub notify_merchant_payment_event :
    Strings → ℕ → ℕ → Payment → EventName → Bool → Sql (Unit {0})
notify_merchant_payment_event go id now p event late =
    caught (resolve_callback_target go p) >>= queue_at p event late id now
