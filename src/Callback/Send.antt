-- ===== src/Callback/Send.antt =====
-- One delivery: the decision what to record, and the record. One reading of the clock stands for
-- those within a function; a detached context is not cancelled.
use pg_aggregator_back.Common.{
  ℕ, String, Bool, true, false, ◌+◌, ◌&&◌, Option, none, some, List, [], ◌∷◌, ◌⊎◌, inl, inr, ltb,
  leb, if◌then◌else◌,
}
use pg_aggregator_back.Errors.{Result, ok, err}
use pg_aggregator_back.Payment.{Payment, is_sandbox}
use pg_aggregator_back.Delivery.{
  CallbackDelivery, EventName, Message, temporary_error, temporary_error_final, panic_message,
  result_detail_lost, unexpected_http_status, described, success, failed,
}
use pg_aggregator_back.Store.Action.{Sql, pure, raise, ◌>>=◌, ◌>>◌, caught}
use pg_aggregator_back.Repository.Payments.{get_by_id}
use pg_aggregator_back.Repository.Callbacks.{update_result}
use pg_aggregator_back.Callback.Text.{storable_text}
use pg_aggregator_back.Callback.Target.{is_payment_not_found}
use pg_aggregator_back.Callback.Secret.{Cache, resolve_webhook_secret}

abbrev pub max_callback_attempts : ℕ
max_callback_attempts = 5

-- 5 minutes.
abbrev pub retry_delay : ℕ
retry_delay = 300

abbrev pub max_stored_response_body : ℕ
max_stored_response_body = 4096

abbrev pub max_stored_error_message : ℕ
max_stored_error_message = 300

-- The POST, with its headers X-PG-Event and X-PG-Signature.
pub record CallbackRequest : Type 0 where
  pub url : String
  pub event : EventName
  pub signature : Option String
  pub body : String

-- What `callbackClient().Do` comes to: an error with its description, and whether it is
-- netsafe.ErrBlockedAddress; a response, with the bytes that are read of its body; a panic.
pub data Reply : Type 0 where
  no_response : Bool → List ℕ → Reply
  response : ℕ → List ℕ → Reply
  panics : Reply

-- What is called: callbackValidate (the text of its error), json.Marshal and http.NewRequest (the
-- text of their errors), generateWebhookSecret for a merchant, signWebhookPayload, the client for
-- a delivery, strings.ToValidUTF8.
pub record Transport : Type 0 where
  pub callback_validate : String → Bool → Option (List ℕ)
  pub marshal : CallbackDelivery → List ℕ ⊎ String
  pub request_error : String → String → Option (List ℕ)
  pub generate_secret : ℕ → Option String
  pub sign : String → String → String
  pub send : ℕ → CallbackRequest → Reply
  pub to_valid_utf8 : List ℕ → List ℕ

-- `nextRetryAt`
unfoldable pub next_retry : ℕ → ℕ → Option ℕ
next_retry attempt_number now =
    if leb max_callback_attempts attempt_number then none else some (now + retry_delay)

-- The result without its detail.
abbrev pub without_detail : CallbackDelivery → CallbackDelivery
without_detail x = record x { response_body = none; error_message = some result_detail_lost }

abbrev pub again_without_detail : CallbackDelivery → ℕ → Result (Unit {0}) → Sql CallbackDelivery
again_without_detail x now (ok u) = pure x
again_without_detail x now (err e) =
    caught (update_result (without_detail x) now) >> pure (without_detail x)

-- `recordDeliveryResult`: the delivery as it is left.
unfoldable pub record_delivery_result : CallbackDelivery → ℕ → Sql CallbackDelivery
record_delivery_result x now = caught (update_result x now) >>= again_without_detail x now

abbrev pub final_or_not : Option ℕ → Message
final_or_not none = temporary_error_final
final_or_not (some t) = temporary_error

-- The lookup of the payment failed.
abbrev pub deferred : ℕ → CallbackDelivery → CallbackDelivery
deferred now x = record x {
  status = failed;
  next_retry_at = next_retry x.attempt_number now;
  error_message = some (final_or_not (next_retry x.attempt_number now));
}

-- The fields that failCallbackPermanently sets.
abbrev pub failed_for_good : Message → CallbackDelivery → CallbackDelivery
failed_for_good m x = record x { status = failed; error_message = some m; next_retry_at = none }

-- The request failed.
abbrev pub unanswered : ℕ → Bool → List ℕ → CallbackDelivery → CallbackDelivery
unanswered now blocked text x = record x {
  status = failed;
  error_message = some (described text);
  next_retry_at = (if blocked then none else next_retry x.attempt_number now);
}

abbrev pub is_success_code : ℕ → Bool
is_success_code code = leb 200 code && ltb code 300

abbrev pub body_or : Option (List ℕ) → List ℕ → Option (List ℕ)
body_or old [] = old
body_or old (b ∷ bs) = some (b ∷ bs)

abbrev pub with_reply : ℕ → List ℕ → CallbackDelivery → CallbackDelivery
with_reply code body x = record x {
  http_status = some code;
  response_body = body_or x.response_body body;
}

-- A response came.
unfoldable pub answered_by : ℕ → ℕ → List ℕ → CallbackDelivery → CallbackDelivery
answered_by now code body x =
    let y = with_reply code body x in
    if is_success_code code
    then record y {
      status = success;
      delivered_at = some now;
      error_message = none;
      next_retry_at = none;
    }
    else record y {
      status = failed;
      error_message = some (unexpected_http_status code);
      next_retry_at = next_retry y.attempt_number now;
    }

-- The delivery after a call, the cache, and whether the call panicked.
pub record Ran : Type 0 where
  pub delivery : CallbackDelivery
  pub cache : Cache
  pub panicked : Bool

-- The record of a result, and the end of the call.
abbrev pub conclude : ℕ → Cache → CallbackDelivery → Sql Ran
conclude now cache x = do
  y ← record_delivery_result x now
  pure (record { delivery = y; cache = cache; panicked = false })

-- `failCallbackPermanently`
abbrev pub fail_callback_permanently : Transport → ℕ → Cache → CallbackDelivery → List ℕ → Sql Ran
fail_callback_permanently tr now cache x cause =
    conclude now cache (
      failed_for_good (described (storable_text tr.to_valid_utf8 cause max_stored_error_message)) x)

abbrev pub replied : Transport → ℕ → Cache → CallbackDelivery → Reply → Sql Ran
replied tr now cache x panics = pure (record { delivery = x; cache = cache; panicked = true })
replied tr now cache x (no_response blocked text) =
    conclude now cache (unanswered now blocked text x)
replied tr now cache x (response code body) =
    conclude now cache
      (answered_by now code (storable_text tr.to_valid_utf8 body max_stored_response_body) x)

abbrev pub request_of : CallbackDelivery → String → Option String → CallbackRequest
request_of x body signature = record {
  url = x.target_url;
  event = x.event_type;
  signature = signature;
  body = body;
}

-- Signing is best effort.
abbrev pub signed :
    Transport → ℕ → Cache → CallbackDelivery → String → Result (String × Cache) → Sql Ran
signed tr now cache x body (err e) = replied tr now cache x (tr.send x.id (request_of x body none))
signed tr now cache x body (ok (secret, cache')) =
    replied tr now cache' x (tr.send x.id (request_of x body (some (tr.sign secret body))))

abbrev pub requested : Transport → ℕ → Cache → CallbackDelivery → String → Option (List ℕ) → Sql Ran
requested tr now cache x body (some cause) = fail_callback_permanently tr now cache x cause
requested tr now cache x body none =
    caught (resolve_webhook_secret (tr.generate_secret x.merchant_id) x.merchant_id cache)
    >>= signed tr now cache x body

abbrev pub encoded : Transport → ℕ → Cache → CallbackDelivery → List ℕ ⊎ String → Sql Ran
encoded tr now cache x (inl cause) = fail_callback_permanently tr now cache x cause
encoded tr now cache x (inr body) =
    requested tr now cache x body (tr.request_error x.target_url body)

abbrev pub validated : Transport → ℕ → Cache → CallbackDelivery → Option (List ℕ) → Sql Ran
validated tr now cache x (some cause) = fail_callback_permanently tr now cache x cause
validated tr now cache x none = encoded tr now cache x (tr.marshal x)

abbrev pub sandbox_only : Result Payment → Sql Bool
sandbox_only (err e) = if is_payment_not_found e then pure false else raise e
sandbox_only (ok p) = pure (is_sandbox p.environment)

-- `callbackAllowsHTTP`
unfoldable pub callback_allows_http : CallbackDelivery → Sql Bool
callback_allows_http x = caught (get_by_id x.payment_id) >>= sandbox_only

abbrev pub by_environment : Transport → ℕ → Cache → CallbackDelivery → Result Bool → Sql Ran
by_environment tr now cache x (err e) = conclude now cache (deferred now x)
by_environment tr now cache x (ok allow_http) =
    validated tr now cache x (tr.callback_validate x.target_url allow_http)

-- `executeCallbackDelivery`
unfoldable pub execute_callback_delivery : Transport → ℕ → Cache → CallbackDelivery → Sql Ran
unfolding callback_allows_http resolve_webhook_secret record_delivery_result answered_by
execute_callback_delivery tr now cache x =
    caught (callback_allows_http x) >>= by_environment tr now cache x

-- The deferred recover of deliverClaimedCallback.
abbrev pub recovered : ℕ → Ran → Sql Cache
recovered now ran =
    if ran.panicked
    then record_delivery_result (failed_for_good panic_message ran.delivery) now >> pure ran.cache
    else pure ran.cache

-- `deliverClaimedCallback`: the cache after it.
unfoldable pub deliver_claimed_callback : Transport → ℕ → Cache → CallbackDelivery → Sql Cache
unfolding execute_callback_delivery record_delivery_result
deliver_claimed_callback tr now cache x = execute_callback_delivery tr now cache x >>= recovered now
