-- ===== src/Delivery.antt =====
-- The queue of merchant callbacks (internal/domain/merchant/callback.go and
-- internal/repository/merchant_callback_repository.go): the rows of `merchant_callback_deliveries`
-- and each statement on them as a function. Times are numbers of seconds.
pub mod Queue
pub mod Selection
pub mod Exclusive
pub mod Complete
pub mod Attempts
use pg_aggregator_back.Common.{
  ℕ, String, Bool, true, false, ◌+◌, ◌&&◌, ◌||◌, Option, none, some, List, [], ◌∷◌, ◌++◌, ℤ, leb,
  length, take, filter, map, sort_by, elem, is_some, ◌==◌, if◌then◌else◌,
}
use pg_aggregator_back.Payment.{Status}

pub data CallbackStatus : Type 0 where
  pending sending success failed skipped : CallbackStatus

-- `payment.paid`, …: the event of a payment's status.
pub data EventName : Type 0 where
  payment_event : Status → EventName

-- The payload of a callback: the keys of the JSON object that NotifyMerchantPaymentEvent builds.
pub record CallbackPayload : Type 0 where
  pub event : EventName
  pub payment_id : ℕ
  pub reference : String
  pub status : Status
  pub amount : ℤ
  pub fee_amount : ℤ
  pub total_amount : ℤ
  pub currency : String
  pub merchant_id : ℕ
  pub provider : String
  pub occurred_at : ℕ
  pub late_payment : Bool
  pub provider_reference : Option String
  pub paid_at : Option ℕ

-- `error_message`: one of the texts of the service, or the bytes that describe an error.
pub data Message : Type 0 where
  temporary_error temporary_error_final panic_message result_detail_lost : Message
  unexpected_http_status : ℕ → Message
  described : List ℕ → Message

pub record CallbackDelivery : Type 0 where
  pub id : ℕ
  pub payment_id : ℕ
  pub merchant_id : ℕ
  pub event_type : EventName
  pub target_url : String
  pub request_payload : CallbackPayload
  pub attempt_number : ℕ
  pub status : CallbackStatus
  pub http_status : Option ℕ
  pub response_body : Option (List ℕ)
  pub error_message : Option Message
  pub delivered_at : Option ℕ
  pub next_retry_at : Option ℕ
  pub created_at : ℕ
  pub updated_at : ℕ

abbrev pub is_waiting : CallbackStatus → Bool
is_waiting pending = true
is_waiting _ = false

abbrev pub is_sending : CallbackStatus → Bool
is_sending sending = true
is_sending _ = false

abbrev pub is_failed : CallbackStatus → Bool
is_failed failed = true
is_failed _ = false

abbrev pub delivery_key : CallbackDelivery → ℕ
delivery_key r = r.id

-- Whether a row has the key that an INSERT brings.
abbrev pub has_delivery : ℕ → List CallbackDelivery → Bool
has_delivery id rs = elem id (map delivery_key rs)

-- The columns of `UpdateResult`; a key that is missing updates no row.
abbrev pub with_result : CallbackDelivery → ℕ → CallbackDelivery → CallbackDelivery
with_result x now r = record r {
  status = x.status;
  http_status = x.http_status;
  response_body = x.response_body;
  error_message = x.error_message;
  delivered_at = x.delivered_at;
  next_retry_at = x.next_retry_at;
  attempt_number = x.attempt_number;
  updated_at = now;
}

unfoldable pub update_result_rows :
    CallbackDelivery → ℕ → List CallbackDelivery → List CallbackDelivery
update_result_rows x now [] = []
update_result_rows x now (r ∷ rs) =
    let rest = update_result_rows x now rs in
    if r.id == x.id then with_result x now r ∷ rest else r ∷ rest

-- `LIMIT`, where `limit <= 0` stands for 50.
abbrev pub batch : ℕ → ℕ
batch limit = if limit == 0 then 50 else limit

-- The WHERE of ClaimDue: pending, or sending and untouched for `stale_after`.
abbrev pub is_due : ℕ → ℕ → CallbackDelivery → Bool
is_due now stale_after r =
    is_waiting r.status || is_sending r.status && leb (r.updated_at + stale_after) now

abbrev pub creation_time : CallbackDelivery → ℕ
creation_time r = r.created_at

-- The ids that its inner SELECT locks.
unfoldable pub due_ids : ℕ → ℕ → ℕ → List CallbackDelivery → List ℕ
due_ids now limit stale_after rs =
    map delivery_key
      (take (batch limit) (sort_by creation_time (filter (is_due now stale_after) rs)))

abbrev pub claimed_row : ℕ → CallbackDelivery → CallbackDelivery
claimed_row now r = record r { status = sending; updated_at = now }

abbrev pub claim_ids : ℕ → List ℕ → List CallbackDelivery → List CallbackDelivery
claim_ids now ids [] = []
claim_ids now ids (r ∷ rs) = (if elem r.id ids then claimed_row now r else r) ∷ claim_ids now ids rs

-- RETURNING: the rows as updated, in the order of the table.
abbrev pub returned : ℕ → List ℕ → List CallbackDelivery → List CallbackDelivery
returned now ids rs = map (claimed_row now) (filter (λ r. elem r.id ids) rs)

-- `ClaimDue`: the deliveries to send, and the table.
unfoldable pub claim_due_rows :
    ℕ → ℕ → ℕ → List CallbackDelivery → List CallbackDelivery × List CallbackDelivery
unfolding due_ids
claim_due_rows now limit stale_after rs =
    let ids = due_ids now limit stale_after rs in (returned now ids rs, claim_ids now ids rs)

abbrev pub time_is_due : ℕ → Option ℕ → Bool
time_is_due now none = false
time_is_due now (some t) = leb t now

abbrev pub time_of : Option ℕ → ℕ
time_of none = 0
time_of (some t) = t

abbrev pub retry_time : CallbackDelivery → ℕ
retry_time r = time_of r.next_retry_at

-- The WHERE of RequeueDueFailed.
abbrev pub retry_is_due : ℕ → CallbackDelivery → Bool
retry_is_due now r = is_failed r.status && time_is_due now r.next_retry_at

abbrev pub retry_ids : ℕ → ℕ → List CallbackDelivery → List ℕ
retry_ids now limit rs =
    map delivery_key (take (batch limit) (sort_by retry_time (filter (retry_is_due now) rs)))

abbrev pub cleared : ℕ → CallbackDelivery → CallbackDelivery
cleared now r = record r { next_retry_at = none; updated_at = now }

-- The new attempt; the columns that the INSERT leaves out are NULL.
abbrev pub next_attempt : (ℕ → ℕ) → ℕ → CallbackDelivery → CallbackDelivery
next_attempt new_id now r = record {
  id = new_id r.id;
  payment_id = r.payment_id;
  merchant_id = r.merchant_id;
  event_type = r.event_type;
  target_url = r.target_url;
  request_payload = r.request_payload;
  attempt_number = r.attempt_number + 1;
  status = pending;
  http_status = none;
  response_body = none;
  error_message = none;
  delivered_at = none;
  next_retry_at = none;
  created_at = now;
  updated_at = now;
}

abbrev pub clear_ids : ℕ → List ℕ → List CallbackDelivery → List CallbackDelivery
clear_ids now ids [] = []
clear_ids now ids (r ∷ rs) = (if elem r.id ids then cleared now r else r) ∷ clear_ids now ids rs

abbrev pub attempts_of : (ℕ → ℕ) → ℕ → List ℕ → List CallbackDelivery → List CallbackDelivery
attempts_of new_id now ids [] = []
attempts_of new_id now ids (r ∷ rs) =
    let rest = attempts_of new_id now ids rs in
    if elem r.id ids then next_attempt new_id now r ∷ rest else rest

-- `RequeueDueFailed`: how many rows it inserted, and the table. `new_id` is `gen_random_uuid()`
-- for the row that it is drawn for.
unfoldable pub requeue_due_failed_rows :
    (ℕ → ℕ) → ℕ → ℕ → List CallbackDelivery → ℕ × List CallbackDelivery
requeue_due_failed_rows new_id now limit rs =
    let ids = retry_ids now limit rs in
    let fresh = attempts_of new_id now ids rs in (length fresh, fresh ++ clear_ids now ids rs)

-- The WHERE of ClearRetrySchedule.
abbrev pub has_schedule : ℕ → CallbackDelivery → Bool
has_schedule id r = r.id == id && is_failed r.status && is_some r.next_retry_at

-- `ClearRetrySchedule`
unfoldable pub clear_retry_schedule_rows :
    ℕ → ℕ → List CallbackDelivery → Bool × List CallbackDelivery
clear_retry_schedule_rows id now [] = (false, [])
clear_retry_schedule_rows id now (r ∷ rs) =
    let rest = clear_retry_schedule_rows id now rs in
    if has_schedule id r then (true, cleared now r ∷ rest.1) else (rest.0, r ∷ rest.1)

abbrev pub released_row : ℕ → CallbackDelivery → CallbackDelivery
released_row now r = record r { status = pending; updated_at = now }

-- `ReleaseClaimed`
unfoldable pub release_claimed_rows : List ℕ → ℕ → List CallbackDelivery → ℕ × List CallbackDelivery
release_claimed_rows ids now [] = (0, [])
release_claimed_rows ids now (r ∷ rs) =
    let rest = release_claimed_rows ids now rs in
    if elem r.id ids && is_sending r.status
    then (1 + rest.0, released_row now r ∷ rest.1)
    else (rest.0, r ∷ rest.1)
