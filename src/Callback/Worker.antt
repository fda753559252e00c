-- ===== src/Callback/Worker.antt =====
-- The scheduled job that sends queued callbacks, and the manual retry.
use pg_aggregator_back.Common.{
  ℕ, String, Bool, ◌+◌, none, some, List, [], ◌∷◌, ltb, map, if◌then◌else◌,
}
use pg_aggregator_back.Payment.Request.{Strings}
use pg_aggregator_back.Delivery.{CallbackDelivery, sending, delivery_key}
use pg_aggregator_back.Store.Action.{Sql, pure, ◌>>=◌, ◌>>◌, caught}
use pg_aggregator_back.Repository.Callbacks.{
  create_delivery, get_delivery, claim_due, requeue_due_failed, clear_retry_schedule,
  release_claimed,
}
use pg_aggregator_back.Callback.Target.{current_callback_target}
use pg_aggregator_back.Callback.Secret.{Cache}
use pg_aggregator_back.Callback.Send.{
  Transport, Ran, execute_callback_delivery, deliver_claimed_callback,
}

abbrev pub callback_batch_size : ℕ
callback_batch_size = 50

abbrev pub callback_sending_stale_after : ℕ
callback_sending_stale_after = 120

-- `defaultCallbackBatchBudget`, in seconds: the stale window less two client timeouts.
abbrev pub callback_batch_budget : ℕ
callback_batch_budget = 100

-- The time around one run: whether the context is cancelled and how long the run has taken before
-- the i-th delivery, and the clock while it is sent.
pub record Pace : Type 0 where
  pub cancelled : ℕ → Bool
  pub elapsed : ℕ → ℕ
  pub clock : ℕ → ℕ

-- `releaseUnsent`
unfoldable pub release_unsent : List CallbackDelivery → ℕ → Sql (Unit {0})
release_unsent unsent now = caught (release_claimed (map delivery_key unsent) now) >> pure tt

-- The loop, from the i-th delivery on.
unfoldable pub deliver_all : Transport → Pace → ℕ → Cache → List CallbackDelivery → Sql (Unit {0})
unfolding deliver_claimed_callback release_unsent
deliver_all tr pace i cache [] = pure tt
deliver_all tr pace i cache (x ∷ xs) =
    if pace.cancelled i
    then release_unsent (x ∷ xs) (pace.clock i)
    else if ltb callback_batch_budget (pace.elapsed i)
    then release_unsent (x ∷ xs) (pace.clock i)
    else deliver_claimed_callback tr (pace.clock i) cache x >>= λ cache'.
        deliver_all tr pace (i + 1) cache' xs

-- `DeliverMerchantCallbacks`
unfoldable pub deliver_merchant_callbacks : Transport → Pace → (ℕ → ℕ) → ℕ → Sql (Unit {0})
unfolding deliver_all
deliver_merchant_callbacks tr pace new_id now = do
  requeue_due_failed new_id now callback_batch_size
  due ← claim_due now callback_batch_size callback_sending_stale_after
  deliver_all tr pace 0 (some []) due

-- The attempt that a manual retry makes: it is sending from the start.
abbrev pub manual_attempt : CallbackDelivery → String → ℕ → ℕ → CallbackDelivery
manual_attempt x url id now = record x {
  id = id;
  target_url = url;
  attempt_number = x.attempt_number + 1;
  status = sending;
  http_status = none;
  response_body = none;
  error_message = none;
  delivered_at = none;
  next_retry_at = none;
  created_at = now;
  updated_at = now;
}

-- `retryMerchantCallbackData`, without a cache; a panic of the send goes on to the caller.
unfoldable pub retry_merchant_callback_data :
    Strings → Transport → ℕ → ℕ → CallbackDelivery → Sql Ran
unfolding execute_callback_delivery
retry_merchant_callback_data go tr id now x = do
  url ← current_callback_target go x
  clear_retry_schedule x.id now
  create_delivery (manual_attempt x url id now) now
  execute_callback_delivery tr now none (manual_attempt x url id now)

-- `RetryMerchantCallback`
unfoldable pub retry_merchant_callback : Strings → Transport → ℕ → ℕ → ℕ → Sql Ran
unfolding retry_merchant_callback_data
retry_merchant_callback go tr new_id now id = do
  x ← get_delivery id
  retry_merchant_callback_data go tr new_id now x
