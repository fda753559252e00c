-- ===== src/Repository/Callbacks.antt =====
-- internal/repository/merchant_callback_repository.go: the statements on the queue (Delivery) as
-- actions. `limit` and the clock come from the caller.
use pg_aggregator_back.Common.{
  ℕ, Bool, not, ◌||◌, Option, none, some, List, [], ◌∷◌, is_some, if◌then◌else◌,
}
use pg_aggregator_back.Errors.{Result, ok, err, other_error, violation, unique, foreign_key}
use pg_aggregator_back.Store.{Db}
use pg_aggregator_back.Store.Table.{find}
use pg_aggregator_back.Store.Action.{Sql, pure, query, exec}
use pg_aggregator_back.Delivery.{
  CallbackDelivery, delivery_key, has_delivery, update_result_rows, claim_due_rows,
  requeue_due_failed_rows, clear_retry_schedule_rows, release_claimed_rows,
}
use pg_aggregator_back.Delivery.Queue.{distinct_keys}
use pg_aggregator_back.Repository.Payments.{payment_key}
use pg_aggregator_back.Repository.Merchants.{merchant_key}

abbrev pub with_callbacks : Db → List CallbackDelivery → Db
with_callbacks d rs = record d { callbacks = rs }

-- INSERT INTO merchant_callback_deliveries, with the keys of the migration.
unfoldable pub insert_delivery : CallbackDelivery → ℕ → Db → Result (Unit {0} × Db)
insert_delivery x now d =
    if has_delivery x.id d.callbacks
    then err (violation unique)
    else if not (is_some (find payment_key x.payment_id d.payments))
        || not (is_some (find merchant_key x.merchant_id d.merchants))
    then err (violation foreign_key)
    else ok (tt, with_callbacks d (record x { updated_at = now } ∷ d.callbacks))

-- `Create`, for a delivery that has its id and creation time.
unfoldable pub create_delivery : CallbackDelivery → ℕ → Sql (Unit {0})
unfolding insert_delivery
create_delivery x now = exec (insert_delivery x now)

-- `UpdateResult`
unfoldable pub update_result : CallbackDelivery → ℕ → Sql (Unit {0})
update_result x now = exec (λ d. ok (tt, with_callbacks d (update_result_rows x now d.callbacks)))

abbrev delivery_or_error : Option CallbackDelivery → Result CallbackDelivery
delivery_or_error none = err other_error
delivery_or_error (some x) = ok x

-- `GetByID`
unfoldable pub get_delivery : ℕ → Sql CallbackDelivery
get_delivery id = query (λ d. delivery_or_error (find delivery_key id d.callbacks))

-- `ClaimDue`
unfoldable pub claim_due : ℕ → ℕ → ℕ → Sql (List CallbackDelivery)
claim_due now limit stale_after = exec (λ d.
    let claimed = claim_due_rows now limit stale_after d.callbacks in
    ok (claimed.0, with_callbacks d claimed.1))

-- `RequeueDueFailed`; a key that is taken fails the statement.
unfoldable pub requeue_due_failed : (ℕ → ℕ) → ℕ → ℕ → Sql ℕ
requeue_due_failed new_id now limit = exec (λ d.
    let requeued = requeue_due_failed_rows new_id now limit d.callbacks in
    if not (distinct_keys requeued.1)
    then err (violation unique)
    else ok (requeued.0, with_callbacks d requeued.1))

-- `ClearRetrySchedule`
unfoldable pub clear_retry_schedule : ℕ → ℕ → Sql Bool
clear_retry_schedule id now = exec (λ d.
    let changed = clear_retry_schedule_rows id now d.callbacks in
    ok (changed.0, with_callbacks d changed.1))

-- `ReleaseClaimed`, without a statement for an empty list.
unfoldable pub release_claimed : List ℕ → ℕ → Sql ℕ
release_claimed [] now = pure 0
release_claimed (i ∷ ids) now = exec (λ d.
    let released = release_claimed_rows (i ∷ ids) now d.callbacks in
    ok (released.0, with_callbacks d released.1))
