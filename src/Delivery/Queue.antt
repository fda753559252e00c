-- ===== src/Delivery/Queue.antt =====
-- The statements on the queue as one data type, and sequences of them: what the delivery workers,
-- the manual retries and the notifications do to `merchant_callback_deliveries`.
use pg_aggregator_back.Common.{
  ℕ, Bool, true, false, not, ◌+◌, ◌-◌, ◌&&◌, ◌||◌, List, [], ◌∷◌, ltb, leb, map, elem, is_some,
  ◌==◌, if◌then◌else◌,
}
use pg_aggregator_back.Delivery.{
  CallbackDelivery, is_waiting, is_sending, is_failed, delivery_key, has_delivery,
  update_result_rows, retry_ids, attempts_of, claim_due_rows, requeue_due_failed_rows,
  clear_retry_schedule_rows, release_claimed_rows,
}

-- One statement, with its arguments; `inserts` is Create.
pub data QueueUse : Type 0 where
  inserts : CallbackDelivery → QueueUse
  records : CallbackDelivery → ℕ → QueueUse
  claims : ℕ → ℕ → QueueUse
  requeues : (ℕ → ℕ) → ℕ → ℕ → QueueUse
  clears : ℕ → ℕ → QueueUse
  releases : List ℕ → ℕ → QueueUse

-- The stale window of the service, 2 minutes.
abbrev pub stale_window : ℕ
stale_window = 120

unfoldable pub use_rows : QueueUse → List CallbackDelivery → List CallbackDelivery
use_rows (inserts x) rs = x ∷ rs
use_rows (records x now) rs = update_result_rows x now rs
use_rows (claims now limit) rs = (claim_due_rows now limit stale_window rs).1
use_rows (requeues new_id now limit) rs = (requeue_due_failed_rows new_id now limit rs).1
use_rows (clears id now) rs = (clear_retry_schedule_rows id now rs).1
use_rows (releases ids now) rs = (release_claimed_rows ids now rs).1

unfoldable pub use_queue : List QueueUse → List CallbackDelivery → List CallbackDelivery
unfolding use_rows
use_queue [] rs = rs
use_queue (u ∷ us) rs = use_queue us (use_rows u rs)

-- A result that a send may have: success, or failed with a retry below the fifth attempt only.
abbrev pub is_conclusion : CallbackDelivery → Bool
is_conclusion x =
    if is_failed x.status
    then not (is_some x.next_retry_at) || ltb x.attempt_number 5
    else not (is_waiting x.status || is_sending x.status || is_some x.next_retry_at)

-- Results of automatic attempts that a row can still lead to.
abbrev pub results_left : CallbackDelivery → ℕ
results_left r =
    if is_waiting r.status || is_sending r.status
    then 1 + (5 - r.attempt_number)
    else if is_failed r.status && is_some r.next_retry_at
    then 1 + (5 - (1 + r.attempt_number))
    else 0

-- The primary key.
abbrev pub distinct_keys : List CallbackDelivery → Bool
distinct_keys [] = true
distinct_keys (r ∷ rs) = not (elem r.id (map delivery_key rs)) && distinct_keys rs

-- The row of `x` is not finished, and is at the attempt of `x`.
abbrev pub awaits : CallbackDelivery → List CallbackDelivery → Bool
awaits x [] = false
awaits x (r ∷ rs) =
    if r.id == x.id
    then (is_waiting r.status || is_sending r.status) && r.attempt_number == x.attempt_number
    else awaits x rs

-- A statement by the workers' rules: a result is written for a row that awaits one.
abbrev pub by_rules : QueueUse → List CallbackDelivery → Bool
by_rules (records x now) rs = distinct_keys rs && is_conclusion x && awaits x rs
by_rules u rs = distinct_keys rs

unfoldable pub all_by_rules : List QueueUse → List CallbackDelivery → Bool
unfolding use_rows
all_by_rules [] rs = true
all_by_rules (u ∷ us) rs = by_rules u rs && all_by_rules us (use_rows u rs)

-- How many results are written.
abbrev pub results : List QueueUse → ℕ
results [] = 0
results (records x now ∷ us) = 1 + results us
results (u ∷ us) = results us

-- The attempts that the new rows bring.
abbrev pub granted : List QueueUse → ℕ
granted [] = 0
granted (inserts x ∷ us) = results_left x + granted us
granted (u ∷ us) = granted us

-- A statement between `t` and the end of the stale window that neither releases the row `i` nor
-- writes anything but a conclusion for it, nor inserts its key again.
abbrev pub leaves_claim : ℕ → ℕ → QueueUse → List CallbackDelivery → Bool
leaves_claim i t (inserts x) rs = not (x.id == i)
leaves_claim i t (records x now) rs = is_conclusion x
leaves_claim i t (claims now limit) rs = ltb now (t + stale_window)
leaves_claim i t (requeues new_id now limit) rs =
    leb t now && not (has_delivery i (attempts_of new_id now (retry_ids now limit rs) rs))
leaves_claim i t (clears id now) rs = leb t now
leaves_claim i t (releases ids now) rs = not (elem i ids)

unfoldable pub all_leave_claim : ℕ → ℕ → List QueueUse → List CallbackDelivery → Bool
unfolding use_rows
all_leave_claim i t [] rs = true
all_leave_claim i t (u ∷ us) rs = leaves_claim i t u rs && all_leave_claim i t us (use_rows u rs)
