-- ===== src/Callback/Bounded.antt =====
-- How often a merchant is sent one callback, by the retry schedule of `nextRetryAt`.
use pg_aggregator_back.Common.{Bool, true, ◌+◌, ◌≤◌, ◌&&◌, List, [], ◌∷◌, ◌≡◌, refl, sum_by}
use pg_aggregator_back.Delivery.{CallbackDelivery}
use pg_aggregator_back.Delivery.Queue.{
  QueueUse, inserts, records, claims, requeues, clears, releases, use_rows, use_queue, results_left,
  distinct_keys, awaits, by_rules, all_by_rules, results, granted,
}
use pg_aggregator_back.Delivery.Selection.{and-both}
use pg_aggregator_back.Delivery.Attempts.{results-results_left}
use pg_aggregator_back.Callback.Schedule.{is_scheduled, scheduled-conclusion}

-- A result is written for a row that awaits it, and its retry is the schedule's.
abbrev pub is_paced : QueueUse → List CallbackDelivery → Bool
is_paced (records x now) rs = distinct_keys rs && is_scheduled now x && awaits x rs
is_paced u rs = distinct_keys rs

unfoldable pub all_paced : List QueueUse → List CallbackDelivery → Bool
unfolding use_rows
all_paced [] rs = true
all_paced (u ∷ us) rs = is_paced u rs && all_paced us (use_rows u rs)

paced-by_rules :
    (u : QueueUse) (rs : List CallbackDelivery) → is_paced u rs ≡ true → by_rules u rs ≡ true
paced-by_rules (records x now) rs h =
    let (more, there) = and-both h in
    let (keys, ends) = and-both more in
    let distinct : distinct_keys rs ≡ true = keys in
    let awaited : awaits x rs ≡ true = there in
    rw (distinct, scheduled-conclusion x now ends, awaited) refl
paced-by_rules (inserts x) rs h = h
paced-by_rules (claims now limit) rs h = h
paced-by_rules (requeues new_id now limit) rs h = h
paced-by_rules (clears id now) rs h = h
paced-by_rules (releases ids now) rs h = h

all_paced-all_by_rules :
    (us : List QueueUse) (rs : List CallbackDelivery)
    → all_paced us rs ≡ true
    → all_by_rules us rs ≡ true
unfolding all_paced all_by_rules
all_paced-all_by_rules [] rs h = refl
all_paced-all_by_rules (u ∷ us) rs h =
    let (here, there) = and-both h in
    let now = paced-by_rules u rs here in
    let later = all_paced-all_by_rules us (use_rows u rs) there in rw (now, later) refl

-- Over rows with distinct keys, as long as each result is written for a row that awaits it and has
-- a retry only if it failed and `nextRetryAt` gives one for its attempt, the results written and
-- the ones that the queue can still come to are at most the ones it could come to at first and
-- those of the rows inserted; a first attempt can come to five, whatever the claims, requeues,
-- releases and manual retries.
pub results-next_retry :
    (us : List QueueUse) (rs : List CallbackDelivery)
    → all_paced us rs ≡ true
    → results us + sum_by results_left (use_queue us rs) ≤ sum_by results_left rs + granted us
results-next_retry us rs h = results-results_left us rs (all_paced-all_by_rules us rs h)
