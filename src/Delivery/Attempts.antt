-- ===== src/Delivery/Attempts.antt =====
-- How many results the queue can come to: a callback is given up after its fifth attempt.
use pg_aggregator_back.Common.{
  ℕ, Bool, true, false, not, ◌+◌, ◌-◌, ◌≤◌, ◌&&◌, ◌||◌, Option, none, some, List, [], ◌∷◌, ◌++◌,
  ◌≡◌, refl, arith, ltb, map, sum_by, elem, is_some, ◌==◌, ==_iff, Bool-cases, inl, inr,
  if◌then◌else◌,
}
use pg_aggregator_back.Delivery.{
  CallbackDelivery, CallbackStatus, is_waiting, is_sending, is_failed, delivery_key,
  update_result_rows, retry_ids, attempts_of, claim_due_rows, requeue_due_failed_rows,
  clear_retry_schedule_rows, release_claimed_rows, is_due, due_ids, claim_ids, clear_ids, batch,
  creation_time, has_schedule, retry_is_due, retry_time, time_is_due,
}
use pg_aggregator_back.Delivery.Queue.{
  QueueUse, inserts, records, claims, requeues, clears, releases, stale_window, use_rows, use_queue,
  is_conclusion, results_left, distinct_keys, awaits, by_rules, all_by_rules, results, granted,
}
use pg_aggregator_back.Delivery.Selection.{Member, later_distinct, head_alone, picked_row, and-both}

abbrev left : List CallbackDelivery → ℕ
left rs = sum_by results_left rs

-- The same on the columns that it reads.
abbrev weight : CallbackStatus → Bool → ℕ → ℕ
weight s scheduled n =
    if is_waiting s || is_sending s
    then 1 + (5 - n)
    else if is_failed s && scheduled
    then 1 + (5 - (1 + n))
    else 0

left-append : (xs ys : List CallbackDelivery) → left (xs ++ ys) ≡ left xs + left ys
left-append [] ys = omega arith
left-append (x ∷ xs) ys = let e = left-append xs ys in omega arith

due_weight :
    (s : CallbackStatus) (b old : Bool) (n : ℕ)
    → (is_waiting s || is_sending s && old) ≡ true
    → weight s b n ≡ 1 + (5 - n)
due_weight s b old n h = ground arith

failed_weight :
    (s : CallbackStatus) (now : ℕ) (t : Option ℕ) (n : ℕ)
    → (is_failed s && time_is_due now t) ≡ true
    → weight s (is_some t) n ≡ 1 + (5 - (n + 1))
failed_weight s now none n h = ground arith
failed_weight s now (some t) n h = ground arith

cleared_weight : (s : CallbackStatus) (b : Bool) (n : ℕ) → weight s false n ≤ weight s b n
cleared_weight s b n = ground arith

failed_cleared :
    (s : CallbackStatus) (b : Bool) (n : ℕ) → (is_failed s && b) ≡ true → weight s false n ≡ 0
failed_cleared s b n h = ground arith

sending_weight :
    (a : Bool) (s : CallbackStatus) (b : Bool) (n : ℕ)
    → (a && is_sending s) ≡ true
    → weight s b n ≡ 1 + (5 - n)
sending_weight a s b n h = ground arith

result_weight :
    (s s' : CallbackStatus) (b b' : Bool) (n n' : ℕ)
    → ((is_waiting s || is_sending s) && n == n') ≡ true
    → (if is_failed s' then not b' || ltb n' 5 else not (is_waiting s' || is_sending s' || b'))
      ≡ true
    → 1 + weight s' b' n' ≤ weight s b n
result_weight s s' b b' n n' open_there ends = ground arith

claim_ids-left :
    (now old : ℕ) (ids : List ℕ) (rs : List CallbackDelivery)
    → ((r : CallbackDelivery) → Member r rs → elem r.id ids ≡ true → is_due now old r ≡ true)
    → left (claim_ids now ids rs) ≡ left rs
claim_ids-left now old ids [] due = refl
claim_ids-left now old ids (r ∷ rs) due =
    let rest = claim_ids-left now old ids rs (λ q m e. due q (inr m) e) in
    elim (Bool-cases (elem r.id ids)) [
      | inl mine ↦
          let w =
            due_weight r.status (is_some r.next_retry_at) _ r.attempt_number
              (due r (inl refl) mine) in
          rw (mine, w, rest) refl
      | inr other ↦ rw (other, rest) refl
    ]

requeue-left :
    (new_id : ℕ → ℕ) (now : ℕ) (ids : List ℕ) (rs : List CallbackDelivery)
    → ((r : CallbackDelivery) → Member r rs → elem r.id ids ≡ true → retry_is_due now r ≡ true)
    → left (attempts_of new_id now ids rs) + left (clear_ids now ids rs) ≡ left rs
requeue-left new_id now ids [] due = refl
requeue-left new_id now ids (r ∷ rs) due =
    let rest = requeue-left new_id now ids rs (λ q m e. due q (inr m) e) in
    elim (Bool-cases (elem r.id ids)) [
      | inl mine ↦
          let w =
            failed_weight r.status now r.next_retry_at r.attempt_number (due r (inl refl) mine) in
          let z = failed_cleared r.status _ r.attempt_number (due r (inl refl) mine) in
          rw (mine, w, z) omega arith
      | inr other ↦ rw (other) omega arith
    ]

schedule-left :
    (id now : ℕ) (rs : List CallbackDelivery)
    → left (clear_retry_schedule_rows id now rs).1 ≤ left rs
unfolding clear_retry_schedule_rows
schedule-left id now [] = omega arith
schedule-left id now (r ∷ rs) =
    let rest = schedule-left id now rs in
    elim (Bool-cases (has_schedule id r)) [
      | inl mine ↦
          let w = cleared_weight r.status (is_some r.next_retry_at) r.attempt_number in
          rw (mine) omega arith
      | inr other ↦ rw (other) omega arith
    ]

release-left :
    (ids : List ℕ) (now : ℕ) (rs : List CallbackDelivery)
    → left (release_claimed_rows ids now rs).1 ≡ left rs
unfolding release_claimed_rows
release-left ids now [] = refl
release-left ids now (r ∷ rs) =
    let rest = release-left ids now rs in
    elim (Bool-cases (elem r.id ids && is_sending r.status)) [
      | inl mine ↦
          let w = sending_weight _ r.status (is_some r.next_retry_at) r.attempt_number mine in
          rw (mine, w, rest) refl
      | inr other ↦ rw (other, rest) refl
    ]

-- A key that is missing updates no row.
update-absent :
    (x : CallbackDelivery) (now : ℕ) (rs : List CallbackDelivery)
    → elem x.id (map delivery_key rs) ≡ false
    → update_result_rows x now rs ≡ rs
unfolding update_result_rows
update-absent x now [] n = refl
update-absent x now (r ∷ rs) n = elim (Bool-cases (r.id == x.id)) [
  | inl e ↦ absurd (cc (rw e at n))
  | inr f ↦ rw (f, update-absent x now rs (rw f at n)) refl
]

result-left :
    (x : CallbackDelivery) (now : ℕ) (rs : List CallbackDelivery)
    → distinct_keys rs ≡ true
    → is_conclusion x ≡ true
    → awaits x rs ≡ true
    → 1 + left (update_result_rows x now rs) ≤ left rs
unfolding update_result_rows
result-left x now [] d ends w = cc
result-left x now (r ∷ rs) d ends w = elim (Bool-cases (r.id == x.id)) [
  | inl mine ↦
      let same : r.id ≡ x.id = (==_iff r.id x.id).0 mine in
      let rest = update-absent x now rs (head_alone r rs x.id d same) in
      let less =
        result_weight r.status x.status (is_some r.next_retry_at) (is_some x.next_retry_at)
          r.attempt_number x.attempt_number (rw mine at w) ends in
      rw (mine, rest) omega arith
  | inr other ↦
      let rest = result-left x now rs (later_distinct r rs d) ends (rw other at w) in
      rw (other) omega arith
]

use-left :
    (u : QueueUse) (us : List QueueUse) (rs : List CallbackDelivery)
    → by_rules u rs ≡ true
    → results (u ∷ us) + left (use_rows u rs) + granted us ≤ results us + left rs + granted (u ∷ us)
unfolding use_rows claim_due_rows requeue_due_failed_rows due_ids
use-left (inserts x) us rs l = omega arith
use-left (records x now) us rs l =
    let (more, w) = and-both l in
    let (d, ends) = and-both more in let less = result-left x now rs d ends w in omega arith
use-left (claims now limit) us rs l =
    let e = claim_ids-left now stale_window (due_ids now limit stale_window rs) rs (λ r m mine.
      picked_row r (batch limit) creation_time (is_due now stale_window) rs l m mine) in
    omega arith
use-left (requeues new_id now limit) us rs l =
    let ids = retry_ids now limit rs in
    let e =
      requeue-left new_id now ids rs
        (λ r m mine. picked_row r (batch limit) retry_time (retry_is_due now) rs l m mine) in
    let a = left-append (attempts_of new_id now ids rs) (clear_ids now ids rs) in omega arith
use-left (clears id now) us rs l = let e = schedule-left id now rs in omega arith
use-left (releases ids now) us rs l = let e = release-left ids now rs in omega arith

-- From any queue with distinct keys, as long as every result is written for a row that still
-- awaits one and has a retry below the fifth attempt only, the results written and the ones the
-- queue can still come to are at most the ones it could come to at first and those of the rows
-- inserted.
pub results-results_left :
    (us : List QueueUse) (rs : List CallbackDelivery)
    → all_by_rules us rs ≡ true
    → results us + sum_by results_left (use_queue us rs) ≤ sum_by results_left rs + granted us
unfolding use_queue all_by_rules
results-results_left [] rs l = omega arith
results-results_left (u ∷ us) rs l =
    let (a, b) = and-both l in
    let rest = results-results_left us (use_rows u rs) b in
    let here = use-left u us rs a in omega arith
