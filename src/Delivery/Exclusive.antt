-- ===== src/Delivery/Exclusive.antt =====
-- A claimed delivery is not claimed again before the stale window has passed.
use pg_aggregator_back.Common.{
  ℕ, Bool, true, false, not, ◌+◌, ◌&&◌, ◌||◌, List, [], ◌∷◌, ◌++◌, ◌≡◌, refl, arith, ==_iff,
  is_some, ltb, leb, map, elem, ◌==◌, Bool-cases, inl, inr, if◌then◌else◌,
}
use pg_aggregator_back.Delivery.{
  CallbackDelivery, CallbackStatus, is_waiting, is_sending, is_failed, delivery_key, has_delivery,
  with_result, update_result_rows, retry_ids, attempts_of, claim_due_rows, requeue_due_failed_rows,
  clear_retry_schedule_rows, release_claimed_rows, is_due, due_ids, claimed_row, claim_ids, cleared,
  clear_ids, batch, creation_time, returned, has_schedule, released_row,
}
use pg_aggregator_back.Delivery.Queue.{
  QueueUse, inserts, records, claims, requeues, clears, releases, stale_window, use_rows, use_queue,
  is_conclusion, leaves_claim, all_leave_claim,
}
use pg_aggregator_back.Delivery.Selection.{Member, picked, and-both}

-- The row is another one, or finished, or in flight since `t` or later.
abbrev held_row : ℕ → ℕ → CallbackDelivery → Bool
held_row i t r =
    not (r.id == i)
    || not (is_waiting r.status) && (not (is_sending r.status) || leb t r.updated_at)

abbrev all_held : ℕ → ℕ → List CallbackDelivery → Bool
all_held i t [] = true
all_held i t (r ∷ rs) = held_row i t r && all_held i t rs

not-false : {a : Bool} → not a ≡ true → a ≡ false
not-false {a = true} h = cc
not-false {a = false} h = refl

module _ (i t : ℕ) where
  touched_status :
      (now time id : ℕ) (s : CallbackStatus)
      → leb t now ≡ true
      → (not (id == i) || not (is_waiting s) && (not (is_sending s) || leb t time)) ≡ true
      → (not (id == i) || not (is_waiting s) && (not (is_sending s) || leb t now)) ≡ true
  touched_status now time id s n h = ground arith

  finished_status :
      (now id : ℕ) (s : CallbackStatus) (a b : Bool)
      → (if is_failed s then a else not (is_waiting s || is_sending s || b)) ≡ true
      → (not (id == i) || not (is_waiting s) && (not (is_sending s) || leb t now)) ≡ true
  finished_status now id s a b c = ground arith

  held-head :
      (r : CallbackDelivery) (rs : List CallbackDelivery)
      → all_held i t (r ∷ rs) ≡ true
      → (held_row i t r ≡ true) × (all_held i t rs ≡ true)
  held-head r rs h = elim (Bool-cases (held_row i t r)) [
    | inl a ↦ (a, rw a at h)
    | inr b ↦ absurd (cc (rw b at h))
  ]

  held-cons :
      (r : CallbackDelivery) (rs : List CallbackDelivery)
      → held_row i t r ≡ true
      → all_held i t rs ≡ true
      → all_held i t (r ∷ rs) ≡ true
  held-cons r rs a b = rw a b

  other_row :
      (k : ℕ) (ids : List ℕ) (b : Bool)
      → elem k ids ≡ true
      → elem i ids ≡ false
      → (not (k == i) || b) ≡ true
  other_row k ids b mine n = elim (Bool-cases (k == i)) [
    | inl same ↦ let e : k ≡ i = (==_iff k i).0 same in absurd (cc (mine, n, e))
    | inr f ↦ rw f refl
  ]

  touched :
      (now : ℕ) (r : CallbackDelivery)
      → leb t now ≡ true
      → held_row i t r ≡ true
      → held_row i t (cleared now r) ≡ true
  touched now r n h = touched_status now r.updated_at r.id r.status n h

  finished :
      (x : CallbackDelivery) (now : ℕ) (r : CallbackDelivery)
      → is_conclusion x ≡ true
      → held_row i t (with_result x now r) ≡ true
  finished x now r c =
      finished_status now r.id x.status (not (is_some x.next_retry_at) || ltb x.attempt_number 5)
        (is_some x.next_retry_at) c

  not_head :
      (x : CallbackDelivery) (xs : List CallbackDelivery)
      → has_delivery i (x ∷ xs) ≡ false
      → (held_row i t x ≡ true) × (has_delivery i xs ≡ false)
  not_head x xs n = elim (Bool-cases (x.id == i)) [
    | inl e ↦ absurd (cc (rw e at n))
    | inr f ↦ (rw f refl, rw f at n)
  ]

  new_key : (k : ℕ) (b : Bool) → not (k == i) ≡ true → (not (k == i) || b) ≡ true
  new_key k b h = rw h refl

  held-Member :
      (r : CallbackDelivery) (rs : List CallbackDelivery)
      → all_held i t rs ≡ true
      → Member r rs
      → held_row i t r ≡ true
  held-Member r [] h m = absurd m
  held-Member r (x ∷ rs) h (inl e) = rw e at (held-head x rs h).0
  held-Member r (x ∷ rs) h (inr m) = held-Member r rs (held-head x rs h).1 m

  free_status :
      (now time id : ℕ) (s : CallbackStatus)
      → ltb now (t + stale_window) ≡ true
      → id ≡ i
      → (not (id == i) || not (is_waiting s) && (not (is_sending s) || leb t time)) ≡ true
      → (is_waiting s || is_sending s && leb (time + stale_window) now) ≡ true
      → ⊥
  free_status now time id s w e h d = ground arith

  -- A row in flight is not due inside the window.
  held-due :
      (now : ℕ) (r : CallbackDelivery)
      → ltb now (t + stale_window) ≡ true
      → r.id ≡ i
      → held_row i t r ≡ true
      → is_due now stale_window r ≡ true
      → ⊥
  held-due now r w e h d = free_status now r.updated_at r.id r.status w e h d

  not_due :
      (now limit : ℕ) (rs : List CallbackDelivery)
      → ltb now (t + stale_window) ≡ true
      → all_held i t rs ≡ true
      → elem i (due_ids now limit stale_window rs) ≡ false
  unfolding due_ids
  not_due now limit rs w h = elim (Bool-cases (elem i (due_ids now limit stale_window rs))) [
    | inl there ↦
        let (r, m, own, due) =
          picked delivery_key i (batch limit) creation_time (is_due now stale_window) rs there in
        absurd (held-due now r w own (held-Member r rs h m) due)
    | inr f ↦ f
  ]

  claim_ids-held :
      (now : ℕ) (ids : List ℕ) (rs : List CallbackDelivery)
      → elem i ids ≡ false
      → all_held i t rs ≡ true
      → all_held i t (claim_ids now ids rs) ≡ true
  claim_ids-held now ids [] n h = refl
  claim_ids-held now ids (r ∷ rs) n h =
      let (a, b) = held-head r rs h in
      let rest = claim_ids-held now ids rs n b in
      elim (Bool-cases (elem r.id ids)) [
        | inl mine ↦ rw (mine) (
            held-cons (claimed_row now r) (claim_ids now ids rs) (other_row r.id ids _ mine n) rest)
        | inr other ↦ rw (other) (held-cons r (claim_ids now ids rs) a rest)
      ]

  clear_ids-held :
      (now : ℕ) (ids : List ℕ) (rs : List CallbackDelivery)
      → leb t now ≡ true
      → all_held i t rs ≡ true
      → all_held i t (clear_ids now ids rs) ≡ true
  clear_ids-held now ids [] n h = refl
  clear_ids-held now ids (r ∷ rs) n h =
      let (a, b) = held-head r rs h in
      let rest = clear_ids-held now ids rs n b in
      elim (Bool-cases (elem r.id ids)) [
        | inl mine ↦
            rw (mine) (held-cons (cleared now r) (clear_ids now ids rs) (touched now r n a) rest)
        | inr other ↦ rw (other) (held-cons r (clear_ids now ids rs) a rest)
      ]

  held-append :
      (xs rs : List CallbackDelivery)
      → has_delivery i xs ≡ false
      → all_held i t rs ≡ true
      → all_held i t (xs ++ rs) ≡ true
  held-append [] rs n h = h
  held-append (x ∷ xs) rs n h =
      let (a, b) = not_head x xs n in held-cons x (xs ++ rs) a (held-append xs rs b h)

  schedule-held :
      (id now : ℕ) (rs : List CallbackDelivery)
      → leb t now ≡ true
      → all_held i t rs ≡ true
      → all_held i t (clear_retry_schedule_rows id now rs).1 ≡ true
  unfolding clear_retry_schedule_rows
  schedule-held id now [] n h = refl
  schedule-held id now (r ∷ rs) n h =
      let (a, b) = held-head r rs h in
      let rest = schedule-held id now rs n b in
      elim (Bool-cases (has_schedule id r)) [
        | inl mine ↦ rw (mine) (
            held-cons (cleared now r) (clear_retry_schedule_rows id now rs).1 (touched now r n a)
              rest)
        | inr other ↦ rw (other) (held-cons r (clear_retry_schedule_rows id now rs).1 a rest)
      ]

  release-held :
      (ids : List ℕ) (now : ℕ) (rs : List CallbackDelivery)
      → elem i ids ≡ false
      → all_held i t rs ≡ true
      → all_held i t (release_claimed_rows ids now rs).1 ≡ true
  unfolding release_claimed_rows
  release-held ids now [] n h = refl
  release-held ids now (r ∷ rs) n h =
      let (a, b) = held-head r rs h in
      let rest = release-held ids now rs n b in
      elim (Bool-cases (elem r.id ids && is_sending r.status)) [
        | inl mine ↦ rw (mine) (
            held-cons (released_row now r) (release_claimed_rows ids now rs).1
              (other_row r.id ids _ (and-both mine).0 n) rest)
        | inr other ↦ rw (other) (held-cons r (release_claimed_rows ids now rs).1 a rest)
      ]

  result-held :
      (x : CallbackDelivery) (now : ℕ) (rs : List CallbackDelivery)
      → is_conclusion x ≡ true
      → all_held i t rs ≡ true
      → all_held i t (update_result_rows x now rs) ≡ true
  unfolding update_result_rows
  result-held x now [] c h = refl
  result-held x now (r ∷ rs) c h =
      let (a, b) = held-head r rs h in
      let rest = result-held x now rs c b in
      elim (Bool-cases (r.id == x.id)) [
        | inl mine ↦ rw (mine) (
            held-cons (with_result x now r) (update_result_rows x now rs) (finished x now r c) rest)
        | inr other ↦ rw (other) (held-cons r (update_result_rows x now rs) a rest)
      ]

  use-held :
      (u : QueueUse) (rs : List CallbackDelivery)
      → leaves_claim i t u rs ≡ true
      → all_held i t rs ≡ true
      → all_held i t (use_rows u rs) ≡ true
  unfolding use_rows claim_due_rows requeue_due_failed_rows
  use-held (inserts x) rs l h = held-cons x rs (new_key x.id _ l) h
  use-held (records x now) rs l h = result-held x now rs l h
  use-held (claims now limit) rs l h =
      claim_ids-held now (due_ids now limit stale_window rs) rs (not_due now limit rs l h) h
  use-held (requeues new_id now limit) rs l h =
      let (later, new) = and-both l in
      held-append (attempts_of new_id now (retry_ids now limit rs) rs)
        (clear_ids now (retry_ids now limit rs) rs) (not-false new)
        (clear_ids-held now (retry_ids now limit rs) rs later h)
  use-held (clears id now) rs l h = schedule-held id now rs l h
  use-held (releases ids now) rs l h = release-held ids now rs (not-false l) h

  use_queue-held :
      (us : List QueueUse) (rs : List CallbackDelivery)
      → all_leave_claim i t us rs ≡ true
      → all_held i t rs ≡ true
      → all_held i t (use_queue us rs) ≡ true
  unfolding use_queue all_leave_claim
  use_queue-held [] rs l h = h
  use_queue-held (u ∷ us) rs l h =
      let (a, b) = and-both l in use_queue-held us (use_rows u rs) b (use-held u rs a h)

just_claimed : (i t k : ℕ) → (not (k == i) || not false && (not true || leb t t)) ≡ true
just_claimed i t k = ground arith

not_claimed :
    (i k : ℕ) (ids : List ℕ) (b : Bool)
    → elem k ids ≡ false
    → elem i ids ≡ true
    → (not (k == i) || b) ≡ true
not_claimed i k ids b other h = elim (Bool-cases (k == i)) [
  | inl same ↦ let e : k ≡ i = (==_iff k i).0 same in absurd (cc (other, h, e))
  | inr f ↦ rw f refl
]

-- The rows that a claim returns are in flight from then on.
claimed-held :
    (i t : ℕ) (ids : List ℕ) (rs : List CallbackDelivery)
    → elem i ids ≡ true
    → all_held i t (claim_ids t ids rs) ≡ true
claimed-held i t ids [] h = refl
claimed-held i t ids (r ∷ rs) h = elim (Bool-cases (elem r.id ids)) [
  | inl mine ↦ rw (mine) (
      held-cons i t (claimed_row t r) (claim_ids t ids rs) (just_claimed i t r.id)
        (claimed-held i t ids rs h))
  | inr other ↦ rw (other) (
      held-cons i t r (claim_ids t ids rs) (not_claimed i r.id ids _ other h)
        (claimed-held i t ids rs h))
]

returned-elem :
    (i now : ℕ) (ids : List ℕ) (rs : List CallbackDelivery)
    → elem i (map delivery_key (returned now ids rs)) ≡ true
    → elem i ids ≡ true
returned-elem i now ids [] h = cc
returned-elem i now ids (r ∷ rs) h = elim (Bool-cases (elem r.id ids)) [
  | inl mine ↦ elim (Bool-cases (r.id == i)) [
    | inl same ↦ let e : r.id ≡ i = (==_iff r.id i).0 same in rw e at mine
    | inr other ↦ returned-elem i now ids rs (rw (mine, other) at h)
  ]
  | inr other ↦ returned-elem i now ids rs (rw other at h)
]

-- A delivery that one run has claimed at `t` is not returned to any run that claims before the
-- stale window of two minutes is over, whatever statements come between at `t` or later: claims
-- inside the window, requeues and inserts under other keys, manual retries, releases of other
-- deliveries, and the results of sends.
pub claim_due-claim_due :
    (i t limit now limit' : ℕ) (us : List QueueUse) (rs : List CallbackDelivery)
    → has_delivery i (claim_due_rows t limit stale_window rs).0 ≡ true
    → all_leave_claim i t us (claim_due_rows t limit stale_window rs).1 ≡ true
    → ltb now (t + stale_window) ≡ true
    → has_delivery i
        (claim_due_rows now limit' stale_window
          (use_queue us (claim_due_rows t limit stale_window rs).1)).0
      ≡ false
unfolding claim_due_rows
claim_due-claim_due i t limit now limit' us rs won l w =
    let ids = due_ids t limit stale_window rs in
    let mine = returned-elem i t ids rs won in
    let held = use_queue-held i t us (claim_ids t ids rs) l (claimed-held i t ids rs mine) in
    let later = use_queue us (claim_ids t ids rs) in
    let missed = not_due i t now limit' later w held in
    elim (Bool-cases
      (elem i (map delivery_key (returned now (due_ids now limit' stale_window later) later)))) [
        | inl again ↦
            absurd
              (cc (returned-elem i now (due_ids now limit' stale_window later) later again, missed))
        | inr f ↦ f
      ]
