-- ===== src/Callback/Finished.antt =====
-- A run that is not interrupted finishes what it has claimed.
use pg_aggregator_back.Common.{
  ℕ, Bool, true, false, not, ◌+◌, ◌≤◌, ◌&&◌, ◌||◌, some, List, [], ◌∷◌, ◌≡◌, refl, subst, ◌∙◌,
  arith, ltb, length, filter, elem, ◌==◌, ==_iff, Bool-cases, inl, inr, if◌then◌else◌,
}
use pg_aggregator_back.Errors.{Result, ok}
use pg_aggregator_back.Store.{Db, Conn}
use pg_aggregator_back.Store.Action.{◌>>=◌, exec}
use pg_aggregator_back.Delivery.{
  CallbackDelivery, CallbackStatus, update_result_rows, delivery_key, has_delivery, is_waiting,
  is_sending, is_failed, is_due, due_ids, claim_due_rows, claim_ids, returned,
  requeue_due_failed_rows, creation_time,
}
use pg_aggregator_back.Delivery.Queue.{is_conclusion, distinct_keys}
use pg_aggregator_back.Delivery.Selection.{Member, Member-elem}
use pg_aggregator_back.Delivery.Complete.{all_picked}
use pg_aggregator_back.Repository.Callbacks.{claim_due, requeue_due_failed, with_callbacks}
use pg_aggregator_back.Callback.Secret.{Cache}
use pg_aggregator_back.Callback.Send.{Transport}
use pg_aggregator_back.Callback.Worker.{Pace, deliver_all, deliver_merchant_callbacks}
use pg_aggregator_back.Callback.Recorded.{deliver_claimed-recorded}

-- The row with the key is there and neither waits nor is being sent.
abbrev pub is_finished : ℕ → List CallbackDelivery → Bool
is_finished i [] = false
is_finished i (r ∷ rs) =
    if r.id == i then not (is_waiting r.status || is_sending r.status) else is_finished i rs

ends_status :
    (s : CallbackStatus) (a b : Bool)
    → (if is_failed s then a else not (is_waiting s || is_sending s || b)) ≡ true
    → not (is_waiting s || is_sending s) ≡ true
ends_status s a b h = ground arith

module _ (x : CallbackDelivery) (now : ℕ) where
  update-has :
      (k : ℕ) (rs : List CallbackDelivery)
      → has_delivery k (update_result_rows x now rs) ≡ has_delivery k rs
  unfolding update_result_rows
  update-has k [] = refl
  update-has k (r ∷ rs) = elim (Bool-cases (r.id == x.id)) [
    | inl mine ↦ rw (mine, update-has k rs) refl
    | inr other ↦ rw (other, update-has k rs) refl
  ]

  -- A recorded conclusion finishes its own row, and leaves the finished ones finished.
  update-finished :
      (i : ℕ) (rs : List CallbackDelivery)
      → is_conclusion x ≡ true
      → is_finished i rs ≡ true
      → is_finished i (update_result_rows x now rs) ≡ true
  unfolding update_result_rows
  update-finished i [] ends h = h
  update-finished i (r ∷ rs) ends h = elim (Bool-cases (r.id == x.id)) [
    | inl mine ↦ elim (Bool-cases (r.id == i)) [
      | inl this ↦ rw (mine, this) (ends_status x.status _ _ ends)
      | inr that ↦ rw (mine, that) (update-finished i rs ends (rw that at h))
    ]
    | inr other ↦ elim (Bool-cases (r.id == i)) [
      | inl this ↦ rw (other, this) (rw this at h)
      | inr that ↦ rw (other, that) (update-finished i rs ends (rw that at h))
    ]
  ]

  update-finishes :
      (i : ℕ) (rs : List CallbackDelivery)
      → x.id ≡ i
      → is_conclusion x ≡ true
      → has_delivery i rs ≡ true
      → is_finished i (update_result_rows x now rs) ≡ true
  unfolding update_result_rows
  update-finishes i [] own ends h = h
  update-finishes i (r ∷ rs) own ends h = elim (Bool-cases (r.id == x.id)) [
    | inl mine ↦
        let this : r.id == i ≡ true = rw own at mine in
        rw (mine, this) (ends_status x.status _ _ ends)
    | inr other ↦
        let that : r.id == i ≡ false = rw own at other in
        rw (other, that) (update-finishes i rs own ends (rw that at h))
  ]

or-true : (a : Bool) → (a || true) ≡ true
or-true true = refl
or-true false = refl

or-right : (a b : Bool) → (a || b) ≡ true → a ≡ false → b ≡ true
or-right a b h n = rw n at h

or-false : (a : Bool) → (a || false) ≡ true → a ≡ true
or-false true h = refl
or-false false h = h

-- The keys of the deliveries are in the table.
abbrev all_there : List CallbackDelivery → List CallbackDelivery → Bool
all_there [] rs = true
all_there (x ∷ xs) rs = has_delivery x.id rs && all_there xs rs

there-head :
    (x : CallbackDelivery) (xs rs : List CallbackDelivery)
    → all_there (x ∷ xs) rs ≡ true
    → (has_delivery x.id rs ≡ true) × (all_there xs rs ≡ true)
there-head x xs rs h = elim (Bool-cases (has_delivery x.id rs)) [
  | inl a ↦ (a, rw a at h)
  | inr b ↦ absurd (cc (rw b at h))
]

there-update :
    (y : CallbackDelivery) (now : ℕ) (xs rs : List CallbackDelivery)
    → all_there xs rs ≡ true
    → all_there xs (update_result_rows y now rs) ≡ true
there-update y now [] rs h = refl
there-update y now (x ∷ xs) rs h =
    let (a, b) = there-head x xs rs h in
    rw (update-has y now x.id rs, a) (there-update y now xs rs b)

-- The rows that are finished at first, and those that are delivered, are finished at the end.
abbrev Finishes : Conn → List CallbackDelivery → Result (Unit {0}) × Conn → Type 0
Finishes c xs r =
    (c' : Conn) × (r ≡ (ok tt, c'))
    × ((i : ℕ)
        → (is_finished i c.db.callbacks || has_delivery i xs) ≡ true
        → is_finished i c'.db.callbacks ≡ true)

module _ (tr : Transport) (pace : Pace) (running : (i : ℕ) → pace.cancelled i ≡ false)
    (in_time : (i : ℕ) → ltb 100 (pace.elapsed i) ≡ false) where
  one_finished :
      (x : CallbackDelivery) (xs rs rs' : List CallbackDelivery) (now : ℕ) (y : CallbackDelivery)
      → is_conclusion y ≡ true
      → y.id ≡ x.id
      → rs' ≡ update_result_rows y now rs
      → has_delivery x.id rs ≡ true
      → (i : ℕ) → (is_finished i rs || has_delivery i (x ∷ xs)) ≡ true
      → (is_finished i rs' || has_delivery i xs) ≡ true
  one_finished x xs rs rs' now y ends own d there i h = elim (Bool-cases (is_finished i rs)) [
    | inl f ↦ rw (d, update-finished y now i rs ends f) refl
    | inr n ↦ elim (Bool-cases (x.id == i)) [
      | inl same ↦
          let e : x.id ≡ i = (==_iff x.id i).0 same in
          let fin =
            update-finishes y now i rs (own ∙ e) ends
              (subst (λ k. has_delivery k rs ≡ true) e there) in
          rw (d, fin) refl
      | inr other ↦
          let later : has_delivery i xs ≡ true = rw other at (or-right _ _ h n) in
          rw (later) (or-true (is_finished i rs'))
    ]
  ]

  deliver_all-Finishes :
      (i : ℕ) (cache : Cache) (xs : List CallbackDelivery) (c : Conn)
      → c.faults ≡ []
      → all_there xs c.db.callbacks ≡ true
      → Finishes c xs (deliver_all tr pace i cache xs c)
  unfolding deliver_all
  deliver_all-Finishes i cache [] c quiet there =
      (c, refl, λ j h. or-false (is_finished j c.db.callbacks) h)
  deliver_all-Finishes i cache (x ∷ xs) c quiet there =
      let (cache', c₁, ran, quiet', (y, ends, own, n, d)) =
        deliver_claimed-recorded tr (pace.clock i) cache x c quiet in
      let (a, b) = there-head x xs c.db.callbacks there in
      let (c', e, done) =
        deliver_all-Finishes (i + 1) cache' xs c₁ quiet'
          (rw (d) (there-update y (pace.clock i) xs c.db.callbacks b)) in
      (
        c',
        rw (running i, in_time i, ran) e,
        λ j h.
            done j (
              one_finished x xs c.db.callbacks c₁.db.callbacks (pace.clock i) y ends.1 own d a j h),
      )

has-head : (q : CallbackDelivery) (qs : List CallbackDelivery) → has_delivery q.id (q ∷ qs) ≡ true
has-head q qs = ground arith

has-tail :
    (k : ℕ) (q : CallbackDelivery) (qs : List CallbackDelivery)
    → has_delivery k qs ≡ true
    → has_delivery k (q ∷ qs) ≡ true
has-tail k q qs h = rw (h) (or-true (q.id == k))

-- The rows that a claim returns are in the table that it leaves.
claimed-there :
    (now : ℕ) (ids : List ℕ) (qs rs : List CallbackDelivery)
    → ((k : ℕ) → has_delivery k qs ≡ true → has_delivery k rs ≡ true)
    → all_there (returned now ids qs) rs ≡ true
claimed-there now ids [] rs h = refl
claimed-there now ids (q ∷ qs) rs h = elim (Bool-cases (elem q.id ids)) [
  | inl mine ↦
      rw (mine, h q.id (has-head q qs))
        (claimed-there now ids qs rs (λ k there. h k (has-tail k q qs there)))
  | inr other ↦ rw (other) (claimed-there now ids qs rs (λ k there. h k (has-tail k q qs there)))
]

claim-has :
    (k now : ℕ) (ids : List ℕ) (rs : List CallbackDelivery)
    → has_delivery k (claim_ids now ids rs) ≡ has_delivery k rs
claim-has k now ids [] = refl
claim-has k now ids (r ∷ rs) = elim (Bool-cases (elem r.id ids)) [
  | inl mine ↦ rw (mine, claim-has k now ids rs) refl
  | inr other ↦ rw (other, claim-has k now ids rs) refl
]

-- A picked key is the key of a returned row.
returned-has :
    (k now : ℕ) (ids : List ℕ) (rs : List CallbackDelivery)
    → elem k ids ≡ true
    → has_delivery k rs ≡ true
    → has_delivery k (returned now ids rs) ≡ true
returned-has k now ids [] mine h = h
returned-has k now ids (r ∷ rs) mine h = elim (Bool-cases (r.id == k)) [
  | inl this ↦
      let e : r.id ≡ k = (==_iff r.id k).0 this in
      let picked : elem r.id ids ≡ true = rw (e) mine in rw (picked, this) refl
  | inr that ↦
      let rest = returned-has k now ids rs mine (rw that at h) in
      elim (Bool-cases (elem r.id ids)) [
        | inl picked ↦ rw (picked, that) rest
        | inr other ↦ rw (other) rest
      ]
]

claim_due-quiet :
    (now limit stale_after : ℕ) (c : Conn)
    → c.faults ≡ []
    → claim_due now limit stale_after c ≡ (
      ok (claim_due_rows now limit stale_after c.db.callbacks).0,
      record c {
        db = with_callbacks c.db (claim_due_rows now limit stale_after c.db.callbacks).1;
        faults = [];
      },
    )
unfolding claim_due exec
claim_due-quiet now limit stale_after c quiet = rw (quiet) refl

requeue-quiet :
    (new_id : ℕ → ℕ) (now limit : ℕ) (c : Conn)
    → c.faults ≡ []
    → distinct_keys (requeue_due_failed_rows new_id now limit c.db.callbacks).1 ≡ true
    → requeue_due_failed new_id now limit c ≡ (
      ok (requeue_due_failed_rows new_id now limit c.db.callbacks).0,
      record c {
        db = with_callbacks c.db (requeue_due_failed_rows new_id now limit c.db.callbacks).1;
        faults = [];
      },
    )
unfolding requeue_due_failed exec
requeue-quiet new_id now limit c quiet free = rw (quiet, free) refl

-- After the requeue: what is claimed of the table `rs` is finished at the end.
claim_then_deliver :
    (tr : Transport) (pace : Pace) (now : ℕ) (d : Db)
    → ((i : ℕ) → pace.cancelled i ≡ false)
    → ((i : ℕ) → ltb 100 (pace.elapsed i) ≡ false)
    → (c' : Conn) × ((claim_due now 50 120 >>= deliver_all tr pace 0 (some []))
          (record { db = d; faults = [] })
        ≡ (ok tt, c'))
      × ((i : ℕ)
          → elem i (due_ids now 50 120 d.callbacks) ≡ true
          → has_delivery i d.callbacks ≡ true
          → is_finished i c'.db.callbacks ≡ true)
unfolding claim_due_rows
claim_then_deliver tr pace now d running in_time =
    let ids = due_ids now 50 120 d.callbacks in
    let c₁ : Conn = record { db = with_callbacks d (claim_ids now ids d.callbacks); faults = [] } in
    let (c', e, done) =
      deliver_all-Finishes tr pace running in_time 0 (some []) (returned now ids d.callbacks) c₁
        refl
        (claimed-there now ids d.callbacks (claim_ids now ids d.callbacks)
          (λ k h. claim-has k now ids d.callbacks ∙ h)) in
    (
      c',
      rw (claim_due-quiet now 50 120 (record { db = d; faults = [] }) refl) e,
      λ i mine there. done i (
          rw (returned-has i now ids d.callbacks mine there)
            (or-true (is_finished i (claim_ids now ids d.callbacks)))),
    )

-- A run of the delivery job in which no statement fails, which is not cancelled and stays within
-- its budget, and whose drawn keys are new: it ends well, and every delivery that waits when the
-- retries that are due have been requeued is finished, sent or failed, if at most 50 deliveries are
-- then due.
pub deliver_merchant_callbacks-finishes :
    (tr : Transport) (pace : Pace) (new_id : ℕ → ℕ) (now : ℕ) (r : CallbackDelivery) (c : Conn)
    → c.faults ≡ []
    → ((i : ℕ) → pace.cancelled i ≡ false)
    → ((i : ℕ) → ltb 100 (pace.elapsed i) ≡ false)
    → distinct_keys (requeue_due_failed_rows new_id now 50 c.db.callbacks).1 ≡ true
    → length (filter (is_due now 120) (requeue_due_failed_rows new_id now 50 c.db.callbacks).1) ≤ 50
    → Member r (requeue_due_failed_rows new_id now 50 c.db.callbacks).1
    → is_waiting r.status ≡ true
    → (c' : Conn) × (deliver_merchant_callbacks tr pace new_id now c ≡ (ok tt, c'))
      × (is_finished r.id c'.db.callbacks ≡ true)
unfolding deliver_merchant_callbacks due_ids
deliver_merchant_callbacks-finishes tr pace new_id now r c quiet running in_time free enough there
      waits =
    let rs = (requeue_due_failed_rows new_id now 50 c.db.callbacks).1 in
    let (c', e, done) = claim_then_deliver tr pace now (with_callbacks c.db rs) running in_time in
    let due : is_due now 120 r ≡ true = rw (waits) refl in
    let mine = all_picked delivery_key r 50 creation_time (is_due now 120) rs there due enough in
    (
      c',
      rw (requeue-quiet new_id now 50 c quiet free) e,
      done r.id mine (Member-elem delivery_key r rs there),
    )
