-- ===== src/Callback/Recorded.antt =====
-- What one delivery leaves in the queue, whichever statement fails.
use pg_aggregator_back.Common.{
  ℕ, String, Bool, true, false, not, ◌||◌, Option, none, some, List, [], ◌≡◌, refl, ap, ◌∙◌, ◌⊎◌,
  arith, Bool-cases, inl, inr, is_some,
}
use pg_aggregator_back.Errors.{Result, ok, err, db_failure}
use pg_aggregator_back.Store.{Conn}
use pg_aggregator_back.Store.Action.{◌>>=◌, exec, tick}
use pg_aggregator_back.Delivery.{CallbackDelivery, panic_message, update_result_rows}
use pg_aggregator_back.Delivery.Queue.{is_conclusion}
use pg_aggregator_back.Callback.Schedule.{is_scheduled, scheduled-conclusion}
use pg_aggregator_back.Repository.Callbacks.{update_result, with_callbacks}
use pg_aggregator_back.Callback.Secret.{Cache, resolve_webhook_secret}
use pg_aggregator_back.Store.Calm.{Calm, tick-quiet, tick-fine}
use pg_aggregator_back.Callback.Calm.{queue, callback_allows_http-Calm, secret-Calm}
use pg_aggregator_back.Callback.Send.{
  Transport, Reply, panics, no_response, response, next_retry, without_detail,
  record_delivery_result, conclude, recovered, replied, signed, requested, encoded, validated,
  by_environment, callback_allows_http, execute_callback_delivery, deliver_claimed_callback,
  answered_by, is_success_code, deferred, failed_for_good, unanswered, fail_callback_permanently,
}

-- The delivery is finished; its retry is one that `nextRetryAt` gives, below the fifth attempt.
abbrev pub Ends : ℕ → CallbackDelivery → Type 0
Ends now y = (is_scheduled now y ≡ true) × (is_conclusion y ≡ true)

-- A result for `x` is recorded.
abbrev pub Records : CallbackDelivery → ℕ → Conn → Conn → Type 0
Records x now c c' =
    (y : CallbackDelivery) × Ends now y
    × (y.id ≡ x.id)
    × (y.attempt_number ≡ x.attempt_number)
    × (c'.db.callbacks ≡ update_result_rows y now c.db.callbacks)

-- A result is recorded, or the queue is as before and a statement has failed.
abbrev pub Wrote : CallbackDelivery → ℕ → Conn → Conn → Type 0
Wrote x now c c' =
    ((c'.db.callbacks ≡ c.db.callbacks) ⊎ Records x now c c')
    × (c.faults ≡ [] → (c'.faults ≡ []) × Records x now c c')

move-Records :
    (x : CallbackDelivery) (now : ℕ) (c c₁ c' : Conn)
    → c₁.db.callbacks ≡ c.db.callbacks
    → Records x now c₁ c'
    → Records x now c c'
move-Records x now c c₁ c' same (y, a, b, n, d) =
    (y, a, b, n, d ∙ ap (update_result_rows y now) same)

Calm-Wrote :
    (x : CallbackDelivery) (now : ℕ) (c c₁ c' : Conn)
    → Calm queue c c₁
    → Wrote x now c₁ c'
    → Wrote x now c c'
Calm-Wrote x now c c₁ c' (same, quiet) (inl e, sure) =
    (inl (e ∙ same), λ q. ((sure (quiet q)).0, move-Records x now c c₁ c' same (sure (quiet q)).1))
Calm-Wrote x now c c₁ c' (same, quiet) (inr w, sure) = (
  inr (move-Records x now c c₁ c' same w),
  λ q. ((sure (quiet q)).0, move-Records x now c c₁ c' same (sure (quiet q)).1),
)

-- The UPDATE fails, or writes the row.
update_result-cases :
    (y : CallbackDelivery) (now : ℕ) (c : Conn)
    → ((tick c).0 ≡ true) × (update_result y now c ≡ (err db_failure, (tick c).1))
      ⊎ (update_result y now c ≡ (
        ok tt,
        record (tick c).1 { db = with_callbacks c.db (update_result_rows y now c.db.callbacks) },
      ))
unfolding update_result exec
update_result-cases y now c = elim (Bool-cases (tick c).0) [
  | inl bad ↦ inl (bad, rw (bad) refl)
  | inr fine ↦ inr (rw (fine) refl)
]

fails_not : (c : Conn) → (tick c).0 ≡ true → c.faults ≡ [] → ⊥
fails_not c bad q = cc (bad, tick-fine c q)

record-Wrote :
    (x y : CallbackDelivery) (now : ℕ) (c : Conn)
    → is_scheduled now y ≡ true
    → y.id ≡ x.id
    → y.attempt_number ≡ x.attempt_number
    → (d : CallbackDelivery) × (c' : Conn) × (record_delivery_result y now c ≡ (ok d, c'))
      × Wrote x now c c'
unfolding record_delivery_result
record-Wrote x y now c paced own n =
    let ends : Ends now y = (paced, scheduled-conclusion y now paced) in
    elim (update_result-cases y now c) [
      | inr done ↦ (
        y,
        record (tick c).1 { db = with_callbacks c.db (update_result_rows y now c.db.callbacks) },
        rw (done) refl,
        (inr (y, ends, own, n, refl), λ q. (tick-quiet c q, (y, ends, own, n, refl))),
      )
      | inl (bad, lost) ↦
          let c₁ = (tick c).1 in
          let z = without_detail y in
          elim (update_result-cases z now c₁) [
            | inr done ↦ (
              z,
              record (tick c₁).1 {
                db = with_callbacks c.db (update_result_rows z now c.db.callbacks);
              },
              rw (lost, done) refl,
              (inr (z, ends, own, n, refl), λ q. absurd (fails_not c bad q)),
            )
            | inl (bad', lost') ↦
                (z, (tick c₁).1, rw (lost, lost') refl, (inl refl, λ q. absurd (fails_not c bad q)))
          ]
    ]

-- The call ended, and has written.
abbrev Delivered : CallbackDelivery → ℕ → Conn → Result Cache × Conn → Type 0
Delivered x now c r = (cache : Cache) × (c' : Conn) × (r ≡ (ok cache, c')) × Wrote x now c c'

may_retry : (n now : ℕ) → (not (is_some (next_retry n now)) || is_some (next_retry n now)) ≡ true
may_retry n now = ground arith

module _ (tr : Transport) (now : ℕ) (x : CallbackDelivery) where
  conclude-Delivered :
      (cache : Cache) (y : CallbackDelivery) (c : Conn)
      → is_scheduled now y ≡ true
      → y.id ≡ x.id
      → y.attempt_number ≡ x.attempt_number
      → Delivered x now c ((conclude now cache y >>= recovered now) c)
  conclude-Delivered cache y c ends own n =
      let (d, c', e, w) = record-Wrote x y now c ends own n in (cache, c', rw (e) refl, w)

  permanent-Delivered :
      (cache : Cache) (cause : List ℕ) (c : Conn)
      → Delivered x now c ((fail_callback_permanently tr now cache x cause >>= recovered now) c)
  permanent-Delivered cache cause c = conclude-Delivered cache _ c refl refl refl

  answered-Delivered :
      (cache : Cache) (code : ℕ) (body : List ℕ) (c : Conn)
      → Delivered x now c ((conclude now cache (answered_by now code body x) >>= recovered now) c)
  unfolding answered_by
  answered-Delivered cache code body c = elim (Bool-cases (is_success_code code)) [
    | inl good ↦
        conclude-Delivered cache (answered_by now code body x) c (rw (good) refl) (rw (good) refl)
          (rw (good) refl)
    | inr bad ↦
        conclude-Delivered cache (answered_by now code body x) c
          (rw (bad) (may_retry x.attempt_number now)) (rw (bad) refl) (rw (bad) refl)
  ]

  replied-Delivered :
      (cache : Cache) (reply : Reply) (c : Conn)
      → Delivered x now c ((replied tr now cache x reply >>= recovered now) c)
  replied-Delivered cache panics c =
      let (d, c', e, w) = record-Wrote x (failed_for_good panic_message x) now c refl refl refl in
      (cache, c', rw (e) refl, w)
  replied-Delivered cache (no_response true text) c =
      conclude-Delivered cache (unanswered now true text x) c refl refl refl
  replied-Delivered cache (no_response false text) c =
      conclude-Delivered cache (unanswered now false text x) c (may_retry x.attempt_number now) refl
        refl
  replied-Delivered cache (response code body) c = answered-Delivered cache code _ c

  Delivered-Calm :
      (c c₁ : Conn) (r : Result Cache × Conn)
      → Calm queue c c₁
      → Delivered x now c₁ r
      → Delivered x now c r
  Delivered-Calm c c₁ r calm (cache, c', e, w) = (cache, c', e, Calm-Wrote x now c c₁ c' calm w)

  signed-Delivered :
      (cache : Cache) (body : String) (r : Result (String × Cache)) (c : Conn)
      → Delivered x now c ((signed tr now cache x body r >>= recovered now) c)
  signed-Delivered cache body (err e) c = replied-Delivered cache _ c
  signed-Delivered cache body (ok (secret, cache')) c = replied-Delivered cache' _ c

  requested-Delivered :
      (cache : Cache) (body : String) (o : Option (List ℕ)) (c : Conn)
      → Delivered x now c ((requested tr now cache x body o >>= recovered now) c)
  requested-Delivered cache body (some cause) c = permanent-Delivered cache cause c
  requested-Delivered cache body none c =
      let secret = resolve_webhook_secret (tr.generate_secret x.merchant_id) x.merchant_id cache in
      Delivered-Calm c (secret c).1 _
        (secret-Calm (tr.generate_secret x.merchant_id) x.merchant_id cache c)
        (signed-Delivered cache body (secret c).0 (secret c).1)

  encoded-Delivered :
      (cache : Cache) (b : List ℕ ⊎ String) (c : Conn)
      → Delivered x now c ((encoded tr now cache x b >>= recovered now) c)
  encoded-Delivered cache (inl cause) c = permanent-Delivered cache cause c
  encoded-Delivered cache (inr body) c = requested-Delivered cache body _ c

  validated-Delivered :
      (cache : Cache) (o : Option (List ℕ)) (c : Conn)
      → Delivered x now c ((validated tr now cache x o >>= recovered now) c)
  validated-Delivered cache (some cause) c = permanent-Delivered cache cause c
  validated-Delivered cache none c = encoded-Delivered cache _ c

  by_environment-Delivered :
      (cache : Cache) (r : Result Bool) (c : Conn)
      → Delivered x now c ((by_environment tr now cache x r >>= recovered now) c)
  by_environment-Delivered cache (err e) c =
      conclude-Delivered cache (deferred now x) c (may_retry x.attempt_number now) refl refl
  by_environment-Delivered cache (ok allow) c = validated-Delivered cache _ c

  deliver_claimed-Delivered :
      (cache : Cache) (c : Conn) → Delivered x now c (deliver_claimed_callback tr now cache x c)
  unfolding deliver_claimed_callback execute_callback_delivery
  deliver_claimed-Delivered cache c =
      Delivered-Calm c (callback_allows_http x c).1 _ (callback_allows_http-Calm x c)
        (by_environment-Delivered cache (callback_allows_http x c).0 (callback_allows_http x c).1)

-- Whatever the merchant's server answers, a panic of the send included, and whichever statements
-- fail, the call ends well; the queue is as before, or it has a result of this delivery: finished,
-- and with a retry only if `nextRetryAt` gives one, below the fifth attempt.
pub deliver_claimed_callback-Records :
    (tr : Transport) (now : ℕ) (cache : Cache) (x : CallbackDelivery) (c : Conn)
    → (cache' : Cache) × (c' : Conn) × (deliver_claimed_callback tr now cache x c ≡ (ok cache', c'))
      × ((c'.db.callbacks ≡ c.db.callbacks) ⊎ Records x now c c')
deliver_claimed_callback-Records tr now cache x c =
    let (cache', c', e, w) = deliver_claimed-Delivered tr now x cache c in (cache', c', e, w.0)

-- If no statement fails, a result is recorded.
pub deliver_claimed-recorded :
    (tr : Transport) (now : ℕ) (cache : Cache) (x : CallbackDelivery) (c : Conn)
    → c.faults ≡ []
    → (cache' : Cache) × (c' : Conn) × (deliver_claimed_callback tr now cache x c ≡ (ok cache', c'))
      × (c'.faults ≡ [])
      × Records x now c c'
deliver_claimed-recorded tr now cache x c quiet =
    let (cache', c', e, w) = deliver_claimed-Delivered tr now x cache c in
    let (q, recorded) = w.1 quiet in (cache', c', e, q, recorded)
