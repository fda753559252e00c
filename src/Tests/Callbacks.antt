-- ===== src/Tests/Callbacks.antt =====
-- The queue of callbacks at concrete rows.
use pg_aggregator_back.Common.{
  ℕ, Bool, true, false, ◌+◌, ◌≤◌, none, some, List, [], ◌∷◌, ◌≡◌, refl, arith, ◌⊎◌, inl, inr, leb,
  length, take, elem, sum_by,
}
use pg_aggregator_back.Errors.{ok}
use pg_aggregator_back.Payment.{paid}
use pg_aggregator_back.Store.{Conn}
use pg_aggregator_back.Delivery.{
  CallbackDelivery, CallbackStatus, pending, sending, success, failed, payment_event, has_delivery,
  claim_due_rows, due_ids, update_result_rows, requeue_due_failed_rows, release_claimed_rows,
}
use pg_aggregator_back.Delivery.Queue.{
  QueueUse, inserts, records, claims, requeues, releases, use_rows, use_queue, all_leave_claim,
  results_left,
}
use pg_aggregator_back.Delivery.Exclusive.{claim_due-claim_due}
use pg_aggregator_back.Callback.Bounded.{all_paced, results-next_retry}
use pg_aggregator_back.Callback.Send.{next_retry}
use pg_aggregator_back.Callback.Text.{rune_start, byte, storable_text}
use pg_aggregator_back.Callback.Storable.{storable_text-Kept}
use pg_aggregator_back.Callback.Target.{payload_of}
use pg_aggregator_back.Callback.Secret.{Cache}
use pg_aggregator_back.Callback.Send.{Transport, Reply, panics, response, deliver_claimed_callback}
use pg_aggregator_back.Callback.Worker.{Pace, deliver_merchant_callbacks}
use pg_aggregator_back.Callback.Recorded.{Records, deliver_claimed_callback-Records}
use pg_aggregator_back.Callback.Finished.{is_finished, deliver_merchant_callbacks-finishes}
use pg_aggregator_back.Tests.Shop.{order, shop}

-- An attempt of the order's callback.
abbrev attempt : ℕ → ℕ → CallbackStatus → CallbackDelivery
attempt id n s = record {
  id = id;
  payment_id = 7;
  merchant_id = 1;
  event_type = payment_event paid;
  target_url = "https://shop.example/hook";
  request_payload = payload_of order (payment_event paid) false 900;
  attempt_number = n;
  status = s;
  http_status = none;
  response_body = none;
  error_message = none;
  delivered_at = none;
  next_retry_at = none;
  created_at = 900;
  updated_at = 900;
}

abbrev failed_at : ℕ → ℕ → ℕ → CallbackDelivery
failed_at id n t = record (attempt id n failed) { next_retry_at = some t }

abbrev rows : List CallbackDelivery
rows = attempt 1 1 pending ∷ attempt 2 3 sending ∷ failed_at 3 2 950 ∷ []

-- Between two claims: another worker claims, a retry is requeued, a result is written, and the
-- second delivery is released.
abbrev between : List QueueUse
between =
    claims 1030 50
    ∷ requeues (λ k. k + 100) 1040 50
    ∷ records (attempt 2 3 success) 1050
    ∷ releases (2 ∷ []) 1060
    ∷ []

claim_due-claim_due_example :
    has_delivery 1
      (claim_due_rows 1100 0 120 (use_queue between (claim_due_rows 1000 50 120 rows).1)).0
    ≡ false
unfolding claim_due_rows due_ids use_queue use_rows all_leave_claim update_result_rows
    requeue_due_failed_rows release_claimed_rows
claim_due-claim_due_example = claim_due-claim_due 1 1000 50 1100 0 between rows refl refl refl

-- Two rounds: claimed, failed, requeued and sent.
abbrev rounds : List QueueUse
rounds =
    inserts (attempt 5 1 pending)
    ∷ claims 1000 50
    ∷ records (failed_at 5 1 1300) 1010
    ∷ requeues (λ k. k + 1) 1300 50
    ∷ claims 1300 50
    ∷ records (attempt 6 2 success) 1310
    ∷ []

results-next_retry_example : 2 + sum_by results_left (use_queue rounds []) ≤ 5
unfolding claim_due_rows due_ids use_queue use_rows all_paced update_result_rows
    requeue_due_failed_rows next_retry
results-next_retry_example = results-next_retry rounds [] refl

storable_text-Kept_example :
    (length (storable_text (λ s. s) (65 ∷ 0 ∷ 195 ∷ 169 ∷ []) 2) ≤ 2)
    × (elem 0 (storable_text (λ s. s) (65 ∷ 0 ∷ 195 ∷ 169 ∷ []) 2) ≡ false)
    × (storable_text (λ s. s) (65 ∷ 0 ∷ 195 ∷ 169 ∷ []) 2
        ≡ take (length (storable_text (λ s. s) (65 ∷ 0 ∷ 195 ∷ 169 ∷ []) 2)) (65 ∷ 195 ∷ 169 ∷ []))
    × ((storable_text (λ s. s) (65 ∷ 0 ∷ 195 ∷ 169 ∷ []) 2 ≡ 65 ∷ 195 ∷ 169 ∷ [])
        ⊎ ((length (storable_text (λ s. s) (65 ∷ 0 ∷ 195 ∷ 169 ∷ []) 2) ≡ 0)
            ⊎ (rune_start (
                  byte
                    (65 ∷ 195 ∷ 169 ∷ [])
                    (length (storable_text (λ s. s) (65 ∷ 0 ∷ 195 ∷ 169 ∷ []) 2)))
                ≡ true)))
storable_text-Kept_example = storable_text-Kept (λ s. s) (65 ∷ 0 ∷ 195 ∷ 169 ∷ []) 2

-- A server that answers 500.
abbrev busy : Reply → Transport
busy reply = record {
  callback_validate = λ url allow_http. none;
  marshal = λ x. inr "{}";
  request_error = λ url body. none;
  generate_secret = λ m. some "secret";
  sign = λ secret body. secret;
  send = λ id request. reply;
  to_valid_utf8 = λ s. s;
}

abbrev steady : Pace
steady = record { cancelled = λ i. false; elapsed = λ i. 10; clock = λ i. 1000 + i }

abbrev books : List Bool → Conn
books faults = record {
  db = record {
    merchants = shop ∷ [];
    payments = order ∷ [];
    ledger = [];
    payouts = [];
    refunds = [];
    callbacks = rows;
    idempotency_keys = [];
  };
  faults = faults;
}

deliver_claimed_callback-Records_example :
    (cache' : Cache) × (c' : Conn) × (deliver_claimed_callback
        (busy panics)
        1000
        none
        (attempt 1 1 sending)
        (books (false ∷ false ∷ false ∷ true ∷ []))
      ≡ (ok cache', c'))
    × ((c'.db.callbacks ≡ rows)
        ⊎ Records (attempt 1 1 sending) 1000 (books (false ∷ false ∷ false ∷ true ∷ [])) c')
deliver_claimed_callback-Records_example =
    deliver_claimed_callback-Records (busy panics) 1000 none (attempt 1 1 sending)
      (books (false ∷ false ∷ false ∷ true ∷ []))

leb-le : {a b : ℕ} → leb a b ≡ true → a ≤ b
leb-le h = ground arith

deliver_merchant_callbacks-finishes_example :
    (c' : Conn) × (deliver_merchant_callbacks
        (busy (response 500 []))
        steady
        (λ k. k + 100)
        1000
        (books [])
      ≡ (ok tt, c'))
    × (is_finished 1 c'.db.callbacks ≡ true)
unfolding requeue_due_failed_rows
deliver_merchant_callbacks-finishes_example =
    deliver_merchant_callbacks-finishes (busy (response 500 [])) steady (λ k. k + 100) 1000
      (attempt 1 1 pending) (books []) refl (λ i. refl) (λ i. refl) refl (leb-le refl)
      (inr (inl refl)) refl
