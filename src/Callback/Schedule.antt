-- ===== src/Callback/Schedule.antt =====
-- The results that `nextRetryAt` allows.
use pg_aggregator_back.Common.{
  ℕ, Bool, true, not, ◌&&◌, ◌||◌, ◌≡◌, arith, is_some, ltb, if◌then◌else◌,
}
use pg_aggregator_back.Delivery.{
  CallbackDelivery, CallbackStatus, is_waiting, is_sending, is_failed,
}
use pg_aggregator_back.Delivery.Queue.{is_conclusion}
use pg_aggregator_back.Callback.Send.{next_retry}

-- A finished delivery that has a retry only if it failed and `nextRetryAt` gives one.
abbrev pub is_scheduled : ℕ → CallbackDelivery → Bool
is_scheduled now x =
    not (is_waiting x.status || is_sending x.status)
    && (not (is_some x.next_retry_at)
        || is_failed x.status && is_some (next_retry x.attempt_number now))

-- `nextRetryAt` gives no retry from the fifth attempt on.
conclusion_of :
    (s : CallbackStatus) (b : Bool) (n now : ℕ)
    → (not (is_waiting s || is_sending s) && (not b || is_failed s && is_some (next_retry n now)))
      ≡ true
    → (if is_failed s then not b || ltb n 5 else not (is_waiting s || is_sending s || b)) ≡ true
unfolding next_retry
conclusion_of s b n now h = ground arith

pub scheduled-conclusion :
    (x : CallbackDelivery) (now : ℕ) → is_scheduled now x ≡ true → is_conclusion x ≡ true
scheduled-conclusion x now h =
    conclusion_of x.status (is_some x.next_retry_at) x.attempt_number now h
