-- ===== src/Callback/Notified.antt =====
-- A notification changes nothing but the queue.
use text.Mathlib.Text.{◌==◌ as str_eq}
use pg_aggregator_back.Common.{ℕ, String, Bool, [], ◌≡◌, arith, Bool-cases, inl, inr}
use pg_aggregator_back.Errors.{Result, ok, err}
use pg_aggregator_back.Payment.{Payment}
use pg_aggregator_back.Payment.Request.{Strings}
use pg_aggregator_back.Delivery.{CallbackDelivery, EventName}
use pg_aggregator_back.Store.{Db}
use pg_aggregator_back.Store.Action.{pure, ◌>>◌, caught}
use pg_aggregator_back.Store.Calm.{Calms, still_Calm, query-Calm, exec-Calm, >>=-Calm}
use pg_aggregator_back.Repository.Merchants.{get_merchant}
use pg_aggregator_back.Repository.Callbacks.{insert_delivery, create_delivery}
use pg_aggregator_back.Callback.Target.{
  trimmed_or_empty, resolve_callback_target, first_delivery, queue_at,
  notify_merchant_payment_event,
}

-- The tables but for the queue.
abbrev pub besides_queue : Db → Db
besides_queue d = record d { callbacks = [] }

get_merchant-Calm : (id : ℕ) → Calms besides_queue (get_merchant id)
unfolding get_merchant
get_merchant-Calm id c = query-Calm besides_queue _ c

target-Calm : (go : Strings) (p : Payment) → Calms besides_queue (resolve_callback_target go p)
unfolding resolve_callback_target
target-Calm go p c = elim (Bool-cases (str_eq (trimmed_or_empty go p.callback_url) "")) [
  | inl blank ↦ rw (blank) (
      >>=-Calm besides_queue (get_merchant p.merchant_id) _ (get_merchant-Calm p.merchant_id)
        (λ m c₁. still_Calm besides_queue c₁) c)
  | inr own ↦ rw (own) (still_Calm besides_queue c)
]

insert_delivery-kept :
    (x : CallbackDelivery) (now : ℕ) (d d' : Db) (u : Unit {0})
    → insert_delivery x now d ≡ ok (u, d')
    → besides_queue d' ≡ besides_queue d
unfolding insert_delivery
insert_delivery-kept x now d d' u h = ground arith

create_delivery-Calm :
    (x : CallbackDelivery) (now : ℕ) → Calms besides_queue (create_delivery x now)
unfolding create_delivery
create_delivery-Calm x now =
    exec-Calm besides_queue (insert_delivery x now)
      (λ d d' u h. insert_delivery-kept x now d d' u h)

queue_at-Calm :
    (p : Payment) (event : EventName) (late : Bool) (id now : ℕ) (r : Result String)
    → Calms besides_queue (queue_at p event late id now r)
queue_at-Calm p event late id now (err e) = still_Calm besides_queue
queue_at-Calm p event late id now (ok url) = queued
  where
    queued : Calms besides_queue (queue_at p event late id now (ok url))
    queued c = elim (Bool-cases (str_eq url "")) [
      | inl blank ↦ rw (blank) (still_Calm besides_queue c)
      | inr given ↦ rw (given) (create_delivery-Calm (first_delivery p event late id now url) now c)
    ]

pub notify-Calm :
    (go : Strings) (id now : ℕ) (p : Payment) (event : EventName) (late : Bool)
    → Calms besides_queue (notify_merchant_payment_event go id now p event late)
unfolding notify_merchant_payment_event
notify-Calm go id now p event late =
    >>=-Calm besides_queue (caught (resolve_callback_target go p)) (queue_at p event late id now)
      (target-Calm go p) (queue_at-Calm p event late id now)

pub notify-pure-Calm :
    {A : Type 0} (go : Strings) (id now : ℕ) (p : Payment) (event : EventName) (late : Bool) (a : A)
    → Calms besides_queue (notify_merchant_payment_event go id now p event late >> pure a)
notify-pure-Calm go id now p event late a =
    >>=-Calm besides_queue (notify_merchant_payment_event go id now p event late) (λ _. pure a)
      (notify-Calm go id now p event late) (λ u c. still_Calm besides_queue c)
