-- ===== src/Callback/Calm.antt =====
-- The actions of a delivery that leave the queue alone.
use pg_aggregator_back.Common.{ℕ, String, List, ap, sym, Option, none, some, Bool-cases, inl, inr}
use pg_aggregator_back.Errors.{Result, ok, err}
use pg_aggregator_back.Payment.{Payment}
use pg_aggregator_back.Store.{Db}
use pg_aggregator_back.Store.Action.{pure, caught}
use pg_aggregator_back.Store.Calm.{Calms, still_Calm, query-Calm, exec-Calm, >>=-Calm}
use pg_aggregator_back.Delivery.{CallbackDelivery}
use pg_aggregator_back.Repository.Payments.{get_by_id}
use pg_aggregator_back.Repository.Merchants.{get_merchant, set_webhook_secret}
use pg_aggregator_back.Callback.Secret.{
  Cache, cached, secret_from, secret_or_new, regenerate_merchant_webhook_secret,
  ensure_merchant_webhook_secret, resolve_webhook_secret,
}
use pg_aggregator_back.Callback.Target.{is_payment_not_found}
use text.Mathlib.Text.{◌==◌ as str_eq}
use pg_aggregator_back.Callback.Send.{callback_allows_http, sandbox_only}

abbrev pub queue : Db → List CallbackDelivery
queue d = d.callbacks

get_by_id-Calm : (id : ℕ) → Calms queue (get_by_id id)
unfolding get_by_id
get_by_id-Calm id c = query-Calm queue _ c

get_merchant-Calm : (id : ℕ) → Calms queue (get_merchant id)
unfolding get_merchant
get_merchant-Calm id c = query-Calm queue _ c

abbrev kept_queue : Db → Result (Unit {0} × Db) → List CallbackDelivery
kept_queue d (ok (u, d')) = d'.callbacks
kept_queue d (err e) = d.callbacks

set_webhook_secret-Calm : (id : ℕ) (secret : String) → Calms queue (set_webhook_secret id secret)
unfolding set_webhook_secret
set_webhook_secret-Calm id secret = exec-Calm queue _ (λ d d' u h. ap (λ r. kept_queue d r) (sym h))

sandbox_only-Calm : (r : Result Payment) → Calms queue (sandbox_only r)
sandbox_only-Calm (ok p) c = still_Calm queue c
sandbox_only-Calm (err e) c = elim (Bool-cases (is_payment_not_found e)) [
  | inl t ↦ rw (t) (still_Calm queue c)
  | inr f ↦ rw (f) (still_Calm queue c)
]

pub callback_allows_http-Calm : (x : CallbackDelivery) → Calms queue (callback_allows_http x)
unfolding callback_allows_http
callback_allows_http-Calm x =
    >>=-Calm queue (caught (get_by_id x.payment_id)) sandbox_only (get_by_id-Calm x.payment_id)
      sandbox_only-Calm

regenerate-Calm :
    (drawn : Option String) (id : ℕ) → Calms queue (regenerate_merchant_webhook_secret drawn id)
unfolding regenerate_merchant_webhook_secret
regenerate-Calm none id = still_Calm queue
regenerate-Calm (some secret) id =
    >>=-Calm queue (set_webhook_secret id secret) (λ _. pure secret)
      (set_webhook_secret-Calm id secret) (λ u c. still_Calm queue c)

secret_or_new-Calm :
    (drawn : Option String) (id : ℕ) (o : Option String) → Calms queue (secret_or_new drawn id o)
secret_or_new-Calm drawn id none c = regenerate-Calm drawn id c
secret_or_new-Calm drawn id (some secret) c = elim (Bool-cases (str_eq secret "")) [
  | inl t ↦ rw (t) (regenerate-Calm drawn id c)
  | inr f ↦ rw (f) (still_Calm queue c)
]

secret_from-Calm :
    (drawn : Option String) (id : ℕ) (cache : Cache) (o : Option String)
    → Calms queue (secret_from drawn id cache o)
unfolding ensure_merchant_webhook_secret
secret_from-Calm drawn id cache (some secret) = still_Calm queue
secret_from-Calm drawn id cache none =
    >>=-Calm queue (ensure_merchant_webhook_secret drawn id) _
      (>>=-Calm queue (get_merchant id) _ (get_merchant-Calm id)
        (λ m. secret_or_new-Calm drawn id m.webhook_secret))
      (λ s c. still_Calm queue c)

pub secret-Calm :
    (drawn : Option String) (id : ℕ) (cache : Cache)
    → Calms queue (resolve_webhook_secret drawn id cache)
unfolding resolve_webhook_secret
secret-Calm drawn id cache = secret_from-Calm drawn id cache (cached id cache)
