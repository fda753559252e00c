-- ===== src/Tests/Services.antt =====
-- The theorems on idempotency keys, settlements and creation, at concrete data.
use pg_aggregator_back.Common.{
  ℕ, ◌+◌, ◌*◌, ◌≤◌, ◌<◌, true, false, none, some, List, [], ◌∷◌, ◌≡◌, refl, ◌↔◌, ◌⊎◌, ◌≤ℤ◌, inl,
  pos, ◌+ℤ◌, ◌-ℤ◌, int64, arith,
}
use pg_aggregator_back.Errors.{ok, err, provider_api_error}
use pg_aggregator_back.Fee.{quote_total_basis_points, provider_basis_points}
use pg_aggregator_back.Fee.Range.{ceil_div}
use pg_aggregator_back.Payment.{pending, paid, total_amount}
use pg_aggregator_back.Payment.Request.{validate, field_error, parse_environment, check_callback}
use pg_aggregator_back.Store.{Conn}
use pg_aggregator_back.Store.Action.{query}
use pg_aggregator_back.Idempotency.{Scope, Record, Attempt, claim}
use pg_aggregator_back.Idempotency.Exclusive.{
  Use, completes, purges, releases, use_all, claim-claim,
}
use pg_aggregator_back.Settlement.{
  NormalizedPaymentStatus, verify_provider_payment, merchant_net_for,
}
use pg_aggregator_back.Settlement.Exact.{
  Confirmed, verify_provider_payment_iff, merchant_net_for-quote, merchant_net_for-net,
}
use pg_aggregator_back.Creation.{
  ProviderPaymentResponse, Provider, Candidate, merchant_bears, customer_bears, Order, attempt,
  attempts, charge_for, priced, Service, Draws, chosen, charged_payment, create_payment,
  check_merchant_for_create,
}
use pg_aggregator_back.Creation.Failover.{Wins, attempts_iff}
use pg_aggregator_back.Creation.Priced.{total_amount-priced}
use pg_aggregator_back.Creation.Failed.{create_payment-err}
use pg_aggregator_back.PaymentLink.{
  CreatePaymentLinkRequest, open_amount, validate_link, effective_bounds,
}
use pg_aggregator_back.PaymentLink.Bounds.{effective_bounds-validate}
use pg_aggregator_back.Webhook.{ProviderWebhookPayload, WebhookProvider, Registry, process_webhook}
use pg_aggregator_back.Webhook.Confirmed.{Done, process_webhook-Settles}
use pg_aggregator_back.Tests.Shop.{created_order, plain, any_url, order, morning, asked_payment}

abbrev retried : Scope
retried = record { merchant_id = 1; environment = "sandbox"; key = 65 ∷ 66 ∷ [] }

abbrev first_try : Attempt
first_try = record { scope = retried; id = 11; request_hash = "h"; now = 1000 }

abbrev second_try : Attempt
second_try = record { scope = retried; id = 12; request_hash = "h"; now = 1060 }

abbrev between : List Use
between = completes 11 7 ∷ purges 900 ∷ releases 13 ∷ []

first_wins : (claim first_try []).0.1 ≡ true
unfolding claim
first_wins = refl

claim-claim_example :
    (r : Record) × ((claim second_try (use_all between (claim first_try []).1)).0 ≡ (some r, false))
    × (r.id ≡ 11)
claim-claim_example = claim-claim first_try second_try between [] first_wins refl refl refl

abbrev report : NormalizedPaymentStatus
report = record { status = paid; amount = some (pos 10000); paid_at = none }

verify_provider_payment_iff_example :
    (verify_provider_payment order (some report) (some (pos 9000)) ≡ none)
    ↔ Confirmed order (some report) (some (pos 9000))
verify_provider_payment_iff_example =
    verify_provider_payment_iff order (some report) (some (pos 9000))

merchant_net_for-quote_example :
    (g : ℕ) × (f : ℕ) × (quote_total_basis_points order.amount provider_basis_points
      ≡ ok (pos g, pos f))
    × (merchant_net_for (record order { fee_amount = pos f }) ≡ ok order.amount)
    × (total_amount (record order { fee_amount = pos f }) ≡ pos g)
    × (10000 + ceil_div (g * 70) 10000 ≤ g)
merchant_net_for-quote_example = merchant_net_for-quote order 10000 refl (omega arith) (omega arith)

merchant_net_for-net_example :
    (net : ℕ) × (f : ℕ) × (merchant_net_for order ≡ ok (pos net))
    × (net + f ≡ 10000)
    × (10000 * 70 ≤ f * 10000)
    × (f * 10000 < 10000 * 70 + 10000)
merchant_net_for-net_example =
    merchant_net_for-net order 10000 refl refl (omega arith) (omega arith)

-- The first provider is down; the second answers.
abbrev answer : ProviderPaymentResponse
answer = record {
  provider_reference = "C-7";
  provider_name = "cashi";
  status = pending;
  amount = pos 10071;
  qris_data = none;
  expires_at = none;
}

abbrev down : Provider
down = record { name = "down"; quote_total = none; create_payment = λ r. err provider_api_error }

abbrev up : Provider
up = record {
  name = "cashi";
  quote_total = some (λ n. ok (n +ℤ pos 71));
  create_payment = λ r. ok (some answer);
}

abbrev candidates : List Candidate
candidates =
    record { provider = down; failover_enabled = true }
    ∷ record { provider = up; failover_enabled = false }
    ∷ []

abbrev asking : Order
asking = record {
  bearer = merchant_bears;
  nominal = pos 10000;
  ask = λ p charge. record {
    internal_reference = "PAY-7";
    amount = charge;
    currency = "IDR";
    description = "order";
    customer_name = none;
    customer_email = none;
    expires_at = 1800;
    callback_url = p.name;
    use_custom_merchant_name = false;
  };
}

attempts_iff_example :
    (attempts asking candidates none ≡ ok (answer, pos 10000))
    ↔ Wins asking (answer, pos 10000) candidates
attempts_iff_example = attempts_iff asking (answer, pos 10000) candidates none

prices : priced customer_bears answer (pos 10071) order ≡ ok (record order { fee_amount = pos 71 })
unfolding priced int64 ◌-ℤ◌
prices = refl

total_amount-priced_example : total_amount (record order { fee_amount = pos 71 }) ≡ pos 10071
total_amount-priced_example =
    total_amount-priced customer_bears answer (pos 10071) order
      (record order { fee_amount = pos 71 }) refl (omega arith) (omega arith) (inl refl) prices

-- All providers of this service are down.
abbrev poor_service : Service
poor_service = record {
  sandbox_provider = none;
  resolve_providers = λ m method. ok (record { provider = down; failover_enabled = true } ∷ []);
  build_callback_url = λ name. name;
}

abbrev draws : Draws
draws = record { id = 7; reference = "PAY-7"; now = 0 }

abbrev after_creation : Conn
after_creation = (create_payment plain any_url poor_service draws asked_payment morning).1

fails_creation :
    create_payment plain any_url poor_service draws asked_payment morning
    ≡ (err provider_api_error, after_creation)
unfolding create_payment validate field_error parse_environment check_callback
    check_merchant_for_create charged_payment chosen attempts attempt charge_for query
fails_creation = refl

create_payment-err_example : after_creation.db ≡ morning.db
create_payment-err_example =
    create_payment-err plain any_url poor_service draws asked_payment morning after_creation
      provider_api_error fails_creation

-- The provider reports the order paid.
abbrev cashi : WebhookProvider
cashi = record {
  name = "cashi";
  validate_webhook = λ raw signature. true;
  parse_webhook = λ raw.
      ok (record { provider_reference = "C-7"; status = paid; paid_at = none; amount = none });
  get_payment_status = λ ref. ok (some report);
}

abbrev registry : Registry
registry = record { provider_by_name = λ name. ok cashi; equal_fold = λ a b. true }

abbrev after_webhook : Conn
after_webhook = (process_webhook registry 101 100 "cashi" "{}" "s" created_order).1

process_webhook-Settles_example :
    (after_webhook.db ≡ created_order.db)
    ⊎ ((pr : WebhookProvider) × (w : ProviderWebhookPayload) × (registry.provider_by_name "cashi"
          ≡ ok pr)
        × (pr.validate_webhook "{}" "s" ≡ true)
        × (pr.parse_webhook "{}" ≡ ok w)
        × Done registry 101 100 pr w created_order.db after_webhook.db)
process_webhook-Settles_example =
    process_webhook-Settles registry 101 100 "cashi" "{}" "s" created_order refl

abbrev asked_link : CreatePaymentLinkRequest
asked_link = record {
  merchant_id = 1;
  title = "tip jar";
  amount_type = open_amount;
  amount = none;
  currency = "";
  min_amount = some (pos 5000);
  max_amount = none;
  environment_text = "live";
}

valid_link : validate_link plain asked_link ≡ none
unfolding validate_link parse_environment
valid_link = refl

effective_bounds-validate_example :
    (pos 2000 ≤ℤ (effective_bounds (some (pos 5000)) none).0)
    × ((effective_bounds (some (pos 5000)) none).0 ≤ℤ (effective_bounds (some (pos 5000)) none).1)
    × ((effective_bounds (some (pos 5000)) none).1 ≤ℤ pos 10000000)
effective_bounds-validate_example = effective_bounds-validate plain asked_link valid_link
