-- ===== src/Tests/Routes.antt =====
-- A router with the sandbox, an unhealthy provider and one that serves.
use pg_aggregator_back.Common.{String, false, true, none, some, List, [], ◌∷◌, pos}
use pg_aggregator_back.Errors.{ok}
use pg_aggregator_back.Payment.{pending}
use pg_aggregator_back.Creation.{
  ProviderPaymentResponse, Provider, Candidate, merchant_bears, Order,
}
use pg_aggregator_back.Creation.Router.{
  ProviderRouter, unhealthy, new_router, register_provider, register_payment_method_provider,
  set_provider_health,
}
use pg_aggregator_back.Tests.Shop.{plain}

abbrev response : ProviderPaymentResponse
response = record {
  provider_reference = "C-7";
  provider_name = "cashi";
  status = pending;
  amount = pos 10000;
  qris_data = none;
  expires_at = none;
}

abbrev named : String → Provider
named s = record { name = s; quote_total = none; create_payment = λ r. ok (some response) }

abbrev mock : Provider
mock = named "sandbox"

abbrev ill : Provider
ill = named "ill"

abbrev cashi : Provider
cashi = named "cashi"

abbrev registered : ProviderRouter
registered =
    register_provider plain cashi 0
      (register_provider plain ill 0 (register_provider plain mock 0 new_router))

abbrev router : ProviderRouter
router = set_provider_health plain "ill" unhealthy "timeouts" 9 (
    register_payment_method_provider plain "qris" "cashi" (
      register_payment_method_provider plain "qris" "ill"
        (register_payment_method_provider plain "qris" "sandbox" registered)))

abbrev routed : List Candidate
routed = record { provider = cashi; failover_enabled = true } ∷ []

abbrev order_of : Order
order_of = record {
  bearer = merchant_bears;
  nominal = pos 10000;
  ask = λ p charge. record {
    internal_reference = "PAY-7";
    amount = charge;
    currency = "IDR";
    description = "order";
    customer_name = none;
    customer_email = none;
    expires_at = 1800;
    callback_url = p.name;
    use_custom_merchant_name = false;
  };
}
