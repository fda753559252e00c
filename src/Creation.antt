-- ===== src/Creation.antt =====
-- Creation of a payment with a provider, and the failover between providers
-- (internal/service/payment_service.go). The candidates, in their order, and the providers' answers
-- are parameters: the providers are remote services.
pub mod Failover
pub mod Priced
pub mod Failed
pub mod Idempotent
pub mod Keys
pub mod Stored
pub mod Replayed
pub mod Router
pub mod Routed
use text.Mathlib.Text.{◌==◌ as str_eq}
use pg_aggregator_back.Common.{
  ℕ, String, Bool, true, false, not, ◌+◌, ◌*◌, Option, none, some, List, [], ◌∷◌, ℤ, pos, pos_part,
  ◌-ℤ◌, int64, ltb_ℤ, leb_ℤ, if◌then◌else◌,
}
use pg_aggregator_back.Errors.{
  Error, Result, ok, err, bind, merchant_inactive, merchant_not_found, fee_not_supported,
  provider_not_available, provider_api_error, provider_error, other_error,
}
use pg_aggregator_back.Payment.{Status, pending, Environment, is_sandbox, Payment}
use pg_aggregator_back.Payment.Request.{Strings, CreatePaymentRequest, ValidRequest, validate}
use pg_aggregator_back.Store.{Db, Merchant}
use pg_aggregator_back.Store.Table.{find}
use pg_aggregator_back.Store.Action.{Sql, pure, ◌>>=◌, ◌>>◌, query}
use pg_aggregator_back.Repository.Payments.{create}

pub record ProviderPaymentRequest : Type 0 where
  pub internal_reference : String
  pub amount : ℤ
  pub currency : String
  pub description : String
  pub customer_name : Option String
  pub customer_email : Option String
  pub expires_at : ℕ
  pub callback_url : String
  pub use_custom_merchant_name : Bool

pub record ProviderPaymentResponse : Type 0 where
  pub provider_reference : String
  pub provider_name : String
  pub status : Status
  pub amount : ℤ
  pub qris_data : Option String
  pub expires_at : Option ℕ

-- A provider: its name, its quote of a total if it has one (FeeQuoter), and its CreatePayment,
-- where `ok none` is a nil response without an error.
pub record Provider : Type 0 where
  pub name : String
  pub quote_total : Option (ℤ → Result ℤ)
  pub create_payment : ProviderPaymentRequest → Result (Option ProviderPaymentResponse)

pub record Candidate : Type 0 where
  pub provider : Provider
  pub failover_enabled : Bool

pub data FeeBearer : Type 0 where
  merchant_bears customer_bears : FeeBearer

abbrev pub bearer_of : String → FeeBearer
bearer_of s = if str_eq s "customer" then customer_bears else merchant_bears

abbrev pub checked_merchant : Option Merchant → Result FeeBearer
checked_merchant none = ok merchant_bears
checked_merchant (some m) =
    if not m.is_active then err merchant_inactive else ok (bearer_of m.fee_bearer)

-- `checkMerchantForCreate`; an unknown merchant is left to the foreign key.
unfoldable pub check_merchant_for_create : ℕ → Sql FeeBearer
check_merchant_for_create id =
    query (λ d. checked_merchant (find (λ (m : Merchant). m.id) id d.merchants))

abbrev pub quoted : Option (ℤ → Result ℤ) → ℤ → Result ℤ
quoted none nominal = err fee_not_supported
quoted (some q) nominal = q nominal

-- `chargeFor`
unfoldable pub charge_for : Provider → FeeBearer → ℤ → Result ℤ
charge_for p merchant_bears nominal = ok nominal
charge_for p customer_bears nominal = quoted p.quote_total nominal

-- What the attempts share: the request to a provider, but for the amount and the callback.
pub record Order : Type 0 where
  pub bearer : FeeBearer
  pub nominal : ℤ
  pub ask : Provider → ℤ → ProviderPaymentRequest

abbrev pub answered : ℤ → Option ProviderPaymentResponse → Result (ProviderPaymentResponse × ℤ)
answered charge none = err provider_api_error
answered charge (some r) = ok (r, charge)

-- One attempt: the response and what the provider was asked to charge.
unfoldable pub attempt : Order → Provider → Result (ProviderPaymentResponse × ℤ)
attempt o p =
    bind (charge_for p o.bearer o.nominal)
      λ charge. bind (p.create_payment (o.ask p charge)) λ r. answered charge r

abbrev pub last_error : Option Error → Error
last_error none = provider_not_available
last_error (some e) = e

abbrev pub go_on :
    Bool
    → Result (ProviderPaymentResponse × ℤ)
    → (Error → Result (ProviderPaymentResponse × ℤ))
    → Result (ProviderPaymentResponse × ℤ)
go_on failover (ok r) next = ok r
go_on failover (err e) next = if failover then next e else err e

-- The candidates in order: after a failure the next one is tried only if failover is enabled.
unfoldable pub attempts :
    Order → List Candidate → Option Error → Result (ProviderPaymentResponse × ℤ)
attempts o [] last = err (last_error last)
attempts o (c ∷ cs) last =
    go_on c.failover_enabled (attempt o c.provider) (λ e. attempts o cs (some e))

-- What the provider charged: the reported amount, or the requested one.
abbrev pub charged_amount : ProviderPaymentResponse → ℤ → ℤ
charged_amount r requested = if leb_ℤ r.amount (pos 0) then requested else r.amount

-- The price of the payment, from the response.
unfoldable pub priced : FeeBearer → ProviderPaymentResponse → ℤ → Payment → Result Payment
priced customer_bears r requested p =
    if ltb_ℤ (charged_amount r requested) p.amount
    then err provider_error
    else ok (record p { fee_amount = int64 (charged_amount r requested -ℤ p.amount) })
priced merchant_bears r requested p =
    ok (if ltb_ℤ (pos 0) r.amount then record p { amount = r.amount } else p)

abbrev pub expiry : Option ℕ → ℕ → ℕ
expiry none t = t
expiry (some u) t = u

abbrev pub from_response : ProviderPaymentResponse → Payment → Payment
from_response r p = record p {
  provider_name = r.provider_name;
  provider_reference = some r.provider_reference;
  qris_data = r.qris_data;
  status = r.status;
  expires_at = expiry r.expires_at p.expires_at;
}

-- What the code draws: the id, the reference and the clock.
pub record Draws : Type 0 where
  pub id : ℕ
  pub reference : String
  pub now : ℕ

abbrev pub minutes : ℤ → ℕ
minutes m = 60 * pos_part m

-- The payment before a provider is asked; its zero fields are Go's zero values.
abbrev pub new_payment : Draws → ValidRequest → Payment
new_payment k v = record {
  id = k.id;
  reference = k.reference;
  merchant_id = v.request.merchant_id;
  amount = v.request.amount;
  fee_amount = pos 0;
  merchant_net_amount = pos 0;
  currency = v.request.currency;
  payment_method = v.request.payment_method;
  provider_name = "";
  provider_reference = none;
  status = pending;
  description = v.request.description;
  customer_name = v.request.customer_name;
  customer_email = v.request.customer_email;
  qris_data = none;
  callback_url = v.request.callback_url;
  environment = v.environment;
  payment_link_id = v.request.payment_link_id;
  expires_at = k.now + minutes v.request.expires_in_minutes;
  paid_at = none;
  created_at = k.now;
  updated_at = k.now;
}

-- The environment of the service: the sandbox provider, the candidates that
-- `resolveProvidersForMerchant` finds, and `buildCallbackURL`.
pub record Service : Type 0 where
  pub sandbox_provider : Option Provider
  pub resolve_providers : ℕ → String → Result (List Candidate)
  pub build_callback_url : String → String

abbrev pub order_of : Service → Draws → ValidRequest → FeeBearer → Order
order_of s k v b = record {
  bearer = b;
  nominal = v.request.amount;
  ask = λ p charge. record {
    internal_reference = k.reference;
    amount = charge;
    currency = v.request.currency;
    description = v.request.description;
    customer_name = v.request.customer_name;
    customer_email = v.request.customer_email;
    expires_at = k.now + minutes v.request.expires_in_minutes;
    callback_url = s.build_callback_url p.name;
    use_custom_merchant_name = v.request.use_custom_merchant_name;
  };
}

abbrev pub attempt_sandbox : Order → Option Provider → Result (ProviderPaymentResponse × ℤ)
attempt_sandbox o none = err other_error
attempt_sandbox o (some p) = attempt o p

-- The sandbox never calls a real provider, and has no failover. (A nil response without an error
-- of the sandbox provider, which ends the Go program's request in a panic, is an error here.)
unfoldable pub chosen : Service → Order → ValidRequest → Result (ProviderPaymentResponse × ℤ)
chosen s o v =
    if is_sandbox v.environment
    then attempt_sandbox o s.sandbox_provider
    else bind (s.resolve_providers v.request.merchant_id v.request.payment_method)
        λ cs. attempts o cs none

abbrev pub lift : {A : Type 0} → Result A → Sql A
lift r c = (r, c)

-- The payment that is stored, from the provider's answer.
unfoldable pub charged_payment : Service → Draws → ValidRequest → FeeBearer → Result Payment
charged_payment s k v b =
    bind (chosen s (order_of s k v b) v) λ r. priced b r.0 r.1 (from_response r.0 (new_payment k v))

-- `CreatePayment`
unfoldable pub create_payment :
    Strings → (String → Bool → Option Error) → Service → Draws → CreatePaymentRequest → Sql Payment
create_payment go validate_url s k req = do
  v ← lift (validate go validate_url req)
  b ← check_merchant_for_create v.request.merchant_id
  p ← lift (charged_payment s k v b)
  create p
  pure p
