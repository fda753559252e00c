-- ===== src/Payment/Response.antt =====
-- What the API returns of a payment (`ToPaymentResponse`, `ToPaymentStatusResponse` of
-- internal/domain/payment/payment.go).
use text.Mathlib.Text.{◌==◌ as str_eq}
use pg_aggregator_back.Common.{ℕ, String, Option, ℤ, if◌then◌else◌}
use pg_aggregator_back.Payment.{
  Status, Environment, production, other_environment, Payment, total_amount,
}

pub record PaymentResponse : Type 0 where
  pub id : ℕ
  pub reference : String
  pub merchant_id : ℕ
  pub amount : ℤ
  pub fee_amount : ℤ
  pub total_amount : ℤ
  pub currency : String
  pub payment_method : String
  pub provider_name : String
  pub provider_reference : Option String
  pub status : Status
  pub description : String
  pub customer_name : Option String
  pub customer_email : Option String
  pub qris_data : Option String
  pub checkout_url : String
  pub environment : Environment
  pub payment_link_id : Option ℕ
  pub expires_at : ℕ
  pub paid_at : Option ℕ
  pub created_at : ℕ
  pub updated_at : ℕ

-- An empty environment reads as production.
abbrev pub shown_environment : Environment → Environment
shown_environment (other_environment s) = if str_eq s "" then production else other_environment s
shown_environment e = e

-- `ToPaymentResponse`; `join` is the concatenation of three texts.
unfoldable pub to_payment_response :
    (String → String → String → String) → Payment → String → PaymentResponse
to_payment_response join p base_url = record {
  id = p.id;
  reference = p.reference;
  merchant_id = p.merchant_id;
  amount = p.amount;
  fee_amount = p.fee_amount;
  total_amount = total_amount p;
  currency = p.currency;
  payment_method = p.payment_method;
  provider_name = p.provider_name;
  provider_reference = p.provider_reference;
  status = p.status;
  description = p.description;
  customer_name = p.customer_name;
  customer_email = p.customer_email;
  qris_data = p.qris_data;
  checkout_url = join base_url "/pay/" p.reference;
  environment = shown_environment p.environment;
  payment_link_id = p.payment_link_id;
  expires_at = p.expires_at;
  paid_at = p.paid_at;
  created_at = p.created_at;
  updated_at = p.updated_at;
}

pub record PaymentStatusResponse : Type 0 where
  pub id : ℕ
  pub reference : String
  pub status : Status
  pub amount : ℤ
  pub fee_amount : ℤ
  pub total_amount : ℤ
  pub currency : String
  pub paid_at : Option ℕ
  pub expires_at : ℕ

-- `ToPaymentStatusResponse`
unfoldable pub to_payment_status_response : Payment → PaymentStatusResponse
to_payment_status_response p = record {
  id = p.id;
  reference = p.reference;
  status = p.status;
  amount = p.amount;
  fee_amount = p.fee_amount;
  total_amount = total_amount p;
  currency = p.currency;
  paid_at = p.paid_at;
  expires_at = p.expires_at;
}
