-- ===== src/Settlement.antt =====
-- What a settlement is checked against and what the merchant keeps of it
-- (internal/service/payment_verify.go and internal/service/payment_net.go).
pub mod Exact
use pg_aggregator_back.Common.{
  ℕ, Bool, true, false, not, Option, none, some, ℤ, pos, ltb_ℤ, eqb_ℤ, if◌then◌else◌,
}
use pg_aggregator_back.Errors.{
  Error, Result, ok, err, bind, not_settled_at_provider, amount_mismatch, webhook_amount_mismatch,
}
use pg_aggregator_back.Fee.{merchant_net_basis_points, provider_basis_points}
use pg_aggregator_back.Payment.{Status, paid, Payment, status_eq, total_amount}

-- What is read of a provider's status report.
pub record NormalizedPaymentStatus : Type 0 where
  pub status : Status
  pub amount : Option ℤ
  pub paid_at : Option ℕ

abbrev pub differs : ℤ → Option ℤ → Bool
differs expected none = false
differs expected (some a) = not (eqb_ℤ a expected)

abbrev pub unconfirmed : ℤ → Option ℤ → Bool
unconfirmed expected none = true
unconfirmed expected (some a) = not (eqb_ℤ a expected)

-- `verifyProviderPayment`: the error, if any.
unfoldable pub verify_provider_payment :
    Payment → Option NormalizedPaymentStatus → Option ℤ → Option Error
verify_provider_payment p none webhook_amount = some not_settled_at_provider
verify_provider_payment p (some s) webhook_amount =
    if not (status_eq s.status paid)
    then some not_settled_at_provider
    else if unconfirmed (total_amount p) s.amount
    then some amount_mismatch
    else if differs (total_amount p) webhook_amount
    then some webhook_amount_mismatch
    else none

-- `merchantNetFor`
unfoldable pub merchant_net_for : Payment → Result ℤ
merchant_net_for p =
    if ltb_ℤ (pos 0) p.fee_amount
    then ok p.amount
    else bind (merchant_net_basis_points p.amount provider_basis_points) λ r. ok r.0
