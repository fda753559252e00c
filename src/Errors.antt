-- ===== src/Errors.antt =====
-- Go's `error` results: the sentinel errors of the packages that are modelled, as one type, and
-- the result of a function that returns `(T, error)`.
-- (internal/domain/payment/errors.go, internal/domain/ledger/errors.go, internal/fee/fee.go,
-- internal/domain/merchant/errors.go, internal/domain/idempotency/idempotency.go, internal/provider/errors.go.) An error that is wrapped by
-- `fmt.Errorf("...: %w", err)` is the error itself, since callers only ask `errors.Is`.

-- What the database reports besides a driver failure.
pub data Violation : Type 0 where
  foreign_key check unique open_payout : Violation

pub data Error : Type 0 where
  -- internal/fee
  invalid_nominal invalid_rate : Error
  -- database/sql: no row, a failed statement, a violated constraint
  no_rows db_failure : Error
  violation : Violation → Error
  -- internal/domain/payment
  payment_not_found invalid_amount unsupported_currency payment_method_required : Error
  unsupported_payment_method merchant_id_required description_required : Error
  invalid_expiration invalid_status_transition payment_already_terminal provider_error : Error
  webhook_validation_failed duplicate_webhook invalid_provider_reference : Error
  invalid_environment provider_mismatch amount_mismatch webhook_amount_mismatch : Error
  not_settled_at_provider provider_verification_failed webhook_ignored : Error
  -- internal/domain/ledger
  insufficient_balance below_minimum_payout payout_account_missing open_payout_exists : Error
  payout_not_found payout_already_processed refund_exceeds_net payment_not_refundable : Error
  invalid_adjustment reason_required ledger_invalid_amount text_too_long : Error
  -- internal/domain/merchant
  merchant_not_found merchant_inactive : Error
  -- internal/provider
  provider_not_available fee_not_supported test_webhook_event provider_api_error : Error
  -- internal/domain/idempotency
  invalid_key key_reused claim_in_progress claim_lost : Error
  -- any other error value, such as one of a call over the network
  other_error : Error

pub data Result {ℓ} (A : Type ℓ) : Type ℓ where
  ok : A → Result A
  err : Error → Result A

abbrev pub bind {ℓ κ} : {A : Type ℓ} {B : Type κ} → Result A → (A → Result B) → Result B
bind (ok a) f = f a
bind (err e) f = err e
