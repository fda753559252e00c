-- ===== src/Payment/Request.antt =====
-- Validation of a payment request: `CreatePaymentRequest.Validate`, `ParseEnvironment` and
-- `NormalizeEnvironment` (internal/domain/payment/payment.go).
pub mod Validated
use text.Mathlib.Text.{◌==◌ as str_eq}
use pg_aggregator_back.Common.{
  ℕ, String, Bool, true, false, ◌||◌, not, Option, none, some, ℤ, pos, ltb_ℤ, leb_ℤ, ◌==◌,
  if◌then◌else◌,
}
use pg_aggregator_back.Errors.{
  Error, Result, ok, err, bind, invalid_amount, unsupported_currency, payment_method_required,
  unsupported_payment_method, merchant_id_required, description_required, invalid_expiration,
  invalid_environment,
}
use pg_aggregator_back.Fee.{max_nominal}
use pg_aggregator_back.Payment.{Environment, sandbox, production, other_environment, is_sandbox}

-- The functions of Go's packages strings and unicode/utf8 that the code calls.
pub record Strings : Type 0 where
  pub trim_space : String → String
  pub to_lower : String → String
  pub rune_count : String → ℕ

-- `NormalizeEnvironment`: a filter's text; anything unknown, and no text, is production.
unfoldable pub normalize_environment : String → Environment
normalize_environment raw =
    if str_eq raw "sandbox" || str_eq raw "test" || str_eq raw "dev" || str_eq raw "development"
    then sandbox
    else if str_eq raw "production" || str_eq raw "prod" || str_eq raw "live" || str_eq raw ""
    then production
    else if str_eq raw "sandbox"
    then sandbox
    else production

abbrev pub parse_lowered : String → Result Environment
parse_lowered s =
    if str_eq s ""
      || str_eq s "sandbox"
      || str_eq s "test"
      || str_eq s "dev"
      || str_eq s "development"
    then ok sandbox
    else if str_eq s "production" || str_eq s "prod" || str_eq s "live"
    then ok production
    else err invalid_environment

-- `ParseEnvironment`: for anything that is created; no text is sandbox, unknown text is refused.
unfoldable pub parse_environment : Strings → String → Result Environment
parse_environment go raw = parse_lowered (go.to_lower (go.trim_space raw))

pub record CreatePaymentRequest : Type 0 where
  pub merchant_id : ℕ
  pub amount : ℤ
  pub currency : String
  pub payment_method : String
  pub description : String
  pub customer_name : Option String
  pub customer_email : Option String
  pub callback_url : Option String
  pub expires_in_minutes : ℤ
  pub environment_text : String
  pub use_custom_merchant_name : Bool
  pub payment_link_id : Option ℕ

-- A request that has passed: what `Validate` filled in, and the environment that it resolved.
pub record ValidRequest : Type 0 where
  pub request : CreatePaymentRequest
  pub environment : Environment

-- `EnvironmentSandbox`, `EnvironmentProduction`
abbrev pub environment_name : Environment → String
environment_name sandbox = "sandbox"
environment_name production = "production"
environment_name (other_environment s) = s

-- `uuid.Nil`
abbrev pub nil_uuid : ℕ
nil_uuid = 0

abbrev pub default_currency : String → String
default_currency c = if str_eq c "" then "IDR" else c

abbrev pub default_expiry : ℤ → ℤ
default_expiry m = if leb_ℤ m (pos 0) then pos 30 else m

-- The callback part: `validate_url` is netsafe.ValidateCallbackURL, with its `allowHTTP` flag.
unfoldable pub check_callback :
    Strings → (String → Bool → Option Error) → Environment → Option String → Result (Option String)
check_callback go validate_url env none = ok none
check_callback go validate_url env (some url) =
    let trimmed = go.trim_space url in
    if str_eq trimmed ""
    then ok none
    else elim (validate_url trimmed (is_sandbox env)) [ none ↦ ok (some trimmed) | some e ↦ err e ]

-- The tests on the plain fields, in the order of `Validate`.
unfoldable pub field_error : CreatePaymentRequest → Option Error
field_error r =
    if leb_ℤ r.amount (pos 0) || ltb_ℤ max_nominal r.amount
    then some invalid_amount
    else if not (str_eq (default_currency r.currency) "IDR")
    then some unsupported_currency
    else if str_eq r.payment_method ""
    then some payment_method_required
    else if not (str_eq r.payment_method "qris")
    then some unsupported_payment_method
    else if r.merchant_id == nil_uuid
    then some merchant_id_required
    else if str_eq r.description ""
    then some description_required
    else if ltb_ℤ (pos 1440) (default_expiry r.expires_in_minutes)
    then some invalid_expiration
    else none

-- The request as `Validate` leaves it.
abbrev pub filled : CreatePaymentRequest → Environment → Option String → ValidRequest
filled r env url = record {
  request = record r {
    currency = default_currency r.currency;
    expires_in_minutes = default_expiry r.expires_in_minutes;
    environment_text = environment_name env;
    callback_url = url;
  };
  environment = env;
}

-- `Validate`, with the request as it stands afterwards.
unfoldable pub validate :
    Strings → (String → Bool → Option Error) → CreatePaymentRequest → Result ValidRequest
validate go validate_url r = elim (field_error r) [
  | some e ↦ err e
  | none ↦
      bind (parse_environment go r.environment_text)
        λ env. bind (check_callback go validate_url env r.callback_url) λ url. ok (filled r env url)
]
