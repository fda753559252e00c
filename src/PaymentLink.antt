-- ===== src/PaymentLink.antt =====
-- Payment links (internal/domain/paymentlink/paymentlink.go): availability, the bounds of an open
-- amount, and the validation of a new link.
pub mod Bounds
use text.Mathlib.Text.{◌==◌ as str_eq}
use pg_aggregator_back.Common.{
  ℕ, String, Bool, true, false, not, ◌&&◌, ◌||◌, Option, none, some, ℤ, pos, ltb_ℤ, leb_ℤ, ltb,
  ◌==◌, is_some, if◌then◌else◌,
}
use pg_aggregator_back.Errors.{Result, ok, err}
use pg_aggregator_back.Payment.{Environment}
use pg_aggregator_back.Payment.Request.{Strings, parse_environment, nil_uuid, default_currency}

abbrev pub platform_min_amount : ℤ
platform_min_amount = pos 2000

abbrev pub platform_max_amount : ℤ
platform_max_amount = pos 10000000

pub data AmountType : Type 0 where
  fixed open_amount : AmountType
  other_amount_type : String → AmountType

-- The fields of a link that the rules read.
pub record PaymentLink : Type 0 where
  pub amount_type : AmountType
  pub amount : Option ℤ
  pub min_amount : Option ℤ
  pub max_amount : Option ℤ
  pub is_active : Bool
  pub expires_at : Option ℕ

pub data Availability : Type 0 where
  available inactive expired : Availability

abbrev pub past : ℕ → Option ℕ → Bool
past now none = false
past now (some t) = ltb t now

-- `IsAvailable`
unfoldable pub is_available : PaymentLink → ℕ → Availability
is_available l now =
    if not l.is_active then inactive else if past now l.expires_at then expired else available

abbrev pub raised : ℤ → Option ℤ → ℤ
raised low none = low
raised low (some a) = if ltb_ℤ low a then a else low

abbrev pub lowered : ℤ → Option ℤ → ℤ
lowered high none = high
lowered high (some a) = if ltb_ℤ a high then a else high

-- `EffectiveBounds`
unfoldable pub effective_bounds : Option ℤ → Option ℤ → ℤ × ℤ
effective_bounds min_amount max_amount =
    (raised platform_min_amount min_amount, lowered platform_max_amount max_amount)

pub data LinkError : Type 0 where
  title_required unsupported_currency fixed_amount_required amount_out_of_platform_bounds :
      LinkError
  amount_not_allowed_for_open_link invalid_amount_type invalid_amount_bounds : LinkError
  merchant_id_required invalid_environment : LinkError

-- The fields of the request that Validate reads.
pub record CreatePaymentLinkRequest : Type 0 where
  pub merchant_id : ℕ
  pub title : String
  pub amount_type : AmountType
  pub amount : Option ℤ
  pub currency : String
  pub min_amount : Option ℤ
  pub max_amount : Option ℤ
  pub environment_text : String

abbrev pub out_of_platform : ℤ → Bool
out_of_platform a = ltb_ℤ a platform_min_amount || ltb_ℤ platform_max_amount a

-- The amount against the type of the link.
abbrev pub amount_error : AmountType → Option ℤ → Option LinkError
amount_error fixed none = some fixed_amount_required
amount_error fixed (some a) =
    if leb_ℤ a (pos 0)
    then some fixed_amount_required
    else if out_of_platform a
    then some amount_out_of_platform_bounds
    else none
amount_error open_amount none = none
amount_error open_amount (some a) = some amount_not_allowed_for_open_link
amount_error (other_amount_type s) a = some invalid_amount_type

abbrev pub bad_bound : Option ℤ → Bool
bad_bound none = false
bad_bound (some a) = out_of_platform a

abbrev pub crossed : Option ℤ → Option ℤ → Bool
crossed (some a) (some b) = ltb_ℤ b a
crossed _ _ = false

abbrev pub bounds_error : Option ℤ → Option ℤ → Bool
bounds_error min_amount max_amount =
    bad_bound min_amount || bad_bound max_amount || crossed min_amount max_amount

abbrev pub resolved : Result Environment → Option LinkError
resolved (ok e) = none
resolved (err e) = some invalid_environment

abbrev pub or_then : Option LinkError → Option LinkError → Option LinkError
or_then none next = next
or_then (some e) next = some e

-- `CreatePaymentLinkRequest.Validate`: the error, if any.
unfoldable pub validate_link : Strings → CreatePaymentLinkRequest → Option LinkError
validate_link go r =
    if str_eq r.title ""
    then some title_required
    else if not (str_eq (default_currency r.currency) "IDR")
    then some unsupported_currency
    else or_then (amount_error r.amount_type r.amount) (
        if bounds_error r.min_amount r.max_amount
        then some invalid_amount_bounds
        else if r.merchant_id == nil_uuid
        then some merchant_id_required
        else resolved (parse_environment go r.environment_text))
