-- ===== src/PaymentLink/Bounds.antt =====
-- The bounds of a link that was validated.
use text.Mathlib.Text.{◌==◌ as str_eq}
use pg_aggregator_back.Common.{
  Bool, false, not, Option, none, some, ◌≡◌, ℤ, pos, ◌≤ℤ◌, arith, if◌then◌else◌, ◌==◌,
}
use pg_aggregator_back.Payment.Request.{Strings, default_currency, nil_uuid, parse_environment}
use pg_aggregator_back.PaymentLink.{
  effective_bounds, CreatePaymentLinkRequest, amount_error, or_then, bounds_error, validate_link,
  LinkError, invalid_amount_bounds, title_required, unsupported_currency, merchant_id_required,
  resolved,
}

bounds_of_or :
    (a : Option LinkError) (b : Bool) (rest : Option LinkError)
    → or_then a (if b then some invalid_amount_bounds else rest) ≡ none
    → b ≡ false
bounds_of_or none b rest h = ground arith
bounds_of_or (some e) b rest h = cc

-- The last tests of the validation were reached.
reached :
    (t u : Bool) (rest : Option LinkError)
    → (if t then some title_required else if u then some unsupported_currency else rest) ≡ none
    → rest ≡ none
reached t u rest h = ground arith

validated_bounds :
    (go : Strings) (r : CreatePaymentLinkRequest)
    → validate_link go r ≡ none
    → bounds_error r.min_amount r.max_amount ≡ false
unfolding validate_link
validated_bounds go r h =
    bounds_of_or (amount_error r.amount_type r.amount) (bounds_error r.min_amount r.max_amount)
      (if r.merchant_id == nil_uuid
        then some merchant_id_required
        else resolved (parse_environment go r.environment_text))
      (reached (str_eq r.title "") (not (str_eq (default_currency r.currency) "IDR")) _ h)

bounds :
    (a b : Option ℤ)
    → bounds_error a b ≡ false
    → (pos 2000 ≤ℤ (effective_bounds a b).0)
      × ((effective_bounds a b).0 ≤ℤ (effective_bounds a b).1)
      × ((effective_bounds a b).1 ≤ℤ pos 10000000)
unfolding effective_bounds
bounds none none h = (omega arith, omega arith, omega arith)
bounds none (some b) h = (omega arith, ground arith, ground arith)
bounds (some a) none h = (ground arith, ground arith, omega arith)
bounds (some a) (some b) h = (ground arith, ground arith, ground arith)

-- A link that passes Validate has bounds that some amount satisfies, and both lie within the bounds
-- of the platform, 2000 and 10 000 000.
pub effective_bounds-validate :
    (go : Strings) (r : CreatePaymentLinkRequest)
    → validate_link go r ≡ none
    → (pos 2000 ≤ℤ (effective_bounds r.min_amount r.max_amount).0)
      × ((effective_bounds r.min_amount r.max_amount).0
          ≤ℤ (effective_bounds r.min_amount r.max_amount).1)
      × ((effective_bounds r.min_amount r.max_amount).1 ≤ℤ pos 10000000)
effective_bounds-validate go r h = bounds r.min_amount r.max_amount (validated_bounds go r h)
