-- ===== src/Payment/Request/Validated.antt =====
-- What a request that passed `Validate` satisfies, and that validating it again changes nothing
-- (`CreatePaymentIdempotent` validates before it calls `CreatePayment`, which validates too).
use text.Mathlib.Text.{◌==◌ as str_eq}
use pg_aggregator_back.Common.{
  String, Bool, true, false, Option, none, some, ◌≡◌, ◌≢◌, refl, sym, ap, ◌∙◌, ◌⊎◌, inl, inr, ℤ,
  pos, ◌≤ℤ◌, arith, Option-cases,
}
use pg_aggregator_back.Errors.{Error, Result, ok, err, bind}
use pg_aggregator_back.Payment.{Environment, sandbox, production, is_sandbox}
use pg_aggregator_back.Payment.Request.{
  Strings, CreatePaymentRequest, ValidRequest, nil_uuid, environment_name, parse_environment,
  default_currency, default_expiry, field_error, filled, check_callback, validate,
}

-- What CreatePayment relies on.
pub record IsAcceptable (v : ValidRequest) : Type 0 where
  pub amount_positive : pos 1 ≤ℤ v.request.amount
  pub amount_capped : v.request.amount ≤ℤ pos 1000000000000
  pub currency_idr : str_eq v.request.currency "IDR" ≡ true
  pub method_qris : str_eq v.request.payment_method "qris" ≡ true
  pub merchant_given : v.request.merchant_id ≢ nil_uuid
  pub description_given : str_eq v.request.description "" ≡ false
  pub expiry_positive : pos 1 ≤ℤ v.request.expires_in_minutes
  pub expiry_capped : v.request.expires_in_minutes ≤ℤ pos 1440
  pub resolved : (v.environment ≡ sandbox) ⊎ (v.environment ≡ production)
  pub resolved_name : v.request.environment_text ≡ environment_name v.environment

-- The rules of the callback URL: none, or trimmed, not blank and accepted under the
-- environment's rule on plain http.
abbrev pub Accepted : (String → Bool → Option Error) → Environment → Option String → Type 0
Accepted validate_url env none = Unit
Accepted validate_url env (some url) =
    (str_eq url "" ≡ false) × (validate_url url (is_sandbox env) ≡ none)

-- The plain fields, with the defaults filled in.
record FieldsAccepted (r : CreatePaymentRequest) : Type 0 where
  amount_positive : pos 1 ≤ℤ r.amount
  amount_capped : r.amount ≤ℤ pos 1000000000000
  currency_idr : str_eq (default_currency r.currency) "IDR" ≡ true
  method_qris : str_eq r.payment_method "qris" ≡ true
  merchant_given : r.merchant_id ≢ nil_uuid
  description_given : str_eq r.description "" ≡ false
  expiry_positive : pos 1 ≤ℤ default_expiry r.expires_in_minutes
  expiry_capped : default_expiry r.expires_in_minutes ≤ℤ pos 1440

field_error-none : (r : CreatePaymentRequest) → field_error r ≡ none → FieldsAccepted r
unfolding field_error
field_error-none r h = ground arith

parse_environment_ok :
    (go : Strings) (raw : String) (env : Environment)
    → parse_environment go raw ≡ ok env
    → (env ≡ sandbox) ⊎ (env ≡ production)
unfolding parse_environment
parse_environment_ok go raw env h = ground arith

bind-eq-ok :
    {A B : Type 0} (m : Result A) (f : A → Result B) {b : B}
    → bind m f ≡ ok b
    → (a : A) × (m ≡ ok a) × (f a ≡ ok b)
bind-eq-ok (ok a) f h = (a, refl, h)
bind-eq-ok (err e) f h = cc

ok_injective : {A : Type 0} {a b : A} → ok a ≡ ok b → a ≡ b
ok_injective h = cc

err_ne_ok : {A : Type 0} {e : Error} {a : A} → err e ≡ ok a → ⊥
err_ne_ok h = cc

module _ (go : Strings) (validate_url : String → Bool → Option Error) where
  check_callback_ok :
      (env : Environment) (raw url : Option String)
      → check_callback go validate_url env raw ≡ ok url
      → Accepted validate_url env url
  unfolding check_callback
  check_callback_ok env none none h = tt
  check_callback_ok env none (some w) h = cc
  check_callback_ok env (some u) none h = tt
  check_callback_ok env (some u) (some w) h = ground arith

  validate_inv :
      (r : CreatePaymentRequest) (v : ValidRequest)
      → validate go validate_url r ≡ ok v
      → (env : Environment) × (url : Option String) × FieldsAccepted r
        × (parse_environment go r.environment_text ≡ ok env)
        × (check_callback go validate_url env r.callback_url ≡ ok url)
        × (v ≡ filled r env url)
  unfolding validate
  validate_inv r v h = elim (Option-cases (field_error r)) [
    | inr (e, bad) ↦ absurd (err_ne_ok (rw (bad, validate) at h))
    | inl fine ↦
        let (env, he, h₁) =
          bind-eq-ok (parse_environment go r.environment_text) _ (rw (fine, validate) at h) in
        let (url, hu, h₂) = bind-eq-ok (check_callback go validate_url env r.callback_url) _ h₁ in
        (env, url, field_error-none r fine, he, hu, sym (ok_injective h₂))
  ]

  accepted_fields :
      (r : CreatePaymentRequest) (v : ValidRequest)
      → validate go validate_url r ≡ ok v
      → field_error r ≡ none
  unfolding validate
  accepted_fields r v h = elim (Option-cases (field_error r)) [
    | inr (e, bad) ↦ absurd (err_ne_ok (rw (bad, validate) at h))
    | inl fine ↦ fine
  ]

  -- A request that passes has an amount from 1 to 10^12, the currency IDR, the method qris, a
  -- merchant, a description, an expiry of 1 to 1440 minutes and one of the two environments,
  -- under its own name; its callback URL, if any, is not blank and passed the URL rules, where
  -- plain http is allowed in the sandbox alone.
  pub validate-IsAcceptable :
      (r : CreatePaymentRequest) (v : ValidRequest)
      → validate go validate_url r ≡ ok v
      → IsAcceptable v × Accepted validate_url v.environment v.request.callback_url
  validate-IsAcceptable r v h =
      let (env, url, f, he, hu, e) = validate_inv r v h in
      let good : IsAcceptable (filled r env url) = record {
        amount_positive = f.amount_positive;
        amount_capped = f.amount_capped;
        currency_idr = f.currency_idr;
        method_qris = f.method_qris;
        merchant_given = f.merchant_given;
        description_given = f.description_given;
        expiry_positive = f.expiry_positive;
        expiry_capped = f.expiry_capped;
        resolved = parse_environment_ok go r.environment_text env he;
        resolved_name = refl;
      } in
      rw e (good, check_callback_ok env r.callback_url url hu)

-- What strings.TrimSpace and strings.ToLower are documented to do.
pub record StringLaws (go : Strings) : Type 0 where
  pub trim_trim : (s : String) → go.trim_space (go.trim_space s) ≡ go.trim_space s
  pub sandbox_kept : go.to_lower (go.trim_space "sandbox") ≡ "sandbox"
  pub production_kept : go.to_lower (go.trim_space "production") ≡ "production"

default_currency_idem : (c : String) → default_currency (default_currency c) ≡ default_currency c
default_currency_idem c = ground arith

default_expiry_idem : (m : ℤ) → default_expiry (default_expiry m) ≡ default_expiry m
default_expiry_idem m = ground arith

field_error-filled :
    (r : CreatePaymentRequest) (env : Environment) (url : Option String)
    → field_error r ≡ none
    → field_error (filled r env url).request ≡ none
unfolding field_error
field_error-filled r env url h = ground arith

filled_idem :
    (r : CreatePaymentRequest) (env : Environment) (url : Option String)
    → filled (filled r env url).request env url ≡ filled r env url
filled_idem r env url = ground arith

module _ (go : Strings) (laws : StringLaws go) (validate_url : String → Bool → Option Error) where
  parse_environment_again :
      (env : Environment)
      → (env ≡ sandbox) ⊎ (env ≡ production)
      → parse_environment go (environment_name env) ≡ ok env
  unfolding parse_environment
  parse_environment_again env (inl e) = rw (e, laws.sandbox_kept)
  parse_environment_again env (inr e) = rw (e, laws.production_kept)

  check_callback_again :
      (env : Environment) (raw url : Option String)
      → check_callback go validate_url env raw ≡ ok url
      → check_callback go validate_url env url ≡ ok url
  unfolding check_callback
  check_callback_again env none none h = refl
  check_callback_again env none (some w) h = cc
  check_callback_again env (some u) none h = refl
  check_callback_again env (some u) (some w) h = ground (arith, laws.trim_trim u)

  validate_step :
      (r : CreatePaymentRequest) (env : Environment) (url : Option String)
      → field_error r ≡ none
      → parse_environment go r.environment_text ≡ ok env
      → check_callback go validate_url env r.callback_url ≡ ok url
      → validate go validate_url r ≡ ok (filled r env url)
  unfolding validate
  validate_step r env url f p c = ground arith

  -- A request that has passed `Validate` passes it again and stays as it is, whatever it was
  -- before; so validating before and in `CreatePayment` is validating once.
  pub validate-validate :
      (r : CreatePaymentRequest) (v : ValidRequest)
      → validate go validate_url r ≡ ok v
      → validate go validate_url v.request ≡ ok v
  validate-validate r v h =
      let (env, url, f, he, hu, e) = validate_inv go validate_url r v h in
      let again =
        validate_step (filled r env url).request env url
          (field_error-filled r env url (accepted_fields go validate_url r v h))
          (parse_environment_again env (parse_environment_ok go r.environment_text env he))
          (check_callback_again env r.callback_url url hu) in
      rw e (again ∙ ap ok (filled_idem r env url))
