-- ===== src/Creation/Router.antt =====
-- Which providers may serve a payment: the router (internal/provider/adapter.go) and the candidates
-- of a merchant (resolveProvidersForMerchant of internal/service/payment_service.go). A map is an
-- association list; its lock makes each function one step. `normalize_key` is `normalizeKey`,
-- strings.ToLower after strings.TrimSpace.
use text.Mathlib.Text.{◌==◌ as str_eq}
use pg_aggregator_back.Common.{
  ℕ, String, Bool, true, false, not, Option, none, some, List, [], ◌∷◌, ◌++◌, if◌then◌else◌,
}
use pg_aggregator_back.Errors.{Result, ok, err, unsupported_payment_method, provider_not_available}
use pg_aggregator_back.Payment.Request.{Strings}
use pg_aggregator_back.Creation.{Provider, Candidate}

pub data HealthStatus : Type 0 where
  healthy unhealthy : HealthStatus
  other_health : String → HealthStatus

pub record ProviderHealth : Type 0 where
  pub provider_name : String
  pub status : HealthStatus
  pub reason : String
  pub updated_at : ℕ

pub record ProviderRouter : Type 0 where
  pub providers : List (String × Provider)
  pub payment_method_providers : List (String × List String)
  pub provider_healths : List (String × ProviderHealth)

module _ {A : Type 0} where
  abbrev pub lookup : String → List (String × A) → Option A
  lookup k [] = none
  lookup k ((j, a) ∷ xs) = if str_eq j k then some a else lookup k xs

  abbrev pub assign : String → A → List (String × A) → List (String × A)
  assign k a [] = (k, a) ∷ []
  assign k a ((j, b) ∷ xs) = if str_eq j k then (j, a) ∷ xs else (j, b) ∷ assign k a xs

abbrev pub new_router : ProviderRouter
new_router = record { providers = []; payment_method_providers = []; provider_healths = [] }

abbrev pub is_unhealthy : HealthStatus → Bool
is_unhealthy unhealthy = true
is_unhealthy _ = false

abbrev pub contains_text : String → List String → Bool
contains_text s [] = false
contains_text s (x ∷ xs) = if str_eq x s then true else contains_text s xs

abbrev pub names_or_none : Option (List String) → List String
names_or_none none = []
names_or_none (some names) = names

-- A row of merchant_provider_configs, enabled, in the order of its query.
pub record ProviderConfig : Type 0 where
  pub provider_name : String
  pub failover_enabled : Bool

module _ (go : Strings) where
  -- `normalizeKey`
  unfoldable pub normalize_key : String → String
  normalize_key s = go.to_lower (go.trim_space s)

  abbrev pub health_or_healthy :
      String
      → ℕ
      → Option ProviderHealth
      → List (String × ProviderHealth)
      → List (String × ProviderHealth)
  health_or_healthy name now none hs =
      assign (normalize_key name)
        (record { provider_name = name; status = healthy; reason = ""; updated_at = now }) hs
  health_or_healthy name now (some h) hs = hs

  -- `RegisterProvider`
  unfoldable pub register_provider : Provider → ℕ → ProviderRouter → ProviderRouter
  unfolding normalize_key
  register_provider p now r =
      let key = normalize_key p.name in
      record r {
        providers = assign key p r.providers;
        provider_healths =
            health_or_healthy p.name now (lookup key r.provider_healths) r.provider_healths;
      }

  -- `RegisterPaymentMethodProvider`
  unfoldable pub register_payment_method_provider :
      String → String → ProviderRouter → ProviderRouter
  unfolding normalize_key
  register_payment_method_provider method name r =
      let key = normalize_key method in
      let existing = names_or_none (lookup key r.payment_method_providers) in
      if contains_text (normalize_key name) existing then r else record r {
        payment_method_providers =
            assign key (existing ++ normalize_key name ∷ []) r.payment_method_providers;
      }

  -- `GetProvider`
  unfoldable pub get_provider : String → ProviderRouter → Option Provider
  unfolding normalize_key
  get_provider name r = lookup (normalize_key name) r.providers

  abbrev pub not_unhealthy : Option ProviderHealth → Bool
  not_unhealthy none = true
  not_unhealthy (some h) = not (is_unhealthy h.status)

  -- `isProviderAvailableLocked`
  unfoldable pub is_provider_available : String → ProviderRouter → Bool
  unfolding normalize_key
  is_provider_available name r = not_unhealthy (lookup (normalize_key name) r.provider_healths)

  abbrev pub if_available :
      ProviderRouter → String → Option Provider → List Provider → List Provider
  if_available r name none rest = rest
  if_available r name (some p) rest = if is_provider_available name r then p ∷ rest else rest

  abbrev pub select_named : ProviderRouter → List String → List Provider
  select_named r [] = []
  select_named r (name ∷ names) = if_available r name (get_provider name r) (select_named r names)

  abbrev pub at_least_one : {A : Type 0} → List A → Result (List A)
  at_least_one [] = err provider_not_available
  at_least_one (x ∷ xs) = ok (x ∷ xs)

  abbrev pub select_registered : ProviderRouter → Option (List String) → Result (List Provider)
  select_registered r none = err unsupported_payment_method
  select_registered r (some names) = at_least_one (select_named r names)

  -- `SelectProviders`
  unfoldable pub select_providers : String → ProviderRouter → Result (List Provider)
  unfolding normalize_key get_provider is_provider_available
  select_providers method r =
      select_registered r (lookup (normalize_key method) r.payment_method_providers)

  -- `SetProviderHealth`
  unfoldable pub set_provider_health :
      String → HealthStatus → String → ℕ → ProviderRouter → ProviderRouter
  unfolding normalize_key
  set_provider_health name status reason now r = record r {
    provider_healths =
        assign (normalize_key name)
          (record { provider_name = name; status = status; reason = reason; updated_at = now })
          r.provider_healths;
  }

  abbrev pub is_sandbox_provider : Provider → Bool
  is_sandbox_provider p = str_eq p.name "sandbox"

  -- The default providers, without the sandbox, each with failover.
  abbrev pub default_candidates : List Provider → List Candidate
  default_candidates [] = []
  default_candidates (p ∷ ps) =
      if is_sandbox_provider p
      then default_candidates ps
      else record { provider = p; failover_enabled = true } ∷ default_candidates ps

  abbrev pub if_usable :
      ProviderRouter → ProviderConfig → Option Provider → List Candidate → List Candidate
  if_usable r c none rest = rest
  if_usable r c (some p) rest =
      if is_sandbox_provider p
      then rest
      else if not (is_provider_available c.provider_name r)
      then rest
      else record { provider = p; failover_enabled = c.failover_enabled } ∷ rest

  abbrev pub configured_candidates : ProviderRouter → List ProviderConfig → List Candidate
  configured_candidates r [] = []
  configured_candidates r (c ∷ cs) =
      if_usable r c (get_provider c.provider_name r) (configured_candidates r cs)

  abbrev pub default_or_error : Result (List Provider) → Result (List Candidate)
  default_or_error (err e) = err e
  default_or_error (ok ps) = at_least_one (default_candidates ps)

  -- `resolveProvidersForMerchant`, from the merchant's enabled configurations for the method.
  unfoldable pub resolve_providers_for_merchant :
      ProviderRouter → String → Result (List ProviderConfig) → Result (List Candidate)
  unfolding select_providers get_provider is_provider_available
  resolve_providers_for_merchant r method (err e) = err e
  resolve_providers_for_merchant r method (ok []) = default_or_error (select_providers method r)
  resolve_providers_for_merchant r method (ok (c ∷ cs)) =
      at_least_one (configured_candidates r (c ∷ cs))
