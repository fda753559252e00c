-- ===== src/Callback/Secret.antt =====
-- The secret that signs a merchant's callbacks, and the cache of one batch.
use text.Mathlib.Text.{◌==◌ as str_eq}
use pg_aggregator_back.Common.{ℕ, String, Option, none, some, List, [], ◌∷◌, ◌==◌, if◌then◌else◌}
use pg_aggregator_back.Errors.{other_error}
use pg_aggregator_back.Store.Action.{Sql, pure, raise, ◌>>=◌, ◌>>◌}
use pg_aggregator_back.Repository.Merchants.{get_merchant, set_webhook_secret}

abbrev pub stored_secret : ℕ → Option String → Sql String
stored_secret merchant_id none = raise other_error
stored_secret merchant_id (some secret) = do set_webhook_secret merchant_id secret; pure secret

-- `RegenerateMerchantWebhookSecret`; `drawn` is what generateWebhookSecret returns.
unfoldable pub regenerate_merchant_webhook_secret : Option String → ℕ → Sql String
regenerate_merchant_webhook_secret drawn merchant_id = stored_secret merchant_id drawn

abbrev pub secret_or_new : Option String → ℕ → Option String → Sql String
secret_or_new drawn merchant_id none = regenerate_merchant_webhook_secret drawn merchant_id
secret_or_new drawn merchant_id (some secret) =
    if str_eq secret "" then regenerate_merchant_webhook_secret drawn merchant_id else pure secret

-- `EnsureMerchantWebhookSecret`
unfoldable pub ensure_merchant_webhook_secret : Option String → ℕ → Sql String
unfolding regenerate_merchant_webhook_secret
ensure_merchant_webhook_secret drawn merchant_id = do
  m ← get_merchant merchant_id
  secret_or_new drawn merchant_id m.webhook_secret

-- `map[uuid.UUID]string`; nil is `none`.
abbrev pub Cache : Type 0
Cache = Option (List (ℕ × String))

abbrev pub cached_in : ℕ → List (ℕ × String) → Option String
cached_in id [] = none
cached_in id ((k, secret) ∷ cs) = if k == id then some secret else cached_in id cs

abbrev pub cached : ℕ → Cache → Option String
cached id none = none
cached id (some cs) = cached_in id cs

abbrev pub remember : ℕ → String → Cache → Cache
remember id secret none = none
remember id secret (some cs) = some ((id, secret) ∷ cs)

abbrev pub secret_from : Option String → ℕ → Cache → Option String → Sql (String × Cache)
secret_from drawn id cache (some secret) = pure (secret, cache)
secret_from drawn id cache none = do
  secret ← ensure_merchant_webhook_secret drawn id
  pure (secret, remember id secret cache)

-- `resolveWebhookSecret`: the secret, and the cache after it.
unfoldable pub resolve_webhook_secret : Option String → ℕ → Cache → Sql (String × Cache)
unfolding ensure_merchant_webhook_secret
resolve_webhook_secret drawn id cache = secret_from drawn id cache (cached id cache)
