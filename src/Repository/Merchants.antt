-- ===== src/Repository/Merchants.antt =====
-- internal/repository/merchant_repository.go: the lookup of a merchant and its webhook secret.
use pg_aggregator_back.Common.{ℕ, String, Option, none, some}
use pg_aggregator_back.Errors.{Result, ok, err, merchant_not_found}
use pg_aggregator_back.Store.{Db, Merchant}
use pg_aggregator_back.Store.Table.{find, modify}
use pg_aggregator_back.Store.Action.{Sql, query, exec}

abbrev pub merchant_key : Merchant → ℕ
merchant_key m = m.id

abbrev merchant_or_not_found : Option Merchant → Result Merchant
merchant_or_not_found none = err merchant_not_found
merchant_or_not_found (some m) = ok m

-- `MerchantRepository.GetByID`
unfoldable pub get_merchant : ℕ → Sql Merchant
get_merchant id = query (λ d. merchant_or_not_found (find merchant_key id d.merchants))

abbrev with_secret : String → Merchant → Merchant
with_secret secret m = record m { webhook_secret = some secret }

abbrev secret_set : ℕ → String → Db → Result (Unit {0} × Db)
secret_set id secret d =
    ok (tt, record d { merchants = modify merchant_key id (with_secret secret) d.merchants })

-- `SetWebhookSecret`
unfoldable pub set_webhook_secret : ℕ → String → Sql (Unit {0})
set_webhook_secret id secret = exec (secret_set id secret)
