-- ===== src/Repository/Keys.antt =====
-- internal/repository/idempotency_repository.go as actions on the table `idempotency_keys`
-- (Idempotency). Another client may change the table between the two statements of Claim.
use pg_aggregator_back.Common.{ℕ, Bool, true, false, Option, some, List, if◌then◌else◌}
use pg_aggregator_back.Errors.{Result, ok, claim_lost}
use pg_aggregator_back.Idempotency.{
  Record, Scope, Attempt, fresh, find_scope, claim, complete, release, purge_older_than,
}
use pg_aggregator_back.Store.{Db}
use pg_aggregator_back.Store.Action.{Sql, pure, raise, ◌>>=◌, ◌>>◌, query, exec}

abbrev pub with_keys : Db → List Record → Db
with_keys d rs = record d { idempotency_keys = rs }

-- The INSERT: whether it returned a row.
abbrev pub insert_claim : Attempt → Db → Result (Bool × Db)
insert_claim a d =
    let r = claim a d.idempotency_keys in
    if r.0.1 then ok (true, with_keys d r.1) else ok (false, d)

-- What the other clients do to the table meanwhile.
abbrev pub others : (List Record → List Record) → Sql (Unit {0})
others f c = (ok tt, record c { db = with_keys c.db (f c.db.idempotency_keys) })

abbrev pub read_claim : Scope → Sql (Option Record × Bool)
read_claim s = query (λ d. ok (find_scope s d.idempotency_keys, false))

abbrev pub own_or_read : Attempt → (List Record → List Record) → Bool → Sql (Option Record × Bool)
own_or_read a meanwhile true = pure (some (fresh a), true)
own_or_read a meanwhile false = others meanwhile >> read_claim a.scope

-- `Claim`
unfoldable pub claim_key : Attempt → (List Record → List Record) → Sql (Option Record × Bool)
claim_key a meanwhile = exec (insert_claim a) >>= own_or_read a meanwhile

abbrev pub found_or_lost : Bool → Sql (Unit {0})
found_or_lost true = pure tt
found_or_lost false = raise claim_lost

abbrev pub set_payment : ℕ → ℕ → Db → Result (Bool × Db)
set_payment id payment_id d =
    let r = complete id payment_id d.idempotency_keys in ok (r.0, with_keys d r.1)

-- `Complete`
unfoldable pub complete_key : ℕ → ℕ → Sql (Unit {0})
complete_key id payment_id = exec (set_payment id payment_id) >>= found_or_lost

-- `Release`
unfoldable pub release_key : ℕ → Sql (Unit {0})
release_key id = exec (λ d. ok (tt, with_keys d (release id d.idempotency_keys)))

-- `PurgeOlderThan`
unfoldable pub purge_keys : ℕ → Sql (Unit {0})
purge_keys cutoff = exec (λ d. ok (tt, with_keys d (purge_older_than cutoff d.idempotency_keys)))
