-- ===== src/Idempotency.antt =====
-- Idempotency keys (internal/domain/idempotency/idempotency.go and
-- internal/repository/idempotency_repository.go). Times are numbers of seconds. A key is the list
-- of its bytes. Each function is one statement, or the two of `Claim` with nothing between them. The foreign key
-- of `idempotency_keys` to the merchants is not checked.
pub mod Exclusive
use text.Mathlib.Text.{◌==◌ as str_eq}
use pg_aggregator_back.Common.{
  ℕ, String, Bool, true, false, not, ◌+◌, ◌&&◌, ◌||◌, Option, none, some, List, [], ◌∷◌, ltb,
  length, ◌==◌, if◌then◌else◌,
}

-- `TTL`, 24 hours.
abbrev pub ttl : ℕ
ttl = 86400

-- `AbandonedAfter`, 2 minutes.
abbrev pub abandoned_after : ℕ
abandoned_after = 120

abbrev pub max_key_len : ℕ
max_key_len = 128

-- A row of `idempotency_keys`.
pub record Record : Type 0 where
  pub id : ℕ
  pub merchant_id : ℕ
  pub environment : String
  pub key : List ℕ
  pub request_hash : String
  pub payment_id : Option ℕ
  pub created_at : ℕ

abbrev pub all_visible : List ℕ → Bool
all_visible [] = true
all_visible (b ∷ bs) = if ltb b 33 || ltb 126 b then false else all_visible bs

-- `ValidateKey`: whether it accepts.
unfoldable pub validate_key : List ℕ → Bool
validate_key key =
    if length key == 0 || ltb max_key_len (length key) then false else all_visible key

-- (merchant_id, environment, idempotency_key), the scope of a claim.
pub record Scope : Type 0 where
  pub merchant_id : ℕ
  pub environment : String
  pub key : List ℕ

abbrev pub same_bytes : List ℕ → List ℕ → Bool
same_bytes [] [] = true
same_bytes (x ∷ xs) (y ∷ ys) = x == y && same_bytes xs ys
same_bytes _ _ = false

abbrev pub in_scope : Scope → Record → Bool
in_scope s r =
    r.merchant_id == s.merchant_id && str_eq r.environment s.environment && same_bytes r.key s.key

-- The row of a scope: `uq_idempotency_scope` allows one.
abbrev pub find_scope : Scope → List Record → Option Record
find_scope s [] = none
find_scope s (r ∷ rs) = if in_scope s r then some r else find_scope s rs

-- What the caller brings: the id that it drew, and its clock.
pub record Attempt : Type 0 where
  pub scope : Scope
  pub id : ℕ
  pub request_hash : String
  pub now : ℕ

abbrev pub fresh : Attempt → Record
fresh a = record {
  id = a.id;
  merchant_id = a.scope.merchant_id;
  environment = a.scope.environment;
  key = a.scope.key;
  request_hash = a.request_hash;
  payment_id = none;
  created_at = a.now;
}

abbrev pub no_payment : Option ℕ → Bool
no_payment none = true
no_payment (some _) = false

-- The WHERE of the conflict clause: the row is past its TTL, or was abandoned without a payment.
abbrev pub may_take_over : ℕ → Record → Bool
may_take_over now r =
    ltb (r.created_at + ttl) now
    || no_payment r.payment_id && ltb (r.created_at + abandoned_after) now

abbrev pub take_over : Attempt → Record → Record
take_over a r = record r {
  id = a.id;
  request_hash = a.request_hash;
  payment_id = none;
  created_at = a.now;
}

-- The row of the scope is replaced.
abbrev pub replace_scope : Attempt → List Record → List Record
replace_scope a [] = []
replace_scope a (r ∷ rs) = if in_scope a.scope r then take_over a r ∷ rs else r ∷ replace_scope a rs

abbrev pub claim_at : Attempt → List Record → Option Record → (Option Record × Bool) × List Record
claim_at a rs none = ((some (fresh a), true), fresh a ∷ rs)
claim_at a rs (some r) =
    if may_take_over a.now r
    then ((some (fresh a), true), replace_scope a rs)
    else ((some r, false), rs)

-- `Claim`: the record, whether this caller owns it, and the table.
unfoldable pub claim : Attempt → List Record → (Option Record × Bool) × List Record
claim a rs = claim_at a rs (find_scope a.scope rs)

abbrev pub with_payment : ℕ → Record → Record
with_payment payment_id r = record r { payment_id = some payment_id }

-- `Complete`: false stands for `ErrClaimLost`.
unfoldable pub complete : ℕ → ℕ → List Record → Bool × List Record
complete id payment_id [] = (false, [])
complete id payment_id (r ∷ rs) =
    let rest = complete id payment_id rs in
    if r.id == id then (true, with_payment payment_id r ∷ rest.1) else (rest.0, r ∷ rest.1)

-- `Release`
unfoldable pub release : ℕ → List Record → List Record
release id [] = []
release id (r ∷ rs) =
    let rest = release id rs in if r.id == id && no_payment r.payment_id then rest else r ∷ rest

-- `PurgeOlderThan`
unfoldable pub purge_older_than : ℕ → List Record → List Record
purge_older_than cutoff [] = []
purge_older_than cutoff (r ∷ rs) =
    let rest = purge_older_than cutoff rs in if ltb r.created_at cutoff then rest else r ∷ rest
