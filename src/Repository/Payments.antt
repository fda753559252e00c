-- ===== src/Repository/Payments.antt =====
-- internal/repository/payment_repository.go and payment_repository_update.go: creation, lookup and
-- the guarded changes of status.
pub mod Effect
pub mod Moves
use text.Mathlib.Text.{◌==◌ as str_eq}
use pg_aggregator_back.Common.{
  ℕ, String, Bool, true, false, not, ◌&&◌, ◌||◌, Option, none, some, List, [], ◌∷◌, ℤ, pos, ltb_ℤ,
  fits64, is_some, ◌==◌, if◌then◌else◌,
}
use pg_aggregator_back.Errors.{
  Result, ok, err, violation, foreign_key, check, unique, payment_not_found,
  invalid_status_transition, payment_already_terminal,
}
use pg_aggregator_back.Payment.{
  Status, paid, refunded, Environment, production, other_environment, Payment, status_eq,
  is_production, is_terminal_status, is_valid_status, contains_status, allowed_source_statuses,
}
use pg_aggregator_back.Ledger.{payment_credit, Entry}
use pg_aggregator_back.Store.{Db, Merchant}
use pg_aggregator_back.Store.Table.{find, modify}
use pg_aggregator_back.Store.Action.{Sql, pure, raise, ◌>>=◌, ◌>>◌, query, exec, transaction}
use pg_aggregator_back.Repository.Insert.{insert_entry}

abbrev pub payment_key : Payment → ℕ
payment_key p = p.id

abbrev pub find_payment : ℕ → Db → Option Payment
find_payment id d = find payment_key id d.payments

abbrev pub or_not_found : Option Payment → Result Payment
or_not_found none = err payment_not_found
or_not_found (some p) = ok p

-- `GetByID`
unfoldable pub get_by_id : ℕ → Sql Payment
get_by_id id = query (λ d. or_not_found (find_payment id d))

abbrev pub has_reference : String → Option String → Bool
has_reference r none = false
has_reference r (some s) = str_eq s r

abbrev pub find_by_reference : String → List Payment → Option Payment
find_by_reference r [] = none
find_by_reference r (p ∷ ps) =
    if has_reference r p.provider_reference then some p else find_by_reference r ps

-- `GetByProviderReference`
unfoldable pub get_by_provider_reference : String → Sql Payment
get_by_provider_reference r = query (λ d. or_not_found (find_by_reference r d.payments))

-- `Create` stores production for an empty environment.
abbrev pub stored_environment : Environment → Environment
stored_environment (other_environment s) = if str_eq s "" then production else other_environment s
stored_environment e = e

abbrev pub same_reference : Option String → Option String → Bool
same_reference (some a) (some b) = str_eq a b
same_reference _ _ = false

-- The unique indexes on `payments`: the key, the reference, the provider's reference.
abbrev pub payment_clashes : Payment → List Payment → Bool
payment_clashes p [] = false
payment_clashes p (x ∷ xs) =
    p.id == x.id
    || str_eq p.reference x.reference
    || str_eq p.provider_name x.provider_name
      && same_reference p.provider_reference x.provider_reference
    || payment_clashes p xs

-- The row that INSERT writes: `merchant_net_amount` and `paid_at` take their defaults.
abbrev pub new_row : Payment → Payment
new_row p = record p {
  environment = stored_environment p.environment;
  merchant_net_amount = pos 0;
  paid_at = none;
}

-- INSERT INTO payments, with the checks, unique indexes and foreign key of the migrations on amounts,
-- statuses, keys and merchants; the lengths of texts and the foreign key to payment links are not
-- checked.
unfoldable pub insert_payment : Payment → Db → Result (Unit {0} × Db)
insert_payment p d =
    if not (ltb_ℤ (pos 0) p.amount && not (ltb_ℤ p.fee_amount (pos 0)) && is_valid_status p.status)
    then err (violation check)
    else if payment_clashes p d.payments
    then err (violation unique)
    else if not (is_some (find (λ (m : Merchant). m.id) p.merchant_id d.merchants))
    then err (violation foreign_key)
    else ok (tt, record d { payments = new_row p ∷ d.payments })

-- `Create`
unfoldable pub create : Payment → Sql (Unit {0})
unfolding insert_payment
create p = exec (insert_payment p)

-- Why a guarded UPDATE matched no row.
unfoldable pub classify : {A : Type 0} → ℕ → Sql A
unfolding get_by_id
classify id = do
  current ← get_by_id id
  raise (
      if is_terminal_status current.status
      then payment_already_terminal
      else invalid_status_transition)

abbrev pub with_status : Status → Option ℕ → ℕ → Payment → Payment
with_status s paid_at now p = record p { status = s; paid_at = paid_at; updated_at = now }

abbrev pub guarded : Status → Payment → Bool
guarded new p = contains_status (allowed_source_statuses new) p.status

abbrev pub update_status_at : Status → Option ℕ → ℕ → Db → Option Payment → Option Status × Db
update_status_at new paid_at now d none = (none, d)
update_status_at new paid_at now d (some p) =
    if guarded new p
    then (
      some p.status,
      record d { payments = modify payment_key p.id (with_status new paid_at now) d.payments },
    )
    else (none, d)

-- UPDATE payments … WHERE p.status IN (…) RETURNING prev.status
unfoldable pub update_status_row : ℕ → Status → Option ℕ → ℕ → Db → Result (Option Status × Db)
update_status_row id new paid_at now d = ok (update_status_at new paid_at now d (find_payment id d))

abbrev pub or_classify : ℕ → Option Status → Sql Status
or_classify id none = classify id
or_classify id (some s) = pure s

abbrev pub is_nil {ℓ} : {A : Type ℓ} → List A → Bool
is_nil [] = true
is_nil (x ∷ xs) = false

-- `UpdateStatus`
unfoldable pub update_status : ℕ → Status → Option ℕ → ℕ → Sql Status
unfolding update_status_row
update_status id new paid_at now =
    if status_eq new paid || status_eq new refunded
    then raise invalid_status_transition
    else if is_nil (allowed_source_statuses new)
    then raise invalid_status_transition
    else exec (update_status_row id new paid_at now) >>= or_classify id

-- What MarkPaid's UPDATE returns.
pub record Settled : Type 0 where
  pub previous : Status
  pub merchant_id : ℕ
  pub environment : Environment

abbrev pub as_paid : Option ℕ → ℤ → ℕ → Payment → Payment
as_paid paid_at net now p = record p {
  status = paid;
  paid_at = paid_at;
  updated_at = now;
  merchant_net_amount = net;
}

abbrev pub settle_at : Option ℕ → ℤ → ℕ → Db → Option Payment → Result (Option Settled × Db)
settle_at paid_at net now d none = ok (none, d)
settle_at paid_at net now d (some p) =
    if guarded paid p
    then (if ltb_ℤ net (pos 0) || not (fits64 net)
        then err (violation check)
        else ok (
          some (record {
            previous = p.status;
            merchant_id = p.merchant_id;
            environment = p.environment;
          }),
          record d { payments = modify payment_key p.id (as_paid paid_at net now) d.payments },
        ))
    else ok (none, d)

-- UPDATE payments … RETURNING prev.status, p.merchant_id, p.environment; the column
-- `merchant_net_amount` is a BIGINT with the check `merchant_net_amount >= 0`.
unfoldable pub settle_row : ℕ → Option ℕ → ℤ → ℕ → Db → Result (Option Settled × Db)
settle_row id paid_at net now d = settle_at paid_at net now d (find_payment id d)

abbrev pub credit_entry : ℕ → ℕ → ℤ → ℕ → ℕ → Entry
credit_entry entry_id merchant_id net payment_id now = record {
  id = entry_id;
  merchant_id = merchant_id;
  entry_type = payment_credit;
  amount = net;
  payment_id = some payment_id;
  payout_id = none;
  refund_id = none;
  note = "";
  created_by = none;
  created_at = now;
}

-- The credit of a production payment with a positive net.
unfoldable pub credit : ℕ → ℕ → ℤ → ℕ → Settled → Sql (Unit {0})
credit entry_id id net now s =
    if is_production s.environment && ltb_ℤ (pos 0) net
    then exec (insert_entry (credit_entry entry_id s.merchant_id net id now))
    else pure tt

abbrev pub credited : ℕ → ℕ → ℤ → ℕ → Option Settled → Sql (Option Status)
credited entry_id id net now none = pure none
credited entry_id id net now (some s) = credit entry_id id net now s >> pure (some s.previous)

-- The transaction of `MarkPaid`; `none` means that the guard matched no row.
unfoldable pub settle : ℕ → ℕ → Option ℕ → ℤ → ℕ → Sql (Option Status)
unfolding settle_row credit
settle entry_id id paid_at net now =
    transaction (exec (settle_row id paid_at net now) >>= credited entry_id id net now)

-- `MarkPaid`
unfoldable pub mark_paid : ℕ → ℕ → Option ℕ → ℤ → ℕ → Sql Status
unfolding settle
mark_paid entry_id id paid_at net now = settle entry_id id paid_at net now >>= or_classify id
