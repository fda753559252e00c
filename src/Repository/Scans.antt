-- ===== src/Repository/Scans.antt =====
-- internal/repository/payment_repository.go: the lookup by reference and the two scans of the jobs.
use text.Mathlib.Text.{◌==◌ as str_eq}
use pg_aggregator_back.Common.{
  ℕ, String, Bool, true, not, ◌+◌, ◌&&◌, ◌||◌, Option, none, some, List, [], ◌∷◌, ltb, leb, take,
  filter, sort_by, ◌==◌, if◌then◌else◌,
}
use pg_aggregator_back.Errors.{ok}
use pg_aggregator_back.Payment.{Payment, pending, expired, status_eq, is_production}
use pg_aggregator_back.Store.Action.{Sql, query}
use pg_aggregator_back.Repository.Payments.{or_not_found}

abbrev find_with_reference : String → List Payment → Option Payment
find_with_reference ref [] = none
find_with_reference ref (p ∷ ps) =
    if str_eq p.reference ref then some p else find_with_reference ref ps

-- `GetByReference`
unfoldable pub get_by_reference : String → Sql Payment
get_by_reference ref = query (λ d. or_not_found (find_with_reference ref d.payments))

abbrev pub deadline : Payment → ℕ
deadline p = p.expires_at

-- The WHERE of ListExpiredPending, for the instant `now` less `grace`.
abbrev pub is_overdue : ℕ → ℕ → Payment → Bool
is_overdue now grace p = status_eq p.status pending && ltb (p.expires_at + grace) now

-- `ListExpiredPending`, with `before` = `now` - `grace`.
unfoldable pub list_expired_pending : ℕ → ℕ → ℕ → Sql (List Payment)
list_expired_pending now grace limit = query (λ d. ok (
    take (if limit == 0 then 100 else limit)
      (sort_by deadline (filter (is_overdue now grace) d.payments))))

-- (created_at, id) of the last row of a page.
pub record ReconcileCursor : Type 0 where
  pub created_at : ℕ
  pub id : ℕ

-- `(created_at, id) < (…)`, as PostgreSQL compares rows.
abbrev pub row_less : ℕ → ℕ → ℕ → ℕ → Bool
row_less created id created' id' = ltb created created' || created == created' && ltb id id'

abbrev pub after_cursor : Option ReconcileCursor → Payment → Bool
after_cursor none p = true
after_cursor (some k) p = row_less p.created_at p.id k.created_at k.id

abbrev pub no_text : Option String → Bool
no_text none = true
no_text (some s) = str_eq s ""

-- The two windows of a scan, in seconds.
pub record Windows : Type 0 where
  pub pending_window : ℕ
  pub expired_window : ℕ

-- The WHERE of ListReconcileCandidates without the cursor; `flagged` says which payments have an
-- event with a provider-side amount mismatch.
abbrev pub is_candidate : (ℕ → Bool) → Windows → ℕ → Payment → Bool
is_candidate flagged w now p =
    is_production p.environment
    && not (no_text p.provider_reference)
    && (status_eq p.status pending && leb now (p.created_at + w.pending_window)
        || status_eq p.status expired && leb now (p.expires_at + w.expired_window))
    && not (flagged p.id)

-- ORDER BY created_at DESC, id DESC
abbrev pub insert_newest : Payment → List Payment → List Payment
insert_newest x [] = x ∷ []
insert_newest x (y ∷ ys) =
    if row_less x.created_at x.id y.created_at y.id then y ∷ insert_newest x ys else x ∷ y ∷ ys

abbrev pub newest_first : List Payment → List Payment
newest_first [] = []
newest_first (x ∷ xs) = insert_newest x (newest_first xs)

unfoldable pub reconcile_page :
    (Payment → Bool) → ℕ → Option ReconcileCursor → List Payment → List Payment
reconcile_page candidate limit after ps =
    take (if limit == 0 then 50 else limit)
      (newest_first (filter (λ p. candidate p && after_cursor after p) ps))

-- `ListReconcileCandidates`
unfoldable pub list_reconcile_candidates :
    (ℕ → Bool) → ℕ → Windows → ℕ → Option ReconcileCursor → Sql (List Payment)
unfolding reconcile_page
list_reconcile_candidates flagged now w limit after =
    query (λ d. ok (reconcile_page (is_candidate flagged w now) limit after d.payments))
