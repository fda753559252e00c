-- ===== src/Repository/Statistics.antt =====
-- The counts and sums over `payments` (internal/repository/payment_repository_update.go), as reads
-- of the tables.
use pg_aggregator_back.Common.{
  ℕ, Bool, true, ◌&&◌, List, [], ◌∷◌, ◌+◌, ℤ, pos, ◌+ℤ◌, ◌==◌, if◌then◌else◌,
}
use pg_aggregator_back.Payment.{Status, paid, Payment, status_eq}
use pg_aggregator_back.Store.Action.{Sql, query}
use pg_aggregator_back.Repository.Insert.{scan_int64}

abbrev pub count_where : (Payment → Bool) → List Payment → ℕ
count_where f [] = 0
count_where f (p ∷ ps) = if f p then 1 + count_where f ps else count_where f ps

abbrev pub sum_where : (Payment → Bool) → List Payment → ℤ
sum_where f [] = pos 0
sum_where f (p ∷ ps) = if f p then p.amount +ℤ sum_where f ps else sum_where f ps

abbrev pub of_merchant : ℕ → Status → Payment → Bool
of_merchant m s p = p.merchant_id == m && status_eq p.status s

-- `CountByStatus`
unfoldable pub count_by_status : ℕ → Status → Sql ℤ
count_by_status m s = query (λ d. scan_int64 (pos (count_where (of_merchant m s) d.payments)))

-- `GetTotalAmount`
unfoldable pub get_total_amount : ℕ → Status → Sql ℤ
get_total_amount m s = query (λ d. scan_int64 (sum_where (of_merchant m s) d.payments))

-- `CountAll`
unfoldable pub count_all : Sql ℤ
count_all = query (λ d. scan_int64 (pos (count_where (λ p. true) d.payments)))

-- `CountAllByStatus`
unfoldable pub count_all_by_status : Status → Sql ℤ
count_all_by_status s =
    query (λ d. scan_int64 (pos (count_where (λ p. status_eq p.status s) d.payments)))

-- `SumPaidAmount`
unfoldable pub sum_paid_amount : Sql ℤ
sum_paid_amount = query (λ d. scan_int64 (sum_where (λ p. status_eq p.status paid) d.payments))
