-- ===== src/Fee.antt =====
-- The provider fee in whole rupiah (internal/fee/fee.go). The amounts are `int64`: each product
-- and sum is written with its wrap-around, and `Fee/Range` shows that none wraps.
pub mod Range
pub mod Quote
pub mod Net
use pg_aggregator_back.Common.{
  ℕ, suc, ◌*◌, ◌/◌, ◌||◌, ℤ, pos, negsuc, neg, ◌+ℤ◌, ◌-ℤ◌, int64, ltb_ℤ, leb_ℤ, eqb_ℤ,
  if◌then◌else◌,
}
use pg_aggregator_back.Errors.{Result, ok, err, invalid_nominal, invalid_rate}

-- Go's `*` and `/` on exact integers; `/` truncates towards zero.
infixl 70 ◌*ℤ◌ ◌/ℤ◌
unfoldable pub ◌*ℤ◌ : ℤ → ℤ → ℤ
pos m *ℤ pos n = pos (m * n)
pos m *ℤ negsuc n = neg (pos (m * suc n))
negsuc m *ℤ pos n = neg (pos (suc m * n))
negsuc m *ℤ negsuc n = pos (suc m * suc n)

unfoldable pub ◌/ℤ◌ : ℤ → ℤ → ℤ
pos m /ℤ pos n = pos (m / n)
pos m /ℤ negsuc n = neg (pos (m / suc n))
negsuc m /ℤ pos n = neg (pos (suc m / n))
negsuc m /ℤ negsuc n = pos (suc m / suc n)

abbrev pub bps_denominator : ℤ
bps_denominator = pos 10000

abbrev pub provider_basis_points : ℤ
provider_basis_points = pos 70

abbrev pub max_nominal : ℤ
max_nominal = pos 1000000000000

-- `QuoteTotalBasisPoints`: the total and the fee.
unfoldable pub quote_total_basis_points : ℤ → ℤ → Result (ℤ × ℤ)
quote_total_basis_points nominal bps =
    if ltb_ℤ nominal (pos 1) || ltb_ℤ max_nominal nominal
    then err invalid_nominal
    else if ltb_ℤ bps (pos 0) || leb_ℤ bps_denominator bps
    then err invalid_rate
    else if eqb_ℤ bps (pos 0)
    then ok (nominal, pos 0)
    else let denom = int64 (bps_denominator -ℤ bps) in
      let scaled = int64 (nominal *ℤ bps_denominator) in
      let g = int64 (int64 (int64 (scaled +ℤ denom) -ℤ pos 1) /ℤ denom) in
      ok (g, int64 (g -ℤ nominal))

-- `MerchantNetBasisPoints`: the net and the fee.
unfoldable pub merchant_net_basis_points : ℤ → ℤ → Result (ℤ × ℤ)
merchant_net_basis_points nominal bps =
    if ltb_ℤ nominal (pos 1) || ltb_ℤ max_nominal nominal
    then err invalid_nominal
    else if ltb_ℤ bps (pos 0) || leb_ℤ bps_denominator bps
    then err invalid_rate
    else let scaled = int64 (nominal *ℤ bps) in
      let fee = int64 (int64 (int64 (scaled +ℤ bps_denominator) -ℤ pos 1) /ℤ bps_denominator) in
      ok (int64 (nominal -ℤ fee), fee)
