-- ===== src/Fee/Net.antt =====
-- `MerchantNetBasisPoints` and its agreement with the quote.
use pg_aggregator_back.Common.{ℕ, ◌+◌, ◌-◌, ◌*◌, ◌≤◌, ◌<◌, ◌≡◌, pos, arith}
use pg_aggregator_back.Errors.{ok}
use pg_aggregator_back.Fee.{quote_total_basis_points, merchant_net_basis_points}
use pg_aggregator_back.Fee.Range.{
  ceil_div, ceil_div_upper, ceil_div_lower, ceil_div_le, net_in_range,
}
use pg_aggregator_back.Fee.Quote.{Nets, quote-Nets, quote_least}

-- For a nominal from 1 to 10^12 and a rate below 10000 the net and the fee add up to the nominal,
-- and the fee is the provider's percentage rounded up: no smaller fee covers it.
pub net_splits :
    (n b : ℕ)
    → 1 ≤ n
    → n ≤ 1000000000000
    → b < 10000
    → (net : ℕ) × (f : ℕ) × (merchant_net_basis_points (pos n) (pos b) ≡ ok (pos net, pos f))
      × (net + f ≡ n)
      × (n * b ≤ f * 10000)
      × (f * 10000 < n * b + 10000)
net_splits n b h k l =
    let f = ceil_div (n * b) 10000 in
    let scaled : n * b ≤ n * 10000 = grind arith in
    let down : f ≤ n = ceil_div_le (n * b) 10000 n (omega arith) scaled in
    (
      n - f,
      f,
      net_in_range n b h k l,
      omega arith,
      ceil_div_upper (n * b) 10000 (omega arith),
      ceil_div_lower (n * b) 10000 (omega arith),
    )

-- A smaller total pays a smaller fee.
ceil_div_mono : (a a' c : ℕ) → 0 < c → a' ≤ a → ceil_div a' c ≤ ceil_div a c
ceil_div_mono a a' c h k = ceil_div_le a' c (ceil_div a c) h (omega (arith, ceil_div_upper a c h))

-- One rupiah less than a total that nets n + 1 still nets n.
Nets-pred : (n b g : ℕ) → Nets (n + 1) b g → Nets n b (g - 1)
Nets-pred n b g h =
    let smaller : (g - 1) * b ≤ g * b = grind arith in
    omega (arith, ceil_div_mono (g * b) ((g - 1) * b) 10000 (omega arith) smaller)

-- Charging the quoted total and deducting the provider's fee from it is exact: the merchant nets
-- precisely the nominal, and the fee deducted is the fee quoted (for totals up to 10^12).
pub merchant_net-quote :
    (n b g f : ℕ)
    → 1 ≤ n
    → n ≤ 1000000000000
    → b < 10000
    → quote_total_basis_points (pos n) (pos b) ≡ ok (pos g, pos f)
    → g ≤ 1000000000000
    → merchant_net_basis_points (pos g) (pos b) ≡ ok (pos n, pos f)
merchant_net-quote n b g f h k l e c =
    let (g₁, f₁, e₁, s, m, _, _) = quote-Nets n b h k l in
    let same : g ≡ g₁ = ground arith in
    let fee : f ≡ f₁ = ground arith in
    let below : ¬ Nets (n + 1) b g =
      λ more. absurd (omega (arith, quote_least n b g f (g - 1) h k l e (Nets-pred n b g more))) in
    let m' : Nets n b g = rw same m in
    let exact : ceil_div (g * b) 10000 ≡ f = omega arith in
    let left : g - ceil_div (g * b) 10000 ≡ n = omega arith in
    rw (net_in_range g b (omega arith) c l, left, exact)
