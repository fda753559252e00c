-- ===== src/Fee/Quote.antt =====
-- `QuoteTotalBasisPoints` against its specification: the least total that still nets the nominal
-- after the provider takes its percentage, rounded up.
use pg_aggregator_back.Common.{ℕ, ◌+◌, ◌-◌, ◌*◌, ◌/◌, ◌≤◌, ◌<◌, ◌≡◌, ◌⊎◌, ℤ, pos, ◌≤ℤ◌, ◌<ℤ◌, arith}
use pg_aggregator_back.Errors.{ok, err, invalid_nominal, invalid_rate}
use pg_aggregator_back.Fee.{quote_total_basis_points}
use pg_aggregator_back.Fee.Range.{
  ceil_div, ceil_div_upper, ceil_div_lower, ceil_div_le, le_ceil_div, quote_in_range,
}

-- What the provider's fee on `total` leaves is at least `nominal`.
abbrev pub Nets : ℕ → ℕ → ℕ → Type 0
Nets nominal bps total = nominal + ceil_div (total * bps) 10000 ≤ total

complement : (g b : ℕ) → b < 10000 → g * (10000 - b) + g * b ≡ g * 10000
complement g b h = grind arith

-- The condition on the total, without the rounding.
Nets-of_le : (n b g : ℕ) → b < 10000 → n * 10000 ≤ g * (10000 - b) → Nets n b g
Nets-of_le n b g h k =
    let total = complement g b h in
    let c = ceil_div (g * b) 10000 in
    let fits : c ≤ g - n = ceil_div_le (g * b) 10000 (g - n) (omega arith) (omega arith) in
    let room : n ≤ g = omega arith in omega arith

le_of_Nets : (n b g : ℕ) → b < 10000 → Nets n b g → n * 10000 ≤ g * (10000 - b)
le_of_Nets n b g h k = omega (arith, complement g b h, ceil_div_upper (g * b) 10000)

-- For a nominal from 1 to 10^12 and a rate below 10000 the quote succeeds: the total is the nominal
-- plus the reported fee, it nets the nominal, it is at most 10^16, and when the provider rounds
-- its fee down instead, the merchant is at most 1 ahead.
pub quote-Nets :
    (n b : ℕ)
    → 1 ≤ n
    → n ≤ 1000000000000
    → b < 10000
    → (g : ℕ) × (f : ℕ) × (quote_total_basis_points (pos n) (pos b) ≡ ok (pos g, pos f))
      × (g ≡ n + f)
      × Nets n b g
      × (g ≤ 10000000000000000)
      × (g ≤ n + 1 + g * b / 10000)
quote-Nets n b h k l =
    let d = 10000 - b in
    let g = ceil_div (n * 10000) d in
    let up : n * 10000 ≤ g * d = ceil_div_upper (n * 10000) d (omega arith) in
    let low : g * d < n * 10000 + d = ceil_div_lower (n * 10000) d (omega arith) in
    let total = complement g b l in
    let above : n ≤ g = le_ceil_div (n * 10000) d n (omega arith) (grind arith) in
    let cap : g ≤ n * 10000 = ceil_div_le (n * 10000) d (n * 10000) (omega arith) (grind arith) in
    (
      g,
      g - n,
      quote_in_range n b h k l,
      omega arith,
      Nets-of_le n b g l up,
      omega arith,
      omega arith,
    )

-- The quoted total is the least one: any total that nets the nominal is at least as large.
pub quote_least :
    (n b g f g' : ℕ)
    → 1 ≤ n
    → n ≤ 1000000000000
    → b < 10000
    → quote_total_basis_points (pos n) (pos b) ≡ ok (pos g, pos f)
    → Nets n b g'
    → g ≤ g'
quote_least n b g f g' h k l e m =
    let least = ceil_div_le (n * 10000) (10000 - b) g' (omega arith) (le_of_Nets n b g' l m) in
    ground (arith, quote_in_range n b h k l)

-- Any other nominal or rate is refused, the nominal being looked at first.
pub quote_refuses :
    (nominal bps : ℤ)
    → (nominal <ℤ pos 1) ⊎ (pos 1000000000000 <ℤ nominal) ⊎ (bps <ℤ pos 0) ⊎ (pos 10000 ≤ℤ bps)
    → (quote_total_basis_points nominal bps ≡ err invalid_nominal)
      ⊎ (quote_total_basis_points nominal bps ≡ err invalid_rate)
unfolding quote_total_basis_points
quote_refuses nominal bps h = ground arith
