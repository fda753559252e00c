-- ===== src/Fee/Range.antt =====
-- No step of the fee arithmetic wraps: on valid inputs both functions are the plain formulas.
use pg_aggregator_back.Common.{
  ℕ, ◌+◌, ◌-◌, ◌*◌, ◌/◌, ◌^◌, ◌≤◌, ◌<◌, ◌≡◌, pos, ◌+ℤ◌, ◌-ℤ◌, int64, int64_in_range, arith,
}
use pg_aggregator_back.Errors.{ok}
use pg_aggregator_back.Fee.{◌*ℤ◌, ◌/ℤ◌, quote_total_basis_points, merchant_net_basis_points}

-- An exact result that is a number below 2^63 is kept.
int64_pos : (n : ℕ) → n < 2 ^ 63 → int64 (pos n) ≡ pos n
int64_pos n h = int64_in_range (pos n) h (omega arith)

int64_sub : (a b : ℕ) → b ≤ a → a < 2 ^ 63 → int64 (pos a -ℤ pos b) ≡ pos (a - b)
unfolding ◌-ℤ◌ int64
int64_sub a b h k = ground arith

int64_add : (a b : ℕ) → a + b < 2 ^ 63 → int64 (pos a +ℤ pos b) ≡ pos (a + b)
unfolding ◌+ℤ◌ int64
int64_add a b h = ground arith

int64_mul : (a b : ℕ) → a * b < 2 ^ 63 → int64 (pos a *ℤ pos b) ≡ pos (a * b)
unfolding ◌*ℤ◌ int64
int64_mul a b h = ground arith

int64_div : (a b : ℕ) → a < 2 ^ 63 → int64 (pos a /ℤ pos b) ≡ pos (a / b)
unfolding ◌/ℤ◌
int64_div a b h = int64_pos (a / b) (grind arith)

-- ceil(a / b) as the code computes it.
abbrev pub ceil_div : ℕ → ℕ → ℕ
ceil_div a b = (a + b - 1) / b

-- Rounding up: the least multiple of `b` that is not below `a`.
pub ceil_div_upper : (a b : ℕ) → 0 < b → a ≤ ceil_div a b * b
ceil_div_upper a b h = grind arith

pub ceil_div_lower : (a b : ℕ) → 0 < b → ceil_div a b * b < a + b
ceil_div_lower a b h = grind arith

pub ceil_div_le : (a b c : ℕ) → 0 < b → a ≤ c * b → ceil_div a b ≤ c
ceil_div_le a b c h k = grind (arith, ceil_div_lower a b h)

pub le_ceil_div : (a b c : ℕ) → 0 < b → c * b ≤ a → c ≤ ceil_div a b
le_ceil_div a b c h k = grind (arith, ceil_div_upper a b h)

pub ceil_div_le_self : (a b : ℕ) → 0 < b → ceil_div a b ≤ a + b
ceil_div_le_self a b h = grind (arith, ceil_div_lower a b h)

-- The quotient of `QuoteTotalBasisPoints` never wraps.
quotient_in_range :
    (a d : ℕ)
    → 1 ≤ d
    → d ≤ 10000
    → a ≤ 10000000000000000
    → int64 (int64 (int64 (pos a +ℤ pos d) -ℤ pos 1) /ℤ pos d) ≡ pos (ceil_div a d)
quotient_in_range a d h k l = rw (
  int64_add a d (omega arith),
  int64_sub (a + d) 1 (omega arith) (omega arith),
  int64_div (a + d - 1) d (omega arith),
)

pub quote_in_range :
    (n b : ℕ)
    → 1 ≤ n
    → n ≤ 1000000000000
    → b < 10000
    → let g = ceil_div (n * 10000) (10000 - b) in
      quote_total_basis_points (pos n) (pos b) ≡ ok (pos g, pos (g - n))
unfolding quote_total_basis_points
quote_in_range n b h k l =
    let d = 10000 - b in
    let g = ceil_div (n * 10000) d in
    let up : n ≤ g = le_ceil_div (n * 10000) d n (omega arith) (grind arith) in
    let down : g ≤ n * 10000 + d = ceil_div_le_self (n * 10000) d (omega arith) in
    rw
      (
        int64_sub 10000 b (omega arith) (omega arith),
        int64_mul n 10000 (omega arith),
        quotient_in_range (n * 10000) d (omega arith) (omega arith) (omega arith),
        int64_sub g n up (omega arith),
      )
      (ground arith)

pub net_in_range :
    (n b : ℕ)
    → 1 ≤ n
    → n ≤ 1000000000000
    → b < 10000
    → let fee = ceil_div (n * b) 10000 in
      merchant_net_basis_points (pos n) (pos b) ≡ ok (pos (n - fee), pos fee)
unfolding merchant_net_basis_points
net_in_range n b h k l =
    let fee = ceil_div (n * b) 10000 in
    let scaled : n * b ≤ n * 10000 = grind arith in
    let down : fee ≤ n = ceil_div_le (n * b) 10000 n (omega arith) scaled in
    rw
      (
        int64_mul n b (omega arith),
        quotient_in_range (n * b) 10000 (omega arith) (omega arith) (omega arith),
        int64_sub n fee down (omega arith),
      )
      (ground arith)
