-- ===== src/Common/Int64.antt =====
-- Go's `int64`: two's complement wrap-around of an integer, and its range.
use Prim.Native.Nat.{ℕ, ◌-◌, ◌%◌, ◌^◌, ◌≤◌, ◌<◌}
use mathlib.Core.Path.{◌≡◌}
use mathlib.Core.Bool.{Bool, ◌&&◌}
use native.Mathlib.Omega.{arith}
use pg_aggregator_back.Common.Tests.{ltb, leb, if◌then◌else◌}
use pg_aggregator_back.Common.Int.{ℤ, pos, negsuc, pos_part, neg_part}

-- The residue below 2^64 that stands for the integer in a register.
abbrev pub residue64 : ℤ → ℕ
residue64 (pos n) = n % 2 ^ 64
residue64 (negsuc n) = 2 ^ 64 - 1 - n % 2 ^ 64

-- The signed reading of a register.
abbrev pub signed64 : ℕ → ℤ
signed64 r = if ltb r (2 ^ 63) then pos r else negsuc (2 ^ 64 - 1 - r)

-- The value that an `int64` holds after an operation whose exact result is `z`.
unfoldable pub int64 : ℤ → ℤ
int64 z = signed64 (residue64 z)

abbrev pub fits64 : ℤ → Bool
fits64 z = ltb (pos_part z) (2 ^ 63) && leb (neg_part z) (2 ^ 63)

pub int64_in_range : (z : ℤ) → pos_part z < 2 ^ 63 → neg_part z ≤ 2 ^ 63 → int64 z ≡ z
unfolding int64
int64_in_range (pos n) h k = ground arith
int64_in_range (negsuc n) h k = ground arith

-- Whatever the exact result, the wrapped one lies in the range.
pub int64_bounds : (z : ℤ) → (pos_part (int64 z) < 2 ^ 63) × (neg_part (int64 z) ≤ 2 ^ 63)
unfolding int64
int64_bounds (pos n) = ground arith
int64_bounds (negsuc n) = ground arith
