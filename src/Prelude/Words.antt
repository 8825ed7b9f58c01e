-- ===== src/Prelude/Words.antt =====
-- Machine integers: their bounds, and the saturating operations that the gateway uses.
use Prim.Native.Nat.{ℕ, ◌+◌, ◌-◌, ◌^◌, ◌%◌, ◌*◌, ◌≤◌, ◌<◌, min}
use mathlib.Core.Path.{◌≡◌}
use native.Mathlib.Omega.{arith}

abbrev pub u32_max : ℕ
u32_max = 2 ^ 32 - 1

abbrev pub u64_max : ℕ
u64_max = 2 ^ 64 - 1

-- `a.saturating_add(b)` at the width whose largest value is `top`. The other saturating operation,
-- `a.saturating_sub(b)`, is `a - b` on ℕ.
abbrev pub saturating_add : ℕ → ℕ → ℕ → ℕ
saturating_add top a b = min (a + b) top

-- `usize` on the 64-bit targets that the gateway is built for.
abbrev pub usize_max : ℕ
usize_max = u64_max

-- A `Duration` is a number of nanoseconds; the largest, and `d.saturating_mul(n)`.
abbrev pub nanos_per_sec : ℕ
nanos_per_sec = 1_000_000_000

abbrev pub duration_max : ℕ
duration_max = u64_max * nanos_per_sec + 999_999_999

abbrev pub duration_mul : ℕ → ℕ → ℕ
duration_mul d n = min (d * n) duration_max

-- `a.wrapping_sub(b)`, and what an atomic's `fetch_sub` leaves, at the width of `w` bits.
abbrev pub wrapping_sub : ℕ → ℕ → ℕ → ℕ
wrapping_sub w a b = (a + 2 ^ w - b) % 2 ^ w

-- It does not wrap around if there is enough to take from.
pub wrapping_sub_exact : (a b : ℕ) → b ≤ a → a < 2 ^ 64 → wrapping_sub 64 a b ≡ a - b
wrapping_sub_exact a b h k = omega arith

-- Signed integers: `negsuc n` is `-(n + 1)`.
pub data ℤ : Type 0 where
  pos : ℕ → ℤ
  negsuc : ℕ → ℤ
