-- ===== src/RateLimit/Thousandths.antt =====
-- Fixed point numbers with three digits behind the point, which have the operations and the laws that
-- limiters ask of floating point numbers.
use lagos.Prelude.{ℕ, ◌+◌, ◌-◌, ◌*◌, ◌/◌, leb, min, max, arith}
use lagos.RateLimit.{Float}
use lagos.RateLimit.Quota.{IsIeee}

abbrev pub thousandths : Float
thousandths = record {
  F = ℕ;
  of_u64 = λ n. n * 1000;
  as_secs = λ d. d / 1_000_000;
  min_positive = 1;
  add = λ a b. a + b;
  sub = λ a b. a - b;
  mul = λ a b. a * b / 1000;
  div = λ a b. a * 1000 / b;
  larger = λ a b. max a b;
  clamp = λ x lo hi. min (max x lo) hi;
  ge = λ a b. leb b a;
  ceil = λ x. (x + 999) / 1000 * 1000;
  to_u64 = λ x. x / 1000;
  from_secs = λ x. x * 1_000_000;
}

pub thousandths-IsIeee : IsIeee thousandths
thousandths-IsIeee = record {
  of_u64_mono = λ a b h. ground arith;
  ge_trans = λ x y z h k. ground arith;
  add_nonneg = λ x y h k. ground arith;
  mul_nonneg = λ n x h k. ground arith;
  complement_nonneg = λ x h. ground arith;
  complement_le_one = λ x h. ground arith;
  clamp_number = λ x h. ground arith;
  quotient_number = λ e i. ground arith;
  larger_ge = λ x. ground arith;
  from_secs_ceil = λ x h. ground arith;
}
