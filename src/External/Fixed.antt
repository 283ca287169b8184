-- ===== src/External/Fixed.antt =====
-- The laws of `Double` can be met: thousandths, with a difference that stops at 0.
use a_curl_library.Base.{ℕ, ◌+◌, ◌-◌, ◌*◌, ◌/◌, arith, ltb, leb, min}
use package.a_curl_library.External.Double.{Double, IsIeee}

instance abbrev pub fixed_double : Double ℕ
fixed_double = record {
  of_nat = λ n. n * 1000;
  add = λ a b. a + b;
  sub = λ a b. a - b;
  mul = λ a b. a * b / 1000;
  div = λ a b. a * 1000 / b;
  fmin = min;
  ge = λ a b. leb b a;
  lt = ltb;
  trunc = λ a. a / 1000;
  time_diff = λ now before. (now - before) / 1_000_000;
}

pub fixed-IsIeee : IsIeee ℕ
fixed-IsIeee = record {
  trunc-of_nat = λ n h. omega arith;
  fmin-of_nat = λ a b h k. omega arith;
  ge-fmin = λ m x h. ground arith;
  lt-ge-fmin = λ m x c h. ground arith;
  ge-sub_one = λ m x h. ground arith;
  sub_one-nonneg = λ x h. ground arith;
}
