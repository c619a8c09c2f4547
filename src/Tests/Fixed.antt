-- ===== src/Tests/Fixed.antt =====
-- A float of the tests: thousandths, as natural numbers. Every operation is a function that can be
-- evaluated; the square root is that of the perfect squares at hand.
use geo.Base.{ℕ, ◌+◌, ◌-◌, ◌*◌, ◌/◌, ◌^◌, true, ltb, arith}
use geo.Base.Int.{pos, pos_part}
use geo.Base.Float.{Float, IsOrdered, IsSigned}
use geo.Routing.Profiles.Bounds.{HasLiterals}

abbrev pub fixed : Float
fixed = record {
  F = ℕ;
  zero = 0;
  lit = λ n k. n * 1000 / 10 ^ k;
  add = ◌+◌;
  sub = ◌-◌;
  mul = λ a b. a * b / 1000;
  div = λ a b. a * 1000 / b;
  sqrt = λ a. a;
  cos_degrees = λ a. 1000;
  to_rad = λ a. a;
  sin = λ a. a;
  cos = λ a. 1000;
  atan2 = λ a b. a;
  ceil = λ a. pos ((a + 999) / 1000);
  max_float64 = 10 ^ 18;
  lt = ltb;
  floor = λ a. pos (a / 1000);
  is_finite = λ a. true;
  round = λ a. pos (a / 1000);
  of_int = λ n. pos_part n * 1000;
}

pub fixed-IsOrdered : IsOrdered fixed
fixed-IsOrdered = record {
  lt_irrefl = λ a. ground arith;
  le_trans = λ a b c h k. ground arith;
  le_of_lt = λ a b h. ground arith;
  add_mono = λ a b c h. ground arith;
  le-add = λ a c h. ground arith;
  add_comm = λ a b. omega arith;
  add_zero = λ a. omega arith;
}

pub fixed-HasLiterals : HasLiterals fixed
fixed-HasLiterals = record {
  lit_mono = λ a b h. ground arith;
  lit_tenths = λ a b h. ground arith;
  lit_pos = λ a. ground arith;
}

pub fixed-IsSigned : IsSigned fixed
fixed-IsSigned = record {
  mul_nonneg = λ a b h k. ground arith;
  sub-le = λ a b h. ground arith;
  sub_nonneg = λ a b h. ground arith;
  lit_nonneg = λ n k. ground arith;
}
