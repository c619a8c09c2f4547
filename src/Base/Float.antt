-- ===== src/Base/Float.antt =====
-- float64, which the program takes from the machine. `Float` is what the code calls of it;
-- `IsOrdered` is what IEEE 754 gives, on values other than NaN, that theorems on order need.
use Prim.Native.Nat.{ℕ}
use mathlib.Core.Path.{◌≡◌}
use mathlib.Core.Bool.{Bool, true, false, not}
use geo.Base.Int.{ℤ}

-- `lit n k` is the literal n / 10^k; `floor` is int(math.Floor(x)), `ceil` int(math.Ceil(x)),
-- `round` int(math.Round(x)) and `of_int` float64(n); `is_finite` is false at NaN and at the
-- infinities.
pub record Float : Type 1 where
  pub F : Type 0
  pub zero : F
  pub lit : ℕ → ℕ → F
  pub add : F → F → F
  pub sub : F → F → F
  pub mul : F → F → F
  pub div : F → F → F
  pub sqrt : F → F
  pub cos_degrees : F → F
  pub to_rad : F → F
  pub sin : F → F
  pub cos : F → F
  pub atan2 : F → F → F
  pub ceil : F → ℤ
  pub max_float64 : F
  pub lt : F → F → Bool
  pub floor : F → ℤ
  pub is_finite : F → Bool
  pub round : F → ℤ
  pub of_int : ℤ → F

-- a <= b and a > b, for numbers.
abbrev pub le_float : (f : Float) → f.F → f.F → Bool
le_float f a b = not (f.lt b a)

-- The order is total, and adding rounds monotonically and commutes: no law of associativity is assumed.
pub record IsOrdered (f : Float) : Type 0 where
  pub lt_irrefl : (a : f.F) → f.lt a a ≡ false
  pub le_trans : (a b c : f.F) → f.lt b a ≡ false → f.lt c b ≡ false → f.lt c a ≡ false
  pub le_of_lt : (a b : f.F) → f.lt a b ≡ true → f.lt b a ≡ false
  pub add_mono : (a b c : f.F) → f.lt b a ≡ false → f.lt (f.add b c) (f.add a c) ≡ false
  pub le-add : (a c : f.F) → f.lt c f.zero ≡ false → f.lt (f.add a c) a ≡ false
  pub add_comm : (a b : f.F) → f.add a b ≡ f.add b a
  pub add_zero : (a : f.F) → f.add a f.zero ≡ a

-- Signs and subtraction, for finite numbers: rounding crosses neither zero nor an operand.
pub record IsSigned (f : Float) : Type 0 where
  pub mul_nonneg :
      (a b : f.F) → f.lt a f.zero ≡ false → f.lt b f.zero ≡ false → f.lt (f.mul a b) f.zero ≡ false
  pub sub-le : (a b : f.F) → f.lt b f.zero ≡ false → f.lt a (f.sub a b) ≡ false
  pub sub_nonneg : (a b : f.F) → f.lt a b ≡ false → f.lt (f.sub a b) f.zero ≡ false
  pub lit_nonneg : (n k : ℕ) → f.lt (f.lit n k) f.zero ≡ false
