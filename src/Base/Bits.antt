-- ===== src/Base/Bits.antt =====
-- `|` on words whose bits do not overlap is `+`.
use Prim.Native.Nat.{ℕ, zero, suc, ◌+◌, ◌-◌, ◌*◌, ◌/◌, ◌%◌, ◌^◌, ◌≤◌, ◌<◌, max, bit_or, digits}
use Prim.Native.Nat.{bit_or-bitwise}
use mathlib.Core.Path.{◌≡◌, refl, sym, ◌∙◌}
use native.Mathlib.Omega.{arith}
use native.Mathlib.Nat.{pow-suc}
use mathlib.Core.Path.{ap}
use mathlib.Core.Bool.{Bool, true, ◌&&◌}

-- Over a small range, check every value by evaluation.
unfoldable pub all_below : ℕ → (ℕ → Bool) → Bool
all_below zero test = true
all_below (suc limit) test = test limit && all_below limit test

pub all_below_sound :
    (limit : ℕ) (test : ℕ → Bool) (v : ℕ) → all_below limit test ≡ true → v < limit → test v ≡ true
unfolding all_below
all_below_sound zero test v checked small = absurd (omega arith)
all_below_sound (suc limit) test v checked small = ground (arith, all_below_sound limit test v)

abbrev or_with : ℕ → ℕ → ℕ → ℕ
or_with fuel low high = digits (λ rest. rest) max fuel low high

or_with-zero : (fuel y : ℕ) → or_with fuel 0 y ≡ y
or_with-zero zero y = refl
or_with-zero (suc fuel) y = refl

-- More fuel than the first word needs changes nothing.
or_with_more : (fuel more x y : ℕ) → x ≤ fuel → or_with (fuel + more) x y ≡ or_with fuel x y
or_with_more fuel more zero y room = or_with-zero (fuel + more) y ∙ sym (or_with-zero fuel y)
or_with_more zero more (suc x) y room = absurd (omega arith)
or_with_more (suc fuel) more (suc x) y room =
    let smaller : suc x / 2 ≤ fuel = omega arith in
    let shift : suc fuel + more ≡ suc (fuel + more) = omega arith in
    rw shift (omega (or_with_more fuel more (suc x / 2) (y / 2) smaller, arith))

bit_or-zero : (y : ℕ) → bit_or 0 y ≡ y
bit_or-zero y = bit_or-bitwise 0 y

lowest-bit_or : (x y : ℕ) → bit_or x y ≡ bit_or (x / 2) (y / 2) * 2 + max (x % 2) (y % 2)
lowest-bit_or zero y = omega (bit_or-zero (y / 2), bit_or-zero y, arith)
lowest-bit_or (suc x) y =
    let half = suc x / 2 in
    let spare = x - half in
    let whole : half + spare ≡ x = omega arith in
    let enough = rw whole at (or_with_more half spare half (y / 2) (omega arith)) in
    omega (enough, bit_or-bitwise half (y / 2), bit_or-bitwise (suc x) y, arith)

-- y << k only has bits from the k-th on, and x only has lower ones.
pub bit_or_above : (k x y : ℕ) → x < 2 ^ k → bit_or x (y * 2 ^ k) ≡ x + y * 2 ^ k
bit_or_above zero x y h =
    let none_left : x ≡ 0 = omega arith in rw (none_left, bit_or-zero) (omega arith)
bit_or_above (suc k) x y h =
    let twice : y * 2 ^ suc k ≡ 2 * (y * 2 ^ k) =
      omega (arith, ap (λ (t : ℕ). y * t) (pow-suc 2 k)) in
    let half : y * 2 ^ suc k / 2 ≡ y * 2 ^ k = omega arith in
    let low : x / 2 < 2 ^ k = omega (arith, pow-suc 2 k) in
    let rec : bit_or (x / 2) (y * 2 ^ suc k / 2) ≡ x / 2 + y * 2 ^ k =
      rw half (bit_or_above k (x / 2) y low) in
    omega (arith, lowest-bit_or x (y * 2 ^ suc k))
