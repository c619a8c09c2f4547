-- ===== src/Base/Decimal.antt =====
-- strconv.FormatInt(n, 10) of a number that is not negative, as bytes: the library's function, in the
-- form that the texts of the model take.
use Prim.Native.Nat.{ℕ, zero, suc, ◌+◌, ◌/◌, ◌%◌}
use mathlib.Core.List.{List, ◌∷◌}
use geo.Base.Tests.{◌==◌, if◌then◌else◌}

-- strconv.FormatInt(id, 10); an int64 has at most 19 digits.
unfoldable pub decimal : ℕ → ℕ → List ℕ → List ℕ
decimal zero n text = text
decimal (suc fuel) n text =
    let longer = decimal fuel (n / 10) ((48 + n % 10) ∷ text) in
    if n / 10 == 0 then (48 + n % 10) ∷ text else longer
