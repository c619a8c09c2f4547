-- ===== src/Routing/Polyline.antt =====
-- internal/routing/engine.go: EncodePolyline, DecodePolyline and their chunks. A text is the list of
-- its bytes. `int` has 64 bits; a chunk that DecodePolyline accepts has at most 35.
pub mod Chunk
pub mod Text
pub mod Total
use geo.Base.{
  ℕ, zero, suc, ◌+◌, ◌-◌, ◌*◌, ◌/◌, ◌%◌, ◌^◌, List, [], ◌∷◌, ◌++◌, Option, none, some, ltb, leb,
  length, if◌then◌else◌,
}
use geo.Base.Int.{ℤ, pos, negsuc, ◌+ℤ◌, ◌-ℤ◌}
use Prim.Native.Nat.{bit_or}

-- ^v
abbrev pub complement : ℤ → ℤ
complement (pos n) = negsuc n
complement (negsuc n) = pos n

-- value <<= 1 on 64 bits: the bit pattern is read back as a signed number.
pub shift_left : ℤ → ℤ
shift_left (pos n) =
    let w = 2 * n % 2 ^ 64 in if ltb w (2 ^ 63) then pos w else negsuc (2 ^ 64 - 1 - w)
shift_left (negsuc n) =
    let w = (2 * n + 1) % 2 ^ 64 in if ltb w (2 ^ 63) then negsuc w else pos (2 ^ 64 - 1 - w)

-- value <<= 1; if value < 0 { value = ^value }: never negative.
pub zigzag : ℤ → ℕ
unfolding shift_left
zigzag v = elim (shift_left v) [ pos n ↦ n | negsuc n ↦ n ]

-- The loop of encodeChunk. 13 groups of five bits hold any 64-bit value.
pub groups : ℕ → ℕ → List ℕ
groups zero value = []
groups (suc k) value =
    if leb 0x20 value
    then ((bit_or 0x20 (value % 32) + 63) % 256) ∷ groups k (value / 32)
    else ((value + 63) % 256) ∷ []

pub encode_chunk : ℤ → List ℕ
encode_chunk value = groups 13 (zigzag value)

-- result&1 decides the sign.
abbrev pub unzigzag : ℕ → ℤ
unzigzag result = if leb 1 (result % 2) then negsuc (result / 2) else pos (result / 2)

-- decodeChunk from s[*index:], with the text that is left. c - 63 is 1 more than c modulo 32, and
-- it is below 0x20 when c is below 95.
unfoldable pub decode_chunk : List ℕ → ℕ → ℕ → Option (ℤ × List ℕ)
decode_chunk [] result shift = none
decode_chunk (c ∷ s) result shift =
    let result' = bit_or result ((c + 1) % 32 * 2 ^ shift) in
    let more = decode_chunk s result' (shift + 5) in
    if ltb c 95 then some (unzigzag result', s) else if ltb 30 (shift + 5) then none else more

-- What the code does with a coordinate: int(math.Round(x * 1e5)) and float64(n) / 1e5.
pub record Coord : Type 1 where
  pub F : Type 0
  pub quantize : F → ℤ
  pub restore : ℤ → F

pub record Point (c : Coord) : Type 0 where
  pub lat : c.F
  pub lng : c.F

-- What a decode gives. The code returns nil for `malformed`.
pub data Decoded {ℓ} (A : Type ℓ) : Type ℓ where
  decoded : A → Decoded A
  malformed : Decoded A
  out_of_fuel : Decoded A

module _ (c : Coord) where
  encode_loop : List ℕ → ℤ → ℤ → List (Point c) → List ℕ
  encode_loop buf prev_lat prev_lng [] = buf
  encode_loop buf prev_lat prev_lng (p ∷ points) =
      let lat = c.quantize p.lat in
      let lng = c.quantize p.lng in
      encode_loop ((buf ++ encode_chunk (lat -ℤ prev_lat)) ++ encode_chunk (lng -ℤ prev_lng)) lat
        lng points

  pub encode_polyline : List (Point c) → List ℕ
  unfolding encode_loop
  encode_polyline points = encode_loop [] (pos 0) (pos 0) points

  -- Every round reads a byte at least, so the number of bytes is fuel enough.
  unfoldable pub decode_loop : ℕ → List ℕ → ℤ → ℤ → List (Point c) → Decoded (List (Point c))
  decode_loop fuel [] lat lng points = decoded points
  decode_loop zero (b ∷ s) lat lng points = out_of_fuel
  decode_loop (suc fuel) (b ∷ s) lat lng points = elim (decode_chunk (b ∷ s) 0 0) [
    | none ↦ malformed
    | some (d_lat, s₁) ↦ elim (decode_chunk s₁ 0 0) [
      | none ↦ malformed
      | some (d_lng, s₂) ↦
          decode_loop fuel s₂ (lat +ℤ d_lat) (lng +ℤ d_lng) (
            points
            ++ record { lat = c.restore (lat +ℤ d_lat); lng = c.restore (lng +ℤ d_lng) } ∷ [])
    ]
  ]

  unfoldable pub decode_polyline : List ℕ → Decoded (List (Point c))
  unfolding decode_loop
  decode_polyline encoded = decode_loop (length encoded) encoded (pos 0) (pos 0) []
