-- ===== src/Coords/Polyline.antt =====
-- internal/utils/polyline.go: the other codec of polylines, and the joining of the legs of a path.
-- Its encoder is the code of internal/routing/engine.go again; its decoder does not look whether the
-- text ends, so it panics at a text that is cut off: none. `int` has 64 bits.
pub mod Agree
use geo.Base.{
  ℕ, zero, suc, ◌+◌, ◌-◌, ◌*◌, ◌/◌, ◌%◌, ◌^◌, List, [], ◌∷◌, ◌++◌, Option, none, some, ltb, leb,
  length, if◌then◌else◌,
}
use geo.Base.Int.{ℤ, pos, negsuc, ◌+ℤ◌}
use geo.Routing.Polyline.{Coord, Point, Decoded, decoded, malformed, out_of_fuel, encode_polyline}
use Prim.Native.Nat.{bit_or}

-- A word of 64 bits, read as a signed number.
abbrev pub signed : ℕ → ℤ
signed w = if ltb w (2 ^ 63) then pos w else negsuc (2 ^ 64 - 1 - w)

-- `if result&1 != 0 {result = ^result}` and `result >> 1`
abbrev pub halve : ℤ → ℤ
halve (pos n) = pos (n / 2)
halve (negsuc n) = negsuc (n / 2)

abbrev pub flip : ℤ → ℤ
flip (pos n) = negsuc n
flip (negsuc n) = pos n

-- decodeChunk from encoded[idx:], with the text that is left; a shift of 64 and more gives 0.
pub unchecked_chunk : List ℕ → ℕ → ℕ → Option (ℤ × List ℕ)
unchecked_chunk [] result shift = none
unchecked_chunk (c ∷ s) result shift =
    let group = (c + 1) % 32 * 2 ^ shift % 2 ^ 64 in
    let result' = bit_or result group in
    let more = unchecked_chunk s result' (shift + 5) in
    if ltb c 95
    then some (halve (if leb 1 (result' % 2) then flip (signed result') else signed result'), s)
    else more

module _ (c : Coord) where
  -- The loop of DecodePolyline, on fuel: each round reads a byte at least.
  pub unchecked_loop : ℕ → List ℕ → ℤ → ℤ → List (Point c) → Decoded (List (Point c))
  unchecked_loop fuel [] lat lng pts = decoded pts
  unchecked_loop zero (b ∷ s) lat lng pts = out_of_fuel
  unchecked_loop (suc fuel) (b ∷ s) lat lng pts = elim (unchecked_chunk (b ∷ s) 0 0) [
    | none ↦ malformed
    | some (d_lat, s₁) ↦ elim (unchecked_chunk s₁ 0 0) [
      | none ↦ malformed
      | some (d_lng, s₂) ↦
          unchecked_loop fuel s₂ (lat +ℤ d_lat) (lng +ℤ d_lng)
            (pts ++ record { lat = c.restore (lat +ℤ d_lat); lng = c.restore (lng +ℤ d_lng) } ∷ [])
    ]
  ]

  -- DecodePolyline: `malformed` is a panic.
  pub decode_unchecked : List ℕ → Decoded (List (Point c))
  unfolding unchecked_loop
  decode_unchecked encoded = unchecked_loop (length encoded) encoded (pos 0) (pos 0) []

  -- The points of one more leg: the first one is left out where a leg before it had points.
  abbrev pub join : List (Point c) → List (Point c) → List (Point c)
  join all [] = all
  join [] (p ∷ pts) = p ∷ pts
  join (a ∷ all) (p ∷ pts) = (a ∷ all) ++ pts

  pub combine_loop : List (Point c) → List (List ℕ) → Decoded (List (Point c))
  combine_loop all [] = decoded all
  combine_loop all (enc ∷ legs) = elim (decode_unchecked enc) [
    | malformed ↦ malformed
    | out_of_fuel ↦ out_of_fuel
    | decoded pts ↦ combine_loop (join all pts) legs
  ]

  -- CombinePolylines
  pub combine_polylines : List (List ℕ) → Decoded (List ℕ)
  unfolding combine_loop
  combine_polylines legs = elim (combine_loop [] legs) [
    | malformed ↦ malformed
    | out_of_fuel ↦ out_of_fuel
    | decoded all ↦ decoded (encode_polyline c all)
  ]
