-- ===== src/Routing/Polyline/Total.antt =====
-- DecodePolyline on every text, well formed or not.
use Prim.Native.Nat.{bit_or}
use geo.Base.{
  ℕ, zero, suc, ◌+◌, ◌*◌, ◌%◌, ◌^◌, ◌≤◌, ◌<◌, ◌≡◌, ◌≢◌, inl, inr, List, [], ◌∷◌, some, arith,
  length, Option-cases,
}
use geo.Base.Int.{ℤ, ◌+ℤ◌}
use geo.Routing.Polyline.{decode_chunk, Coord, Point, out_of_fuel, decode_loop, decode_polyline}

decode_chunk-shorter :
    (s rest : List ℕ) (result shift : ℕ) (d : ℤ)
    → decode_chunk s result shift ≡ some (d, rest)
    → length rest < length s
unfolding decode_chunk
decode_chunk-shorter [] rest result shift d h = cc
decode_chunk-shorter (b ∷ s) rest result shift d h =
    ground
      (arith, decode_chunk-shorter s rest (bit_or result ((b + 1) % 32 * 2 ^ shift)) (shift + 5) d)

module _ (c : Coord) where
  decode_loop-total :
      (fuel : ℕ) (s : List ℕ) (lat lng : ℤ) (points : List (Point c))
      → length s ≤ fuel
      → decode_loop c fuel s lat lng points ≢ out_of_fuel
  unfolding decode_loop
  decode_loop-total fuel [] lat lng points enough = λ e. cc
  decode_loop-total zero (b ∷ s) lat lng points enough = absurd (omega arith)
  decode_loop-total (suc fuel) (b ∷ s) lat lng points enough =
      elim (Option-cases (decode_chunk (b ∷ s) 0 0)) [
        | inl none_read ↦ rw (none_read, decode_loop) (λ e. cc)
        | inr ((d, s₁), first) ↦ elim (Option-cases (decode_chunk s₁ 0 0)) [
          | inl none_read ↦ rw (first, decode_loop, none_read) (λ e. cc)
          | inr ((e, s₂), second) ↦
              rw (first, decode_loop, second)
                (decode_loop-total fuel s₂ (lat +ℤ d) (lng +ℤ e) _ (
                  omega (
                    arith,
                    decode_chunk-shorter (b ∷ s) s₁ 0 0 d first,
                    decode_chunk-shorter s₁ s₂ 0 0 e second,
                  )))
        ]
      ]

  -- On every text the decoder comes to an end: it gives points or finds the text malformed.
  pub decode_polyline-ne-out_of_fuel : (s : List ℕ) → decode_polyline c s ≢ out_of_fuel
  unfolding decode_polyline
  decode_polyline-ne-out_of_fuel s = decode_loop-total (length s) s _ _ [] (omega arith)
