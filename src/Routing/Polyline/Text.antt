-- ===== src/Routing/Polyline/Text.antt =====
-- Whole polylines: EncodePolyline and DecodePolyline.
use mathlib.Core.List.{append_assoc, append-nil}
use geo.Base.{
  ℕ, zero, suc, ◌^◌, ◌≤◌, ◌<◌, ◌≡◌, sym, ap, ◌∙◌, List, [], ◌∷◌, ◌++◌, map, some, arith, length,
  length-append, All,
}
use geo.Base.Int.{ℤ, pos, pos_part, neg_part, ◌+ℤ◌, ◌-ℤ◌, sub-add_cancel_ℤ}
use geo.Routing.Polyline.Chunk.{decode_chunk-encode_chunk}
use geo.Routing.Polyline.{
  groups, encode_chunk, decode_chunk, Coord, Point, decoded, encode_loop, encode_polyline,
  decode_loop, decode_polyline,
}

-- A quantized coordinate that lies well within an `int32`; a legal one is below 1.8e7.
abbrev pub InRange : ℤ → Type 0
InRange n = (pos_part n < 2 ^ 33) × (neg_part n < 2 ^ 33)

length-encode_chunk : (v : ℤ) → 0 < length (encode_chunk v)
unfolding encode_chunk groups
length-encode_chunk v = ground arith

read_delta :
    (n prev : ℤ) (rest : List ℕ)
    → InRange n
    → InRange prev
    → decode_chunk (encode_chunk (n -ℤ prev) ++ rest) 0 0 ≡ some (n -ℤ prev, rest)
unfolding ◌-ℤ◌
read_delta n prev rest h k =
    decode_chunk-encode_chunk (n -ℤ prev) rest (ground arith) (ground arith)

module _ (c : Coord) where
  -- The point that the text holds: the coordinates at five decimal places.
  abbrev pub snap : Point c → Point c
  snap p = record { lat = c.restore (c.quantize p.lat); lng = c.restore (c.quantize p.lng) }

  abbrev pub PointInRange : Point c → Type 0
  PointInRange p = InRange (c.quantize p.lat) × InRange (c.quantize p.lng)

  encode_loop-append :
      (buf : List ℕ) (lat lng : ℤ) (points : List (Point c))
      → encode_loop c buf lat lng points ≡ buf ++ encode_loop c [] lat lng points
  unfolding encode_loop
  encode_loop-append buf lat lng [] = sym (append-nil buf)
  encode_loop-append buf lat lng (p ∷ points) =
      let a = encode_chunk (c.quantize p.lat -ℤ lat) in
      let b = encode_chunk (c.quantize p.lng -ℤ lng) in
      let here =
        encode_loop-append ((buf ++ a) ++ b) (c.quantize p.lat) (c.quantize p.lng) points in
      let there = encode_loop-append (a ++ b) (c.quantize p.lat) (c.quantize p.lng) points in
      here ∙ simp (there, append_assoc)

  decode_round :
      (fuel : ℕ) (s s₁ s₂ : List ℕ) (lat lng d e : ℤ) (points : List (Point c))
      → decode_chunk s 0 0 ≡ some (d, s₁)
      → decode_chunk s₁ 0 0 ≡ some (e, s₂)
      → decode_loop c (suc fuel) s lat lng points
        ≡ decode_loop c fuel s₂
            (lat +ℤ d)
            (lng +ℤ e)
            (points ++ record { lat = c.restore (lat +ℤ d); lng = c.restore (lng +ℤ e) } ∷ [])
  unfolding decode_loop decode_chunk
  decode_round fuel [] s₁ s₂ lat lng d e points h k = cc
  decode_round fuel (b ∷ s) s₁ s₂ lat lng d e points h k = rw (h, decode_loop, k)

  decode_loop-point :
      (fuel : ℕ) (lat lng : ℤ) (p : Point c) (s : List ℕ) (out : List (Point c))
      → InRange lat
      → InRange lng
      → PointInRange p
      → decode_loop c
          (suc fuel)
          (encode_chunk (c.quantize p.lat -ℤ lat) ++ (encode_chunk (c.quantize p.lng -ℤ lng) ++ s))
          lat
          lng
          out
        ≡ decode_loop c fuel s (c.quantize p.lat) (c.quantize p.lng) (out ++ snap p ∷ [])
  decode_loop-point fuel lat lng p s out hlat hlng h =
      decode_round fuel _ _ _ lat lng _ _ out (read_delta (c.quantize p.lat) lat _ h.0 hlat)
        (read_delta (c.quantize p.lng) lng s h.1 hlng)
      ∙ rw (sub-add_cancel_ℤ (c.quantize p.lat) lat, sub-add_cancel_ℤ (c.quantize p.lng) lng)

  encode_loop-cons :
      (lat lng : ℤ) (p : Point c) (points : List (Point c))
      → encode_loop c [] lat lng (p ∷ points)
        ≡ encode_chunk (c.quantize p.lat -ℤ lat)
          ++ (encode_chunk (c.quantize p.lng -ℤ lng)
              ++ encode_loop c [] (c.quantize p.lat) (c.quantize p.lng) points)
  unfolding encode_loop
  encode_loop-cons lat lng p points =
      encode_loop-append
        (encode_chunk (c.quantize p.lat -ℤ lat) ++ encode_chunk (c.quantize p.lng -ℤ lng))
        (c.quantize p.lat) (c.quantize p.lng) points
      ∙ append_assoc (encode_chunk (c.quantize p.lat -ℤ lat)) _ _

  decode_loop-encode_loop :
      (fuel : ℕ) (lat lng : ℤ) (points out : List (Point c))
      → InRange lat
      → InRange lng
      → All PointInRange points
      → length (encode_loop c [] lat lng points) ≤ fuel
      → decode_loop c fuel (encode_loop c [] lat lng points) lat lng out
        ≡ decoded (out ++ map snap points)
  decode_loop-encode_loop fuel lat lng [] out hlat hlng h enough =
      unfold encode_loop decode_loop in ap decoded (sym (append-nil out))
  decode_loop-encode_loop zero lat lng (p ∷ points) out hlat hlng h enough = absurd (
      omega (
        arith,
        ap length (encode_loop-cons lat lng p points),
        length-append (encode_chunk (c.quantize p.lat -ℤ lat)) (
            encode_chunk (c.quantize p.lng -ℤ lng)
            ++ encode_loop c [] (c.quantize p.lat) (c.quantize p.lng) points),
        length-encode_chunk (c.quantize p.lat -ℤ lat),
      ))
  decode_loop-encode_loop (suc fuel) lat lng (p ∷ points) out hlat hlng h enough =
      let r = encode_loop c [] (c.quantize p.lat) (c.quantize p.lng) points in
      let b = encode_chunk (c.quantize p.lng -ℤ lng) in
      let shorter : length r ≤ fuel = omega (
        arith,
        ap length (encode_loop-cons lat lng p points),
        length-append (encode_chunk (c.quantize p.lat -ℤ lat)) (b ++ r),
        length-append b r,
        length-encode_chunk (c.quantize p.lat -ℤ lat),
      ) in
      ap (λ s. decode_loop c (suc fuel) s lat lng out) (encode_loop-cons lat lng p points)
      ∙ decode_loop-point fuel lat lng p r out hlat hlng h.0
      ∙ decode_loop-encode_loop fuel (c.quantize p.lat) (c.quantize p.lng) points
          (out ++ snap p ∷ []) h.0.0 h.0.1 h.1 shorter
      ∙ ap decoded (append_assoc out (snap p ∷ []) (map snap points))

  -- Decoding an encoded polyline gives the points at five decimal places, in order, when every
  -- quantized coordinate is less than 2^33 in size.
  pub decode_polyline-encode_polyline :
      (points : List (Point c))
      → All PointInRange points
      → decode_polyline c (encode_polyline c points) ≡ decoded (map snap points)
  unfolding encode_polyline decode_polyline
  decode_polyline-encode_polyline points h =
      decode_loop-encode_loop (length (encode_loop c [] (pos 0) (pos 0) points)) (pos 0) (pos 0)
        points [] (omega arith) (omega arith) h (omega arith)
