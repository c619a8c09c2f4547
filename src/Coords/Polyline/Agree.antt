-- ===== src/Coords/Polyline/Agree.antt =====
-- The two decoders read alike every text that the stricter one accepts.
use geo.Base.{
  ℕ, List, [], ◌∷◌, none, some, ◌<◌, ◌≤◌, ◌^◌, ◌≡◌, if◌then◌else◌, ◌*◌, leb, ◌%◌, arith, ◌+◌, ap,
  suc, Bool-cases, ltb, inl, inr, ◌∙◌, All, map, Option-cases, length, refl, zero, sym, ◌++◌,
}
use mathlib.Core.List.{append-nil, append_assoc}
use geo.Base.Int.{ℤ, pos}
use geo.Base.Bits.{bit_or_above}
use native.Mathlib.Nat.{mul-le-mul_right, pow-le-pow_right}
use geo.Routing.Polyline.Chunk.{pow-add_five}
use geo.Routing.Polyline.Text.{PointInRange, snap, decode_polyline-encode_polyline}
use geo.Routing.Polyline.{unzigzag, decode_chunk, decode_loop, decode_polyline}
use geo.Coords.Polyline.{
  signed, halve, flip, unchecked_chunk, bit_or, Coord, decode_unchecked, Point, combine_loop,
  combine_polylines, unchecked_loop, join, decoded, encode_polyline, malformed,
}

small_lem :
    (w : ℕ) → w < 2 ^ 63 → halve (if leb 1 (w % 2) then flip (signed w) else signed w) ≡ unzigzag w
small_lem w h = ground arith

-- A group of five bits above those that are there; up to shift 30 it stays in the word.
group_lem :
    (result x shift : ℕ)
    → shift ≤ 30
    → result < 2 ^ shift
    → x < 32
    → (x * 2 ^ shift % 2 ^ 64 ≡ x * 2 ^ shift)
      × (bit_or result (x * 2 ^ shift) < 2 ^ (shift + 5))
      × (bit_or result (x * 2 ^ shift) < 2 ^ 63)
group_lem result x shift low small five =
    let top : 2 ^ shift ≤ 2 ^ 30 = pow-le-pow_right (omega arith) low in
    let wide : 2 ^ (shift + 5) ≡ 32 * 2 ^ shift = pow-add_five shift in
    let room : suc x * 2 ^ shift ≤ 32 * 2 ^ shift =
      mul-le-mul_right {m = suc x} {n = 32} (2 ^ shift) (omega arith) in
    let joined : bit_or result (x * 2 ^ shift) ≡ result + x * 2 ^ shift =
      bit_or_above shift result x small in
    (omega (arith, top, room), omega (arith, joined, wide, room), omega (arith, joined, room, top))

-- One byte, with the word `w` that it leads to.
byte_agrees :
    (c : ℕ) (s : List ℕ) (w shift : ℕ) (p : ℤ × List ℕ)
    → w < 2 ^ 63
    → (shift ≤ 30 → decode_chunk s w shift ≡ some p → unchecked_chunk s w shift ≡ some p)
    → (if ltb c 95
        then some (unzigzag w, s)
        else if ltb 30 shift
        then none
        else decode_chunk s w shift)
      ≡ some p
    → (if ltb c 95
        then some (halve (if leb 1 (w % 2) then flip (signed w) else signed w), s)
        else unchecked_chunk s w shift)
      ≡ some p
byte_agrees c s w shift p word rest h = elim (Bool-cases (ltb c 95)) [
  | inl last ↦
      let read : some (unzigzag w, s) ≡ some p = rw last at h in
      rw last (ap (λ (z : ℤ). some (z, s)) (small_lem w word) ∙ read)
  | inr more ↦ elim (Bool-cases (ltb 30 shift)) [
    | inl long ↦ let none_read : none ≡ some p = rw (more, long) at h in cc
    | inr short ↦
        let read : decode_chunk s w shift ≡ some p = rw (more, short) at h in
        rw more (rest (ground (arith, short)) read)
  ]
]

chunk_agrees :
    (s : List ℕ) (result shift : ℕ) (p : ℤ × List ℕ)
    → shift ≤ 30
    → result < 2 ^ shift
    → decode_chunk s result shift ≡ some p
    → unchecked_chunk s result shift ≡ some p
unfolding decode_chunk unchecked_chunk
chunk_agrees [] result shift p low small h = h
chunk_agrees (c ∷ s) result shift p low small h =
    let x = (c + 1) % 32 in
    let (fits, next, word) = group_lem result x shift low small (omega arith) in
    ap
      (λ (g : ℕ).
        let w = bit_or result g in
        if ltb c 95
        then some (halve (if leb 1 (w % 2) then flip (signed w) else signed w), s)
        else unchecked_chunk s w (shift + 5))
      fits
    ∙ byte_agrees c s (bit_or result (x * 2 ^ shift)) (shift + 5) p word
        (λ low'. chunk_agrees s (bit_or result (x * 2 ^ shift)) (shift + 5) p low' next) h

module _ (c : Coord) where
  loop_agrees :
      (fuel : ℕ) (s : List ℕ) (lat lng : ℤ) (points read : List (Point c))
      → decode_loop c fuel s lat lng points ≡ decoded read
      → unchecked_loop c fuel s lat lng points ≡ decoded read
  unfolding decode_loop unchecked_loop
  loop_agrees fuel [] lat lng points read h = h
  loop_agrees zero (b ∷ s) lat lng points read h = cc
  loop_agrees (suc fuel) (b ∷ s) lat lng points read h =
      elim (Option-cases (decode_chunk (b ∷ s) 0 0)) [
        | inl cut ↦ let stuck : malformed ≡ decoded read = rw (cut, decode_loop) at h in cc
        | inr ((d_lat, s₁), first) ↦ elim (Option-cases (decode_chunk s₁ 0 0)) [
          | inl cut ↦ let stuck : malformed ≡ decoded read = rw (first, decode_loop, cut) at h in cc
          | inr ((d_lng, s₂), second) ↦
              rw
                (
                  chunk_agrees (b ∷ s) 0 0 (d_lat, s₁) (omega arith) (omega arith) first,
                  unchecked_loop,
                  chunk_agrees s₁ 0 0 (d_lng, s₂) (omega arith) (omega arith) second,
                )
                (loop_agrees fuel s₂ _ _ _ read (rw (first, decode_loop, second) at h))
        ]
      ]

  -- What the decoder of internal/routing accepts, the decoder of internal/utils reads alike, and
  -- does not panic.
  pub decode_unchecked-decode_polyline :
      (text : List ℕ) (points : List (Point c))
      → decode_polyline c text ≡ decoded points
      → decode_unchecked c text ≡ decoded points
  unfolding decode_unchecked decode_polyline
  decode_unchecked-decode_polyline text points h =
      loop_agrees (length text) text (pos 0) (pos 0) [] points h

  abbrev pub without_first : List (Point c) → List (Point c)
  without_first [] = []
  without_first (p ∷ pts) = pts

  -- The points of legs that come after others.
  abbrev pub later_points : List (List (Point c)) → List (Point c)
  later_points [] = []
  later_points (pts ∷ legs) = map (snap c) (without_first pts) ++ later_points legs

  -- The points of the legs, one leg after another: all those of the first leg that has any, and the
  -- others without their first point.
  abbrev pub joined_points : List (List (Point c)) → List (Point c)
  joined_points [] = []
  joined_points ([] ∷ legs) = joined_points legs
  joined_points ((p ∷ pts) ∷ legs) = map (snap c) (p ∷ pts) ++ later_points legs

  -- What the loop of CombinePolylines has in the end.
  abbrev join_all : List (Point c) → List (List (Point c)) → List (Point c)
  join_all all [] = all
  join_all all (pts ∷ legs) = join_all (join c all (map (snap c) pts)) legs

  join_all-later_points :
      (a : Point c) (all : List (Point c)) (legs : List (List (Point c)))
      → join_all (a ∷ all) legs ≡ (a ∷ all) ++ later_points legs
  join_all-later_points a all [] = sym (append-nil (a ∷ all))
  join_all-later_points a all ([] ∷ legs) = join_all-later_points a all legs
  join_all-later_points a all ((p ∷ pts) ∷ legs) =
      join_all-later_points a (all ++ map (snap c) pts) legs
      ∙ append_assoc (a ∷ all) (map (snap c) pts) (later_points legs)

  join_all-joined_points : (legs : List (List (Point c))) → join_all [] legs ≡ joined_points legs
  join_all-joined_points [] = refl
  join_all-joined_points ([] ∷ legs) = join_all-joined_points legs
  join_all-joined_points ((p ∷ pts) ∷ legs) =
      join_all-later_points (snap c p) (map (snap c) pts) legs

  combine_loop_lem :
      (all : List (Point c)) (legs : List (List (Point c)))
      → All (All (PointInRange c)) legs
      → combine_loop c all (map (encode_polyline c) legs) ≡ decoded (join_all all legs)
  unfolding combine_loop
  combine_loop_lem all [] h = refl
  combine_loop_lem all (pts ∷ legs) (small, rest) =
      rw
        (
          decode_unchecked-decode_polyline (encode_polyline c pts) (map (snap c) pts)
              (decode_polyline-encode_polyline c pts small),
          combine_loop,
        )
        (combine_loop_lem (join c all (map (snap c) pts)) legs rest)

  -- Joining the encoded legs encodes the joined legs, in units of the fifth decimal place: all points
  -- of the first leg that has any, and then those of each later leg but its first point. No step of
  -- it panics, when the coordinates are in range.
  pub combine_polylines-join :
      (legs : List (List (Point c)))
      → All (All (PointInRange c)) legs
      → combine_polylines c (map (encode_polyline c) legs)
        ≡ decoded (encode_polyline c (joined_points legs))
  unfolding combine_polylines
  combine_polylines-join legs h =
      rw (combine_loop_lem [] legs h, combine_polylines)
        (ap (λ all. decoded (encode_polyline c all)) (join_all-joined_points legs))
