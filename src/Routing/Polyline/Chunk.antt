-- ===== src/Routing/Polyline/Chunk.antt =====
-- One chunk: what encodeChunk writes, decodeChunk reads.
use Prim.Native.Nat.{bit_or}
use mathlib.Core.Path.{ap}
use native.Mathlib.Nat.{pow-suc}
use native.Mathlib.Numerals.{towards_suc}
use geo.Base.{
  ℕ, zero, suc, ◌+◌, ◌*◌, ◌/◌, ◌%◌, ◌^◌, ◌≤◌, ◌<◌, ◌≡◌, refl, ◌∙◌, inl, inr, List, ◌∷◌, ◌++◌, some,
  arith, true, false, leb, ltb, Bool-cases, ◌==◌, ==_iff,
}
use geo.Base.Int.{ℤ, pos, negsuc, pos_part, neg_part}
use geo.Base.Bits.{bit_or_above, all_below, all_below_sound}
use geo.Routing.Polyline.{zigzag, groups, encode_chunk, unzigzag, decode_chunk}

marked_table : all_below 32 (λ x. bit_or 0x20 x == x + 32) ≡ true
unfolding all_below
marked_table = refl

marked : (v : ℕ) → bit_or 0x20 (v % 32) ≡ v % 32 + 32
marked v = (==_iff _ _).0 (all_below_sound 32 _ (v % 32) marked_table (omega arith))

pub pow-add_five : (s : ℕ) → 2 ^ (s + 5) ≡ 32 * 2 ^ s
pow-add_five s = simp towards_suc (
    omega (
      arith,
      pow-suc 2 s,
      pow-suc 2 (suc s),
      pow-suc 2 (suc (suc s)),
      pow-suc 2 (suc (suc (suc s))),
      pow-suc 2 (suc (suc (suc (suc s)))),
    ))

regroup : (r v p : ℕ) → r + v % 32 * p + v / 32 * (32 * p) ≡ r + v * p
regroup r v p = omega (arith, ap (λ (t : ℕ). t * p) (split v))
  where
    split : (v : ℕ) → v ≡ 32 * (v / 32) + v % 32
    split v = omega arith

-- The last group of a chunk.
decode_chunk-last :
    (v r s : ℕ) (rest : List ℕ)
    → v < 32
    → r < 2 ^ s
    → decode_chunk ((v + 63) % 256 ∷ rest) r s ≡ some (unzigzag (r + v * 2 ^ s), rest)
unfolding decode_chunk
decode_chunk-last v r s rest small fits =
    let low : ((v + 63) % 256 + 1) % 32 ≡ v = omega arith in
    let ends : ltb ((v + 63) % 256) 95 ≡ true = ground arith in
    rw (low, bit_or_above s r v fits, ends)

-- A group that another one follows.
decode_chunk-more :
    (v r s : ℕ) (rest : List ℕ)
    → s ≤ 25
    → r < 2 ^ s
    → decode_chunk ((bit_or 0x20 (v % 32) + 63) % 256 ∷ rest) r s
      ≡ decode_chunk rest (r + v % 32 * 2 ^ s) (s + 5)
unfolding decode_chunk
decode_chunk-more v r s rest room fits =
    let low : ((v % 32 + 32 + 63) % 256 + 1) % 32 ≡ v % 32 = omega arith in
    let goes_on : ltb ((v % 32 + 32 + 63) % 256) 95 ≡ false = ground arith in
    let within : ltb 30 (s + 5) ≡ false = ground arith in
    rw (marked v, low, bit_or_above s r (v % 32) fits, goes_on, within)

decode_chunk-groups :
    (j k v r s : ℕ) (rest : List ℕ)
    → v < 32 ^ suc j
    → s + 5 * j ≤ 30
    → r < 2 ^ s
    → j < k
    → decode_chunk (groups k v ++ rest) r s ≡ some (unzigzag (r + v * 2 ^ s), rest)
unfolding groups
decode_chunk-groups j zero v r s rest small room fits fuel = absurd (omega arith)
decode_chunk-groups zero (suc k) v r s rest small room fits fuel =
    let one : leb 0x20 v ≡ false = ground arith in rw one (decode_chunk-last v r s rest small fits)
decode_chunk-groups (suc j) (suc k) v r s rest small room fits fuel =
    elim (Bool-cases (leb 0x20 v)) [
      | inr one ↦ rw one (decode_chunk-last v r s rest (ground arith) fits)
      | inl two ↦ rw two (
          decode_chunk-more v r s (groups k (v / 32) ++ rest) (omega arith) fits
          ∙ decode_chunk-groups j k (v / 32) (r + v % 32 * 2 ^ s) (s + 5) rest
              (omega (arith, pow-suc 32 (suc j))) (omega arith) above (omega arith)
          ∙ ap (λ t. some (unzigzag t, rest)) (rw pow-add_five (regroup r v (2 ^ s))))
    ]
  where
    above : r + v % 32 * 2 ^ s < 2 ^ (s + 5)
    above = rw pow-add_five (grind (arith))

zigzag-lt : (v : ℤ) → pos_part v < 2 ^ 34 → neg_part v ≤ 2 ^ 34 → zigzag v < 32 ^ 7
unfolding zigzag
zigzag-lt (pos n) above below = ground arith
zigzag-lt (negsuc n) above below = ground arith

unzigzag-zigzag :
    (v : ℤ) → pos_part v < 2 ^ 34 → neg_part v ≤ 2 ^ 34 → unzigzag (0 + zigzag v * 2 ^ 0) ≡ v
unfolding zigzag
unzigzag-zigzag (pos n) above below = ground arith
unzigzag-zigzag (negsuc n) above below = ground arith

-- Reading back what was written gives the value and the text behind it, for every value of which
-- the zigzag code fits 35 bits.
pub decode_chunk-encode_chunk :
    (v : ℤ) (rest : List ℕ)
    → pos_part v < 2 ^ 34
    → neg_part v ≤ 2 ^ 34
    → decode_chunk (encode_chunk v ++ rest) 0 0 ≡ some (v, rest)
unfolding encode_chunk
decode_chunk-encode_chunk v rest above below =
    decode_chunk-groups 6 13 (zigzag v) 0 0 rest (zigzag-lt v above below) (omega arith)
      (omega arith) (omega arith)
    ∙ ap (λ t. some (t, rest)) (unzigzag-zigzag v above below)
