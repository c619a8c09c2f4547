-- ===== src/Service/Limits.antt =====
-- internal/service: the defaults and caps of radius and limit, of which SearchNearby makes the
-- query. Radii are float64 and no NaN.
use geo.Base.{
  refl, if◌then◌else◌, ltb, ◌*◌, ◌+◌, ◌≡◌, true, ℕ, suc, ◌<◌, arith, Bool-cases, inl, inr, zero,
}
use mathlib.Core.Bool.{false≢true}
use geo.Base.Int.{ℤ, pos, negsuc, is_pos, ltb_ℤ}
use geo.Base.Float.{Float, le_float}

-- maxShipmentLimit, defaultShipmentLimit
abbrev pub max_shipment_limit : ℤ
max_shipment_limit = pos 500

abbrev pub default_shipment_limit : ℤ
default_shipment_limit = pos 100

-- `if limit <= 0 {limit = default}; if limit > maxShipmentLimit {limit = maxShipmentLimit}`
pub effective_limit : ℤ → ℤ → ℤ
effective_limit default_limit limit =
    let chosen = if is_pos limit then limit else default_limit in
    if ltb_ℤ max_shipment_limit chosen then max_shipment_limit else chosen

-- `candidateLimit := limit * 3`, with the same cap; the limit is at most 500.
pub candidate_limit : ℤ → ℤ
candidate_limit (pos n) = if ltb 500 (n * 3) then max_shipment_limit else pos (n * 3)
candidate_limit (negsuc n) = negsuc (n * 3 + 2)

cap_pos :
    (z : ℤ)
    → is_pos z ≡ true
    → (n : ℕ) × ((if ltb_ℤ max_shipment_limit z then max_shipment_limit else z) ≡ pos (suc n))
      × (n < 500)
cap_pos (pos zero) h = absurd (ground arith)
cap_pos (pos (suc n)) h = elim (Bool-cases (ltb 500 (suc n))) [
  | inl large ↦ (499, rw large refl, omega arith)
  | inr small ↦ (n, rw small refl, ground arith)
]
cap_pos (negsuc n) h = absurd (false≢true h)

-- With a default of at least 1 the limit of a search lies between 1 and 500.
pub effective_limit_pos :
    (default_limit limit : ℤ)
    → is_pos default_limit ≡ true
    → (n : ℕ) × (effective_limit default_limit limit ≡ pos (suc n)) × (n < 500)
unfolding effective_limit
effective_limit_pos default_limit limit h = elim (Bool-cases (is_pos limit)) [
  | inl given ↦ rw given (cap_pos limit given)
  | inr missing ↦ rw missing (cap_pos default_limit h)
]

module _ (f : Float) where
  -- maxNearbySearchRadiusKm = 50
  abbrev pub max_radius : f.F
  max_radius = f.lit 50 0

  pub effective_radius : f.F → f.F → f.F
  effective_radius default_radius radius =
      let chosen = if le_float f radius f.zero then default_radius else radius in
      if f.lt max_radius chosen then max_radius else chosen
