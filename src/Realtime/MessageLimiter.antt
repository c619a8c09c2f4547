-- ===== src/Realtime/MessageLimiter.antt =====
-- internal/wsnearby/limiter.go: MessageLimiter, the token bucket of one connection. The clock is an
-- argument: `elapsed` is the seconds since the last message.
use geo.Base.{
  All, refl, ap, ℕ, zero, suc, ◌≡◌, Bool, true, false, if◌then◌else◌, Bool-cases, List, [], ◌∷◌,
  inl, inr, if_cases, ◌∙◌,
}
use geo.Base.Int.{ℤ, pos, negsuc}
use geo.Base.Float.{Float, IsOrdered, IsSigned, le_float}

module _ (f : Float) where
  pub record MessageLimiter : Type 0 where
    pub rate : f.F
    pub burst : f.F
    pub tokens : f.F

  abbrev positive_or_five : ℤ → ℕ
  positive_or_five (pos zero) = 5
  positive_or_five (pos (suc n)) = suc n
  positive_or_five (negsuc n) = 5

  -- NewMessageLimiter
  pub new_message_limiter : f.F → ℤ → MessageLimiter
  new_message_limiter per_sec burst = record {
    rate = if le_float f per_sec f.zero then f.lit 2 0 else per_sec;
    burst = f.lit (positive_or_five burst) 0;
    tokens = f.lit (positive_or_five burst) 0;
  }

  -- The tokens after the refill, no more than the burst.
  pub refill : f.F → MessageLimiter → f.F
  refill elapsed m =
      let filled = f.add m.tokens (f.mul elapsed m.rate) in
      if f.lt m.burst filled then m.burst else filled

  -- Allow
  pub allow : f.F → MessageLimiter → MessageLimiter × Bool
  unfolding refill
  allow elapsed m =
      let tokens = refill elapsed m in
      if f.lt tokens (f.lit 1 0)
      then (record m { tokens = tokens }, false)
      else (record m { tokens = f.sub tokens (f.lit 1 0) }, true)

  pub allow_all : List f.F → MessageLimiter → MessageLimiter
  unfolding allow
  allow_all [] m = m
  allow_all (elapsed ∷ rest) m = allow_all rest (allow elapsed m).0

  module _ (ordered : IsOrdered f) (signed : IsSigned f) where
    refill-le : (elapsed : f.F) (m : MessageLimiter) → f.lt m.burst (refill elapsed m) ≡ false
    unfolding refill
    refill-le elapsed m = elim (Bool-cases (f.lt m.burst (f.add m.tokens (f.mul elapsed m.rate)))) [
      | inl full ↦ rw full (ordered.lt_irrefl m.burst)
      | inr room ↦ rw room room
    ]

    -- The bucket is never fuller than the burst, and not empty below zero.
    pub record IsBucket (m : MessageLimiter) : Type 0 where
      pub capped : f.lt m.burst m.tokens ≡ false
      pub funded : f.lt m.tokens f.zero ≡ false

    refill_nonneg :
        (elapsed : f.F) (m : MessageLimiter)
        → IsBucket m
        → f.lt elapsed f.zero ≡ false
        → f.lt m.rate f.zero ≡ false
        → f.lt (refill elapsed m) f.zero ≡ false
    unfolding refill
    refill_nonneg elapsed m b passed positive =
        if_cases (λ x. f.lt x f.zero ≡ false) (f.lt m.burst (f.add m.tokens (f.mul elapsed m.rate)))
          (λ _. ordered.le_trans _ _ _ b.funded b.capped)
          (λ _. ordered.le_trans _ _ _ b.funded (
            ordered.le-add m.tokens (f.mul elapsed m.rate)
              (signed.mul_nonneg elapsed m.rate passed positive)))

    allow-IsBucket :
        (elapsed : f.F) (m : MessageLimiter)
        → IsBucket m
        → f.lt elapsed f.zero ≡ false
        → f.lt m.rate f.zero ≡ false
        → IsBucket (allow elapsed m).0 × ((allow elapsed m).0.rate ≡ m.rate)
    unfolding allow
    allow-IsBucket elapsed m b passed positive =
        let tokens = refill elapsed m in
        elim (Bool-cases (f.lt tokens (f.lit 1 0))) [
          | inl short ↦ rw short (
            record {
              capped = refill-le elapsed m;
              funded = refill_nonneg elapsed m b passed positive;
            },
            refl,
          )
          | inr enough ↦ rw enough (
            record {
              capped =
                  ordered.le_trans _ _ _ (signed.sub-le tokens (f.lit 1 0) (signed.lit_nonneg 1 0))
                    (refill-le elapsed m);
              funded = signed.sub_nonneg tokens (f.lit 1 0) enough;
            },
            refl,
          )
        ]

    -- Through any messages, with times between them and a rate that are not negative, the tokens
    -- stay between zero and the burst.
    pub allow_all-IsBucket :
        (times : List f.F) (m : MessageLimiter)
        → All (λ t. f.lt t f.zero ≡ false) times
        → f.lt m.rate f.zero ≡ false
        → IsBucket m
        → IsBucket (allow_all times m)
    unfolding allow_all
    allow_all-IsBucket [] m passed positive b = b
    allow_all-IsBucket (t ∷ times) m passed positive b =
        let (next, kept) = allow-IsBucket t m b passed.0 positive in
        allow_all-IsBucket times (allow t m).0 passed.1 (ap (λ r. f.lt r f.zero) kept ∙ positive)
          next
