-- ===== src/Base/Result.antt =====
-- A Go call that gives a value and an error: exactly one of them counts.
pub data Result {ℓ κ} (E : Type ℓ) (A : Type κ) : Type (ℓ ⊔ κ) where
  ok : A → Result E A
  err : E → Result E A
