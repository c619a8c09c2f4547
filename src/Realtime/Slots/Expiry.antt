-- ===== src/Realtime/Slots/Expiry.antt =====
-- Release and Heartbeat: what they do to the caps.
use geo.Base.{
  ℕ, List, [], ◌∷◌, Bool, true, Any, arith, if_cases, ◌≡◌, Bool-cases, length, ap, ◌==◌, inl,
  ==_iff, inr, refl,
}
use geo.Base.Int.{ℤ, is_pos, pos_part}
use geo.Realtime.Slots.{
  Member, Sets, ConnLimitConfig, ConnSlot, z_rem, z_add, release_slot, heartbeat,
}
use geo.Realtime.Slots.Laws.{IsCapped, Within, length-z_rem, at_ip-Within, at_user-Within}

z_rem-Within : (most : ℤ) (id : ℕ) (ms : List Member) → Within most ms → Within most (z_rem id ms)
z_rem-Within most id ms h positive = omega (arith, length-z_rem id ms, h positive)

release_slot-IsCapped :
    (cfg : ConnLimitConfig) (up : Bool) (slot : ConnSlot) (s : Sets)
    → IsCapped cfg s
    → IsCapped cfg (release_slot up slot s)
unfolding release_slot
release_slot-IsCapped cfg up slot s capped =
    if_cases (IsCapped cfg) up
      (λ _. record {
        global = z_rem-Within cfg.max_global slot.connection_id s.global capped.global;
        per_ip =
            at_ip-Within cfg.max_per_ip s.per_ip slot.client_ip _ capped.per_ip
              (z_rem-Within cfg.max_per_ip slot.connection_id _ (capped.per_ip slot.client_ip));
        per_user =
            if_cases (λ (sets : ℤ → List Member). (u : ℤ) → Within cfg.max_per_user (sets u))
              (is_pos slot.user_id)
              (λ _.
                at_user-Within cfg.max_per_user s.per_user slot.user_id _ capped.per_user (
                  z_rem-Within cfg.max_per_user slot.connection_id _
                    (capped.per_user slot.user_id)))
              (λ _. capped.per_user);
      })
      (λ _. capped)

z_rem-absent : (id : ℕ) (ms : List Member) → (Any (λ m. m.member ≡ id) ms → ⊥) → z_rem id ms ≡ ms
unfolding z_rem
z_rem-absent id [] absent = refl
z_rem-absent id (m ∷ ms) absent = elim (Bool-cases (m.member == id)) [
  | inl same ↦ absurd (absent (inl ((==_iff m.member id).0 same)))
  | inr other ↦ rw (other, z_rem) (ap (λ t. m ∷ t) (z_rem-absent id ms (λ h. absent (inr h))))
]

-- Heartbeat does not look at the caps: when the set of all connections is full and the slot is not in
-- it, since it expired and was pruned, a heartbeat that reaches Redis leaves more connections than
-- the cap.
pub heartbeat-past_cap :
    (cfg : ConnLimitConfig) (now : ℕ) (slot : ConnSlot) (s : Sets)
    → is_pos cfg.max_global ≡ true
    → length s.global ≡ pos_part cfg.max_global
    → (Any (λ m. m.member ≡ slot.connection_id) s.global → ⊥)
    → ¬ IsCapped cfg (heartbeat true now slot s)
unfolding heartbeat z_add
heartbeat-past_cap cfg now slot s positive full absent capped =
    let size : length (z_rem slot.connection_id s.global) ≡ length s.global =
      ap length (z_rem-absent slot.connection_id s.global absent) in
    omega (arith, capped.global positive, size, full)
