-- ===== src/Realtime/Slots/Laws.antt =====
-- The caps hold after every call of Acquire and Release.
use geo.Base.{
  Option, none, some, ℕ, suc, List, [], ◌∷◌, Bool, true, ◌≡◌, length, if_cases, arith, ◌≤◌, ◌<◌,
  not, ◌==◌, leb, Any, inl, ==_self, refl, ◌&&◌,
}
use geo.Base.Int.{ℤ, is_pos, pos_part, ◌==ℤ◌}
use geo.Realtime.Slots.{
  Member, Sets, ConnLimitConfig, ConnSlot, RedisCall, SlotError, prune, z_rem, z_add, at_ip,
  at_user, prune_and_check, add_slot, after_user, after_ip, after_global, acquire_slot, add_rest,
  add_user, check_ip, check_global, check_user,
}

-- A set within its cap, and with room for one more, where there is a cap.
abbrev pub Within : ℤ → List Member → Type 0
Within most ms = is_pos most ≡ true → length ms ≤ pos_part most

abbrev Room : ℤ → List Member → Type 0
Room most ms = is_pos most ≡ true → length ms < pos_part most

pub record IsCapped (cfg : ConnLimitConfig) (s : Sets) : Type 0 where
  pub global : Within cfg.max_global s.global
  pub per_ip : (a : ℕ) → Within cfg.max_per_ip (s.per_ip a)
  pub per_user : (u : ℤ) → Within cfg.max_per_user (s.per_user u)

length-prune : (ttl now : ℕ) (ms : List Member) → length (prune ttl now ms) ≤ length ms
unfolding prune
length-prune ttl now [] = omega arith
length-prune ttl now (m ∷ ms) = ground (arith, length-prune ttl now ms)

pub length-z_rem : (id : ℕ) (ms : List Member) → length (z_rem id ms) ≤ length ms
unfolding z_rem
length-z_rem id [] = omega arith
length-z_rem id (m ∷ ms) = ground (arith, length-z_rem id ms)

length-z_add : (now id : ℕ) (ms : List Member) → length (z_add now id ms) ≤ suc (length ms)
unfolding z_add
length-z_add now id ms = omega (arith, length-z_rem id ms)

-- After a check there is room where it passed, and the cap holds anyhow.
abbrev Passed : ℤ → List Member × Option SlotError → Type 0
Passed most (ms, none) = Room most ms
Passed most (ms, some e) = Within most ms

prune_and_check-Passed :
    (ttl now : ℕ) (up : Bool) (most : ℤ) (ms : List Member)
    → Within most ms
    → Passed most (prune_and_check ttl now up most ms)
unfolding prune_and_check
prune_and_check-Passed ttl now up most ms h =
    if_cases (Passed most) (not (is_pos most)) (λ none_set capped. ground (none_set, capped, arith))
      λ capped.
        if_cases (Passed most) (not up) (λ _. h)
          λ answers.
            if_cases (Passed most) (leb (pos_part most) (length (prune ttl now ms)))
              (λ full positive. omega (arith, length-prune ttl now ms, h positive))
              (λ room positive. ground (arith, room))

z_add-Within :
    (most : ℤ) (now id : ℕ) (ms : List Member) → Room most ms → Within most (z_add now id ms)
z_add-Within most now id ms h positive = omega (arith, length-z_add now id ms, h positive)

pub at_ip-Within :
    (most : ℤ) (sets : ℕ → List Member) (a : ℕ) (ms : List Member)
    → ((b : ℕ) → Within most (sets b))
    → Within most ms
    → (b : ℕ) → Within most (at_ip sets a ms b)
at_ip-Within most sets a ms h k b = if_cases (Within most) (b == a) (λ _. k) (λ _. h b)

pub at_user-Within :
    (most : ℤ) (sets : ℤ → List Member) (a : ℤ) (ms : List Member)
    → ((b : ℤ) → Within most (sets b))
    → Within most ms
    → (b : ℤ) → Within most (at_user sets a ms b)
at_user-Within most sets a ms h k b = if_cases (Within most) (b ==ℤ a) (λ _. k) (λ _. h b)

Room-Within : (most : ℤ) (ms : List Member) → Room most ms → Within most ms
Room-Within most ms h positive = omega (arith, h positive)

module _ (cfg : ConnLimitConfig) (up : RedisCall → Bool) (now : ℕ) (slot : ConnSlot) where
  -- A member of a set.
  abbrev pub Has : List Member → Type 0
  Has ms = Any (λ m. m.member ≡ slot.connection_id) ms

  -- The caps hold, and a slot that was given stands in the set of all and in that of its address.
  abbrev pub IsAcquired : Sets × Option SlotError → Type 0
  IsAcquired (s, none) = IsCapped cfg s × Has s.global × Has (s.per_ip slot.client_ip)
  IsAcquired (s, some e) = IsCapped cfg s

  has_lem : (ms : List Member) → Has (z_add now slot.connection_id ms)
  unfolding z_add
  has_lem ms = inl refl

  here_lem :
      (s : Sets)
      → Has (
          at_ip s.per_ip slot.client_ip
            (z_add now slot.connection_id (s.per_ip slot.client_ip))
            slot.client_ip)
  here_lem s = rw (==_self slot.client_ip) (has_lem (s.per_ip slot.client_ip))

  add_slot-IsAcquired :
      (s : Sets)
      → IsCapped cfg s
      → Room cfg.max_global s.global
      → Room cfg.max_per_ip (s.per_ip slot.client_ip)
      → IsAcquired (add_slot cfg up now slot s)
  unfolding add_slot
  add_slot-IsAcquired s capped all here =
      if_cases IsAcquired (up add_rest)
        (λ _. (
          record {
            global = z_add-Within cfg.max_global now slot.connection_id s.global all;
            per_ip =
                at_ip-Within cfg.max_per_ip s.per_ip slot.client_ip _ capped.per_ip
                  (z_add-Within cfg.max_per_ip now slot.connection_id _ here);
            per_user = capped.per_user;
          },
          has_lem s.global,
          here_lem s,
        ))
        (λ _. capped)

  after_user-IsAcquired :
      (s : Sets) (step : List Member × Option SlotError)
      → IsCapped cfg s
      → Room cfg.max_global s.global
      → Room cfg.max_per_ip (s.per_ip slot.client_ip)
      → Passed cfg.max_per_user step
      → IsAcquired (after_user cfg up now slot s step)
  unfolding after_user
  after_user-IsAcquired s (ms, some e) capped all here passed = record {
    per_user = at_user-Within cfg.max_per_user s.per_user slot.user_id ms capped.per_user passed;
    global = capped.global;
    per_ip = capped.per_ip;
  }
  after_user-IsAcquired s (ms, none) capped all here passed =
      if_cases IsAcquired (up add_user)
        (λ _.
          add_slot-IsAcquired _
            (record {
              per_user =
                  at_user-Within cfg.max_per_user s.per_user slot.user_id _ capped.per_user
                    (z_add-Within cfg.max_per_user now slot.connection_id ms passed);
              global = capped.global;
              per_ip = capped.per_ip;
            })
            all here)
        (λ _. record {
          per_user =
              at_user-Within cfg.max_per_user s.per_user slot.user_id ms capped.per_user
                (Room-Within cfg.max_per_user ms passed);
          global = capped.global;
          per_ip = capped.per_ip;
        })

  after_ip-IsAcquired :
      (s : Sets) (step : List Member × Option SlotError)
      → IsCapped cfg s
      → Room cfg.max_global s.global
      → Passed cfg.max_per_ip step
      → IsAcquired (after_ip cfg up now slot s step)
  unfolding after_ip
  after_ip-IsAcquired s (ms, some e) capped all passed = record {
    per_ip = at_ip-Within cfg.max_per_ip s.per_ip slot.client_ip ms capped.per_ip passed;
    global = capped.global;
    per_user = capped.per_user;
  }
  after_ip-IsAcquired s (ms, none) capped all passed =
      let capped' : IsCapped cfg (record s { per_ip = at_ip s.per_ip slot.client_ip ms }) = record {
        per_ip =
            at_ip-Within cfg.max_per_ip s.per_ip slot.client_ip ms capped.per_ip
              (Room-Within cfg.max_per_ip ms passed);
        global = capped.global;
        per_user = capped.per_user;
      } in
      let here : Room cfg.max_per_ip (at_ip s.per_ip slot.client_ip ms slot.client_ip) =
        rw (==_self slot.client_ip) passed in
      if_cases IsAcquired (is_pos slot.user_id && is_pos cfg.max_per_user)
        (λ _. after_user-IsAcquired _ _ capped' all here (
          prune_and_check-Passed cfg.slot_ttl now (up check_user) cfg.max_per_user _
            (capped.per_user slot.user_id)))
        (λ _. add_slot-IsAcquired _ capped' all here)

  after_global-IsAcquired :
      (s : Sets) (step : List Member × Option SlotError)
      → IsCapped cfg s
      → Passed cfg.max_global step
      → IsAcquired (after_global cfg up now slot s step)
  unfolding after_global
  after_global-IsAcquired s (ms, some e) capped passed = record {
    global = passed;
    per_ip = capped.per_ip;
    per_user = capped.per_user;
  }
  after_global-IsAcquired s (ms, none) capped passed =
      after_ip-IsAcquired _ _
        (record {
          global = Room-Within cfg.max_global ms passed;
          per_ip = capped.per_ip;
          per_user = capped.per_user;
        })
        passed
        (prune_and_check-Passed cfg.slot_ttl now (up check_ip) cfg.max_per_ip _
          (capped.per_ip slot.client_ip))

  -- When no other node comes between its calls, Acquire keeps every set that has a cap within it,
  -- whichever call of Redis fails; and a slot that it gives stands in the set of all connections and
  -- in that of its address.
  pub acquire_slot-IsAcquired :
      (s : Sets) → IsCapped cfg s → IsAcquired (acquire_slot cfg up now slot s)
  unfolding acquire_slot
  acquire_slot-IsAcquired s capped = after_global-IsAcquired s _ capped (
      prune_and_check-Passed cfg.slot_ttl now (up check_global) cfg.max_global s.global
        capped.global)
