-- ===== src/Realtime/Slots.antt =====
-- internal/wsplatform/redis_limits.go: the caps on connections that all nodes share. A sorted set of
-- Redis is the list of its members with their scores, each member once; times are whole seconds. A
-- call of Redis goes through whole or fails and changes nothing: `up` says which.
pub mod Laws
pub mod Expiry
use geo.Base.{
  Option, none, some, ℕ, ◌+◌, List, [], ◌∷◌, Bool, not, ◌&&◌, ◌==◌, leb, length, if◌then◌else◌,
}
use geo.Base.Int.{ℤ, is_pos, pos_part, ◌==ℤ◌}

-- redis.Z
pub record Member : Type 0 where
  pub member : ℕ
  pub score : ℕ

-- The sets under <prefix>global, <prefix>ip:<ip> and <prefix>user:<id>.
pub record Sets : Type 0 where
  pub global : List Member
  pub per_ip : ℕ → List Member
  pub per_user : ℤ → List Member

-- ConnLimitConfig
pub record ConnLimitConfig : Type 0 where
  pub max_global : ℤ
  pub max_per_ip : ℤ
  pub max_per_user : ℤ
  pub slot_ttl : ℕ

pub record ConnSlot : Type 0 where
  pub connection_id : ℕ
  pub client_ip : ℕ
  pub user_id : ℤ

-- The calls of Redis in Acquire, in their order.
pub data RedisCall : Type 0 where
  check_global check_ip check_user add_user add_rest : RedisCall

pub data SlotError : Type 0 where
  redis_failed limit_exceeded : SlotError

-- ZREMRANGEBYSCORE key -inf (now - ttl)
pub prune : ℕ → ℕ → List Member → List Member
prune ttl now [] = []
prune ttl now (m ∷ ms) =
    let rest = prune ttl now ms in if leb (m.score + ttl) now then rest else m ∷ rest

-- ZREM key id
pub z_rem : ℕ → List Member → List Member
z_rem id [] = []
z_rem id (m ∷ ms) = let rest = z_rem id ms in if m.member == id then rest else m ∷ rest

-- ZADD key now id: a member that is there gets the new score.
pub z_add : ℕ → ℕ → List Member → List Member
unfolding z_rem
z_add now id ms = record { member = id; score = now } ∷ z_rem id ms

abbrev pub at_ip : (ℕ → List Member) → ℕ → List Member → ℕ → List Member
at_ip sets a ms b = if b == a then ms else sets b

abbrev pub at_user : (ℤ → List Member) → ℤ → List Member → ℤ → List Member
at_user sets a ms b = if b ==ℤ a then ms else sets b

-- pruneAndCheck on one set
pub prune_and_check : ℕ → ℕ → Bool → ℤ → List Member → List Member × Option SlotError
unfolding prune
prune_and_check ttl now up most ms =
    if not (is_pos most)
    then (ms, none)
    else if not up
    then (ms, some redis_failed)
    else let ms' = prune ttl now ms in
      if leb (pos_part most) (length ms') then (ms', some limit_exceeded) else (ms', none)

module _ (cfg : ConnLimitConfig) (up : RedisCall → Bool) (now : ℕ) (slot : ConnSlot) where
  abbrev pub check : RedisCall → ℤ → List Member → List Member × Option SlotError
  check call most ms = prune_and_check cfg.slot_ttl now (up call) most ms

  -- The last pipeline of Acquire
  pub add_slot : Sets → Sets × Option SlotError
  unfolding z_add
  add_slot s =
      if up add_rest
      then (
        record {
          global = z_add now slot.connection_id s.global;
          per_ip =
              at_ip s.per_ip slot.client_ip
                (z_add now slot.connection_id (s.per_ip slot.client_ip));
          per_user = s.per_user;
        },
        none,
      )
      else (s, some redis_failed)

  -- Acquire once the user's set is checked
  pub after_user : Sets → List Member × Option SlotError → Sets × Option SlotError
  unfolding add_slot
  after_user s (ms, some e) = (record s { per_user = at_user s.per_user slot.user_id ms }, some e)
  after_user s (ms, none) =
      if up add_user
      then add_slot (record s {
        per_user = at_user s.per_user slot.user_id (z_add now slot.connection_id ms);
      })
      else (record s { per_user = at_user s.per_user slot.user_id ms }, some redis_failed)

  -- Acquire once the set of the address is checked
  pub after_ip : Sets → List Member × Option SlotError → Sets × Option SlotError
  unfolding after_user
  after_ip s (ms, some e) = (record s { per_ip = at_ip s.per_ip slot.client_ip ms }, some e)
  after_ip s (ms, none) =
      let s' = record s { per_ip = at_ip s.per_ip slot.client_ip ms } in
      if is_pos slot.user_id && is_pos cfg.max_per_user
      then after_user s' (check check_user cfg.max_per_user (s.per_user slot.user_id))
      else add_slot s'

  -- Acquire once the global set is checked
  pub after_global : Sets → List Member × Option SlotError → Sets × Option SlotError
  unfolding after_ip
  after_global s (ms, some e) = (record s { global = ms }, some e)
  after_global s (ms, none) =
      after_ip (record s { global = ms }) (check check_ip cfg.max_per_ip (s.per_ip slot.client_ip))

  -- Acquire, with Redis configured
  pub acquire_slot : Sets → Sets × Option SlotError
  unfolding after_global prune_and_check
  acquire_slot s = after_global s (check check_global cfg.max_global s.global)

-- Release: its errors are dropped.
pub release_slot : Bool → ConnSlot → Sets → Sets
unfolding z_rem
release_slot up slot s =
    if up
    then record {
      global = z_rem slot.connection_id s.global;
      per_ip = at_ip s.per_ip slot.client_ip (z_rem slot.connection_id (s.per_ip slot.client_ip));
      per_user =
          if is_pos slot.user_id
          then at_user s.per_user slot.user_id (z_rem slot.connection_id (s.per_user slot.user_id))
          else s.per_user;
    }
    else s

-- Heartbeat, likewise
pub heartbeat : Bool → ℕ → ConnSlot → Sets → Sets
unfolding z_add
heartbeat up now slot s =
    if up
    then record {
      global = z_add now slot.connection_id s.global;
      per_ip =
          at_ip s.per_ip slot.client_ip (z_add now slot.connection_id (s.per_ip slot.client_ip));
      per_user =
          if is_pos slot.user_id
          then at_user s.per_user slot.user_id
              (z_add now slot.connection_id (s.per_user slot.user_id))
          else s.per_user;
    }
    else s
