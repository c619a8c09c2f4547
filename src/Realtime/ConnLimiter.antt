-- ===== src/Realtime/ConnLimiter.antt =====
-- internal/wsnearby/limiter.go: ConnLimiter, the caps on open connections by address and in all.
-- The mutex makes each call one step. Addresses are numbers here; only their equality is used.
pub mod Laws
use geo.Base.{ℕ, ◌+◌, ◌-◌, Bool, true, false, ltb, leb, ◌==◌, if◌then◌else◌}
use geo.Base.Int.{ℤ, pos, negsuc}

-- A missing key of perIP reads as 0, and `delete` removes one that came to 0.
pub record ConnLimiter : Type 0 where
  pub per_ip : ℕ → ℕ
  pub global : ℕ
  pub max_ip : ℕ
  pub max_glob : ℕ

abbrev default_if_not_positive : ℕ → ℤ → ℕ
default_if_not_positive d (pos n) = if ltb 0 n then n else d
default_if_not_positive d (negsuc n) = d

-- NewConnLimiter
pub new_conn_limiter : ℤ → ℤ → ConnLimiter
new_conn_limiter max_per_ip max_global = record {
  per_ip = λ ip. 0;
  global = 0;
  max_ip = default_if_not_positive 10 max_per_ip;
  max_glob = default_if_not_positive 2000 max_global;
}

abbrev set_count : (ℕ → ℕ) → ℕ → ℕ → ℕ → ℕ
set_count m ip n j = if ip == j then n else m j

-- Acquire
pub acquire : ConnLimiter → ℕ → ConnLimiter × Bool
acquire l ip =
    if leb l.max_glob l.global
    then (l, false)
    else if leb l.max_ip (l.per_ip ip)
    then (l, false)
    else (
      record l { per_ip = set_count l.per_ip ip (l.per_ip ip + 1); global = l.global + 1 },
      true,
    )

-- Release
pub release : ConnLimiter → ℕ → ConnLimiter
release l ip = record l {
  per_ip = if ltb 0 (l.per_ip ip) then set_count l.per_ip ip (l.per_ip ip - 1) else l.per_ip;
  global = if ltb 0 l.global then l.global - 1 else l.global;
}
