-- ===== src/Realtime/ConnLimiter/Laws.antt =====
-- The limiter counts the connections that are open, and lets no more in than the caps allow.
use geo.Base.{
  ℕ, ◌+◌, ◌-◌, ◌≤◌, ◌<◌, ◌≡◌, refl, ◌⊎◌, inl, inr, true, false, List, [], ◌∷◌, arith, leb, ◌==◌,
  if◌then◌else◌, Bool-cases, length,
}
use Prim.Native.Nat.{ℕ}
use geo.Realtime.ConnLimiter.{ConnLimiter, acquire, release}

-- The connections that are open, by their addresses.
abbrev pub count : ℕ → List ℕ → ℕ
count ip [] = 0
count ip (x ∷ xs) = (if x == ip then 1 else 0) + count ip xs

-- The list without one connection of the address.
abbrev pub close_one : ℕ → List ℕ → List ℕ
close_one ip [] = []
close_one ip (x ∷ xs) = let rest = close_one ip xs in if x == ip then xs else x ∷ rest

-- The counters are those of the connections that are open, and the caps hold.
pub record Tracks (l : ConnLimiter) (live : List ℕ) : Type 0 where
  pub counted : (ip : ℕ) → l.per_ip ip ≡ count ip live
  pub total : l.global ≡ length live
  pub within_ip : (ip : ℕ) → l.per_ip ip ≤ l.max_ip
  pub within_global : l.global ≤ l.max_glob

count-close_one :
    (ip j : ℕ) (live : List ℕ)
    → count j (close_one ip live) ≡ count j live - (if ip == j then 1 else 0)
count-close_one ip j [] = ground arith
count-close_one ip j (x ∷ live) = ground (arith, count-close_one ip j live)

length-close_one :
    (ip : ℕ) (live : List ℕ) → 0 < count ip live → length (close_one ip live) + 1 ≡ length live
length-close_one ip [] h = absurd (omega arith)
length-close_one ip (x ∷ live) h = ground (arith, length-close_one ip live)

-- A connection that is let in is counted; one that is refused leaves the limiter as it was, and is
-- refused exactly when a cap is reached.
pub acquire-Tracks :
    (l : ConnLimiter) (live : List ℕ) (ip : ℕ)
    → Tracks l live
    → ((acquire l ip).1 ≡ true) × Tracks (acquire l ip).0 (ip ∷ live)
      ⊎ ((acquire l ip).1 ≡ false)
        × ((acquire l ip).0 ≡ l)
        × ((l.global ≡ l.max_glob) ⊎ (l.per_ip ip ≡ l.max_ip))
unfolding acquire
acquire-Tracks l live ip t = elim (Bool-cases (leb l.max_glob l.global)) [
  | inl full ↦ inr (rw full refl, rw full refl, inl (ground (arith, t.within_global)))
  | inr room ↦ elim (Bool-cases (leb l.max_ip (l.per_ip ip))) [
    | inl full ↦
        inr (rw (room, full) refl, rw (room, full) refl, inr (ground (arith, t.within_ip ip)))
    | inr free ↦ inl (
      rw (room, free) refl,
      rw (room, free)
          (record {
            counted = λ j. ground (arith, t.counted j, t.counted ip);
            total = omega (arith, t.total);
            within_ip = λ j. ground (arith, t.within_ip j, t.within_ip ip);
            within_global = ground (arith, t.within_global);
          }),
    )
  ]
]

-- Closing a connection that is open gives its place back.
pub release-Tracks :
    (l : ConnLimiter) (live : List ℕ) (ip : ℕ)
    → Tracks l live
    → 0 < count ip live
    → Tracks (release l ip) (close_one ip live)
unfolding release
release-Tracks l live ip t h = record {
  counted = λ j. ground (arith, t.counted j, t.counted ip, count-close_one ip j live);
  total = ground (arith, t.total, length-close_one ip live h);
  within_ip = λ j. ground (arith, t.within_ip j, t.within_ip ip);
  within_global = ground (arith, t.within_global);
}
