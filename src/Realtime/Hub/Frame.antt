-- ===== src/Realtime/Hub/Frame.antt =====
-- An operation on one trip leaves the others as they are.

use geo.Base.{
  ℕ, ◌≡◌, refl, true, false, ==_self, List, [], ◌∷◌, Bool-cases, Option-cases, List-cases, arith,
  inl, inr,
}
use geo.Service.Drivers.{parse_int}
use geo.Realtime.Hub.{same_trip, remove, Hub, start_subscription, register, drop_trip, unregister}

pub same_trip_sound : (s t : List ℕ) → same_trip s t ≡ true → s ≡ t
unfolding same_trip
same_trip_sound [] [] h = refl
same_trip_sound [] (b ∷ t) h = cc
same_trip_sound (a ∷ s) [] h = cc
same_trip_sound (a ∷ s) (b ∷ t) h = ground (arith, same_trip_sound s t)

pub same_trip_self : (t : List ℕ) → same_trip t t ≡ true
unfolding same_trip
same_trip_self [] = refl
same_trip_self (a ∷ t) = rw (==_self a) (same_trip_self t)

-- What an operation on `t` does to another trip: nothing.
pub record IsKept (h h' : Hub) (u : List ℕ) : Type 0 where
  pub clients_kept : h'.clients u ≡ h.clients u
  pub closers_kept : h'.closers u ≡ h.closers u
  pub live_kept : h'.live u ≡ h.live u

pub register_other :
    (h : Hub) (t : List ℕ) (c : ℕ) (u : List ℕ)
    → same_trip t u ≡ false
    → IsKept h (register h t c) u
unfolding register start_subscription
register_other h t c u other = elim (Option-cases (h.clients t)) [
  | inl e ↦ elim (Option-cases (parse_int t)) [
    | inl p ↦ record {
      clients_kept = rw (e, register, p, start_subscription, other);
      closers_kept = rw (e, register, p, start_subscription);
      live_kept = rw (e, register, p, start_subscription);
    }
    | inr (tid, p) ↦ record {
      clients_kept = rw (e, register, p, start_subscription, other);
      closers_kept = rw (e, register, p, start_subscription, other);
      live_kept = rw (e, register, p, start_subscription, other);
    }
  ]
  | inr (group, e) ↦ record {
    clients_kept = rw (e, register, other);
    closers_kept = rw (e, register);
    live_kept = rw (e, register);
  }
]

pub unregister_other :
    (h : Hub) (t : List ℕ) (c : ℕ) (u : List ℕ)
    → same_trip t u ≡ false
    → IsKept h (unregister h t c) u
unfolding unregister drop_trip
unregister_other h t c u other = elim (Option-cases (h.clients t)) [
  | inl e ↦ record {
    clients_kept = rw (e, unregister);
    closers_kept = rw (e, unregister);
    live_kept = rw (e, unregister);
  }
  | inr (group, e) ↦ elim (List-cases (remove group c)) [
    | inl r ↦ elim (Bool-cases (h.closers t)) [
      | inl k ↦ record {
        clients_kept = rw (e, unregister, r, drop_trip, other);
        closers_kept = rw (e, unregister, r, drop_trip, k, other);
        live_kept = rw (e, unregister, r, drop_trip, k, other);
      }
      | inr k ↦ record {
        clients_kept = rw (e, unregister, r, drop_trip, other);
        closers_kept = rw (e, unregister, r, drop_trip, k);
        live_kept = rw (e, unregister, r, drop_trip, k);
      }
    ]
    | inr (d, rest, r) ↦ record {
      clients_kept = rw (e, unregister, r, drop_trip, other);
      closers_kept = rw (e, unregister, r);
      live_kept = rw (e, unregister, r);
    }
  ]
]
