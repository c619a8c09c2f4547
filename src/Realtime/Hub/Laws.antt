-- ===== src/Realtime/Hub/Laws.antt =====
-- A trip has one subscription while it has clients, and none else; who follows a trip is decided
-- by the last call about it; a payload reaches each client of its trip once.
use mathlib.Core.Path.{subst}
use geo.Realtime.Hub.Frame.{
  same_trip_sound, same_trip_self, IsKept, register_other, unregister_other,
}
use geo.Base.{
  ℕ, ◌≡◌, refl, Bool, true, false, ◌&&◌, Option, none, some, List, [], ◌∷◌, if◌then◌else◌,
  Bool-cases, Option-cases, List-cases, inl, inr, ◌∙◌, sym, ap, suc, ◌-◌,
}
use geo.Service.Drivers.{parse_int}
use geo.Realtime.Hub.{
  same_trip, remove, Hub, new_hub, start_subscription, register, drop_trip, unregister, call, serve,
  Call, registers, has, unregisters,
}

abbrev is_some {ℓ} : {A : Type ℓ} → Option A → Bool
is_some none = false
is_some (some a) = true

-- Whether the trip has a client here.
abbrev pub followed : Option (List ℕ) → Bool
followed none = false
followed (some []) = false
followed (some (c ∷ group)) = true

-- A group is never empty; a closer and one subscription for each trip that is followed and whose
-- id is a number, and none for another.
pub record IsServed (h : Hub) (t : List ℕ) : Type 0 where
  pub filled : followed (h.clients t) ≡ is_some (h.clients t)
  pub closer : h.closers t ≡ (followed (h.clients t) && is_some (parse_int t))
  pub once : h.live t ≡ (if followed (h.clients t) && is_some (parse_int t) then 1 else 0)

pub new_hub-IsServed : (t : List ℕ) → IsServed new_hub t
unfolding new_hub
new_hub-IsServed t = record { filled = refl; closer = refl; once = refl }

kept-IsServed : (h h' : Hub) (u : List ℕ) → IsKept h h' u → IsServed h u → IsServed h' u
kept-IsServed h h' u k s = record {
  filled = rw k.clients_kept s.filled;
  closer = rw (k.clients_kept, k.closers_kept) s.closer;
  once = rw (k.clients_kept, k.live_kept) s.once;
}

closer_of :
    (h : Hub) (t : List ℕ)
    → IsServed h t
    → (o : Option (List ℕ)) → h.clients t ≡ o
    → h.closers t ≡ (followed o && is_some (parse_int t))
closer_of h t s o e = s.closer ∙ ap (λ x. followed x && is_some (parse_int t)) e

live_of :
    (h : Hub) (t : List ℕ)
    → IsServed h t
    → (o : Option (List ℕ)) → h.clients t ≡ o
    → h.live t ≡ (if followed o && is_some (parse_int t) then 1 else 0)
live_of h t s o e = s.once ∙ ap (λ x. if followed x && is_some (parse_int t) then 1 else 0) e

live_by : (h : Hub) (t : List ℕ) → IsServed h t → h.live t ≡ (if h.closers t then 1 else 0)
live_by h t s = s.once ∙ ap (λ b. if b then 1 else 0) (sym s.closer)

filled_of :
    (h : Hub) (t : List ℕ)
    → IsServed h t
    → (group : List ℕ) → h.clients t ≡ some group
    → followed (some group) ≡ true
filled_of h t s group e = sym (ap followed e) ∙ s.filled ∙ ap is_some e

insert_followed :
    (b : Bool) (c : ℕ) (group : List ℕ)
    → followed (some group) ≡ true
    → followed (some (if b then group else c ∷ group)) ≡ true
insert_followed true c group h = h
insert_followed false c group h = refl

register_same : (h : Hub) (t : List ℕ) (c : ℕ) → IsServed h t → IsServed (register h t c) t
unfolding register start_subscription
register_same h t c s = elim (Option-cases (h.clients t)) [
  | inl e ↦ elim (Option-cases (parse_int t)) [
    | inl p ↦ record {
      filled = rw (e, register, p, start_subscription, same_trip_self t);
      closer = rw (e, register, p, start_subscription, same_trip_self t) (closer_of h t s none e);
      once = rw (e, register, p, start_subscription, same_trip_self t) (live_of h t s none e);
    }
    | inr (tid, p) ↦ record {
      filled = rw (e, register, p, start_subscription, same_trip_self t);
      closer = rw (e, register, p, start_subscription, same_trip_self t);
      once =
          rw (e, register, p, start_subscription, same_trip_self t) (ap suc (live_of h t s none e));
    }
  ]
  | inr (group, e) ↦ record {
    filled =
        rw (e, register, same_trip_self t)
          (insert_followed (has group c) c group (filled_of h t s group e));
    closer =
        rw (e, register, same_trip_self t)
          (closer_of h t s (some group) e
            ∙ ap (λ b. b && is_some (parse_int t))
                (filled_of h t s group e
                  ∙ sym (insert_followed (has group c) c group (filled_of h t s group e))));
    once =
        rw (e, register, same_trip_self t)
          (live_of h t s (some group) e
            ∙ ap (λ b. if b && is_some (parse_int t) then 1 else 0)
                (filled_of h t s group e
                  ∙ sym (insert_followed (has group c) c group (filled_of h t s group e))));
  }
]

unregister_same : (h : Hub) (t : List ℕ) (c : ℕ) → IsServed h t → IsServed (unregister h t c) t
unfolding unregister drop_trip
unregister_same h t c s = elim (Option-cases (h.clients t)) [
  | inl e ↦
      kept-IsServed h (unregister h t c) t
        (record {
          clients_kept = rw (e, unregister) e;
          closers_kept = rw (e, unregister);
          live_kept = rw (e, unregister);
        })
        s
  | inr (group, e) ↦ elim (List-cases (remove group c)) [
    | inl r ↦ elim (Bool-cases (h.closers t)) [
      | inl k ↦ record {
        filled = rw (e, unregister, r, drop_trip, same_trip_self t);
        closer = rw (e, unregister, r, drop_trip, k, same_trip_self t);
        once =
            rw (e, unregister, r, drop_trip, k, same_trip_self t)
              (ap (λ n. n - 1) (live_by h t s ∙ ap (λ b. if b then 1 else 0) k));
      }
      | inr k ↦ record {
        filled = rw (e, unregister, r, drop_trip, same_trip_self t);
        closer = rw (e, unregister, r, drop_trip, k, same_trip_self t) k;
        once =
            rw (e, unregister, r, drop_trip, k, same_trip_self t)
              (live_by h t s ∙ ap (λ b. if b then 1 else 0) k);
      }
    ]
    | inr (d, rest, r) ↦ record {
      filled = rw (e, unregister, r, same_trip_self t);
      closer =
          rw (e, unregister, r, same_trip_self t)
            (closer_of h t s (some group) e
              ∙ ap (λ b. b && is_some (parse_int t)) (filled_of h t s group e));
      once =
          rw (e, unregister, r, same_trip_self t)
            (live_of h t s (some group) e
              ∙ ap (λ b. if b && is_some (parse_int t) then 1 else 0) (filled_of h t s group e));
    }
  ]
]

call-IsServed :
    (h : Hub) (i : Call) → ((t : List ℕ) → IsServed h t) → (u : List ℕ) → IsServed (call h i) u
unfolding call
call-IsServed h (registers t c) s u = elim (Bool-cases (same_trip t u)) [
  | inl same ↦
      subst (IsServed (register h t c)) (same_trip_sound t u same) (register_same h t c (s t))
  | inr other ↦ kept-IsServed h (register h t c) u (register_other h t c u other) (s u)
]
call-IsServed h (unregisters t c) s u = elim (Bool-cases (same_trip t u)) [
  | inl same ↦
      subst (IsServed (unregister h t c)) (same_trip_sound t u same) (unregister_same h t c (s t))
  | inr other ↦ kept-IsServed h (unregister h t c) u (unregister_other h t c u other) (s u)
]

-- Whatever calls a hub has served that served each trip rightly, each trip is served rightly: its
-- group is not empty, and it has a closer and exactly one open subscription if it has clients and
-- its id is a number, and no closer and no subscription else.
pub serve-IsServed :
    (h : Hub) (calls : List Call)
    → ((t : List ℕ) → IsServed h t)
    → (t : List ℕ) → IsServed (serve h calls) t
unfolding serve
serve-IsServed h [] s = s
serve-IsServed h (i ∷ calls) s = serve-IsServed (call h i) calls (call-IsServed h i s)
