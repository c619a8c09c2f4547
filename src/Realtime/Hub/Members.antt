-- ===== src/Realtime/Hub/Members.antt =====
-- The clients of a hub against a set of pairs: the calls decide who follows what, one by one.
use mathlib.Core.Path.{subst}
use geo.Base.{
  ℕ, ◌≡◌, refl, sym, ap, ◌∙◌, Bool, true, false, not, ◌&&◌, ◌||◌, ◌==◌, ==_iff, Option, none, some,
  List, [], ◌∷◌, if◌then◌else◌, Bool-cases, Option-cases, List-cases, arith, inl, inr,
}
use geo.Service.Drivers.{parse_int}
use geo.Realtime.Hub.{
  same_trip, has, remove, Hub, start_subscription, register, drop_trip, unregister, Call, registers,
  unregisters, call, serve,
}
use geo.Realtime.Hub.Frame.{same_trip_sound, same_trip_self, register_other, unregister_other}

abbrev in_group : Option (List ℕ) → ℕ → Bool
in_group none c = false
in_group (some group) c = has group c

abbrev pub is_member : Hub → List ℕ → ℕ → Bool
is_member h t c = in_group (h.clients t) c

-- The set of pairs of a trip and a client, after a call.
abbrev pub follows : Call → (List ℕ → ℕ → Bool) → List ℕ → ℕ → Bool
follows (registers t c) was u d = (same_trip t u && c == d) || was u d
follows (unregisters t c) was u d = not (same_trip t u && c == d) && was u d

abbrev pub follow_all : List Call → (List ℕ → ℕ → Bool) → List ℕ → ℕ → Bool
follow_all [] was = was
follow_all (i ∷ calls) was = follow_all calls (follows i was)

pub and_false : (b : Bool) → false ≡ (b && false)
and_false true = refl
and_false false = refl

pub has-remove : (group : List ℕ) (c d : ℕ) → has (remove group c) d ≡ (not (c == d) && has group d)
unfolding has remove
has-remove [] c d = ground arith
has-remove (x ∷ group) c d = ground (arith, has-remove group c d)

has-insert :
    (group : List ℕ) (c d : ℕ)
    → has (if has group c then group else c ∷ group) d ≡ ((c == d) || has group d)
unfolding has
has-insert group c d = elim (Bool-cases (has group c)) [
  | inr new ↦ rw new
  | inl old ↦ rw old (elim (Bool-cases (c == d)) [
    | inl same ↦
        ap (has group) (sym ((==_iff c d).0 same)) ∙ old ∙ sym (ap (λ b. b || has group d) same)
    | inr other ↦ sym (ap (λ b. b || has group d) other)
  ])
]

register-is_member :
    (h : Hub) (t : List ℕ) (c d : ℕ)
    → is_member (register h t c) t d ≡ ((c == d) || is_member h t d)
unfolding register start_subscription has
register-is_member h t c d = elim (Option-cases (h.clients t)) [
  | inl e ↦ elim (Option-cases (parse_int t)) [
    | inl p ↦ rw (e, register, p, start_subscription, same_trip_self t)
    | inr (tid, p) ↦ rw (e, register, p, start_subscription, same_trip_self t)
  ]
  | inr (group, e) ↦ rw (e, register, same_trip_self t) (has-insert group c d)
]

unregister-is_member :
    (h : Hub) (t : List ℕ) (c d : ℕ)
    → is_member (unregister h t c) t d ≡ (not (c == d) && is_member h t d)
unfolding unregister drop_trip has
unregister-is_member h t c d = elim (Option-cases (h.clients t)) [
  | inl e ↦ rw (e, unregister) (ap (λ g. in_group g d) e ∙ and_false (not (c == d)))
  | inr (group, e) ↦ elim (List-cases (remove group c)) [
    | inl r ↦
        rw (e, unregister, r, drop_trip, same_trip_self t)
          (ap (λ g. has g d) (sym r) ∙ has-remove group c d)
    | inr (x, rest, r) ↦
        rw (e, unregister, r, same_trip_self t) (ap (λ g. has g d) (sym r) ∙ has-remove group c d)
  ]
]

call-is_member :
    (h : Hub) (i : Call) (u : List ℕ) (d : ℕ)
    → is_member (call h i) u d ≡ follows i (is_member h) u d
unfolding call
call-is_member h (registers t c) u d = elim (Bool-cases (same_trip t u)) [
  | inl same ↦ rw same (
      subst (λ v. is_member (register h t c) v d ≡ ((c == d) || is_member h v d))
        (same_trip_sound t u same) (register-is_member h t c d))
  | inr other ↦ rw other (ap (λ g. in_group g d) (register_other h t c u other).clients_kept)
]
call-is_member h (unregisters t c) u d = elim (Bool-cases (same_trip t u)) [
  | inl same ↦ rw same (
      subst (λ v. is_member (unregister h t c) v d ≡ (not (c == d) && is_member h v d))
        (same_trip_sound t u same) (unregister-is_member h t c d))
  | inr other ↦ rw other (ap (λ g. in_group g d) (unregister_other h t c u other).clients_kept)
]

-- The clients that a hub holds after any calls are those of the set of pairs after the same calls:
-- a client follows a trip as the last call about the two says.
pub serve-is_member :
    (h : Hub) (calls : List Call) (t : List ℕ) (c : ℕ)
    → is_member (serve h calls) t c ≡ follow_all calls (is_member h) t c
unfolding serve
serve-is_member h [] t c = refl
serve-is_member h (i ∷ calls) t c =
    serve-is_member (call h i) calls t c
    ∙ ap (λ was. follow_all calls was t c) (λ k u d. call-is_member h i u d k)
