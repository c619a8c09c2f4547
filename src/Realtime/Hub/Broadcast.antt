-- ===== src/Realtime/Hub/Broadcast.antt =====
-- A payload that is broadcast reaches each client of its trip once, unless its channel is full.
use mathlib.Core.Path.{subst}
use geo.Base.{
  ℕ, ◌≡◌, refl, sym, ap, ◌∙◌, Bool, false, not, ◌&&◌, ◌||◌, ◌==◌, ==_iff, ltb, Option, none, some,
  List, [], ◌∷◌, ◌++◌, length, inl, inr, if◌then◌else◌, Bool-cases, Option-cases, List-cases,
}
use geo.Service.Drivers.{parse_int}
use geo.Realtime.Hub.{
  same_trip, has, remove, Hub, new_hub, start_subscription, register, drop_trip, unregister, Call,
  registers, unregisters, call, serve, send_all, broadcast_local,
}
use geo.Realtime.Hub.Frame.{same_trip_sound, same_trip_self, register_other, unregister_other}
use geo.Realtime.Hub.Members.{is_member, has-remove, and_false}

-- No client stands in the list twice.
abbrev Apart : List ℕ → Type 0
Apart [] = Unit
Apart (c ∷ group) = (has group c ≡ false) × Apart group

abbrev pub GroupApart : Option (List ℕ) → Type 0
GroupApart none = Unit
GroupApart (some group) = Apart group

-- What the channel of a client holds after a payload for the clients of a list.
abbrev pub delivered {ℓ} : {P : Type ℓ} → Bool → P → List P → List P
delivered to_it payload queue =
    if to_it && ltb (length queue) 256 then queue ++ payload ∷ [] else queue

send_all-delivered {ℓ} :
    {P : Type ℓ} (payload : P) (group : List ℕ) (queues : ℕ → List P) (c : ℕ)
    → Apart group
    → send_all payload group queues c ≡ delivered (has group c) payload (queues c)
unfolding send_all has
send_all-delivered payload [] queues c apart = refl
send_all-delivered payload (d ∷ group) queues c apart =
    let rest =
      send_all-delivered payload group (λ j. delivered (d == j) payload (queues j)) c apart.1 in
    elim (Bool-cases (d == c)) [
      | inl same ↦
          let missing : has group c ≡ false =
            subst (λ x. has group x ≡ false) ((==_iff d c).0 same) apart.0 in
          rest
          ∙ ap (λ b. delivered b payload (delivered (d == c) payload (queues c))) missing
          ∙ ap (λ b. delivered b payload (queues c)) (same ∙ sym (ap (λ b. b || has group c) same))
      | inr other ↦
          rest
          ∙ ap (λ b. delivered (has group c) payload (delivered b payload (queues c))) other
          ∙ ap (λ b. delivered (b || has group c) payload (queues c)) (sym other)
    ]

Apart-remove : (group : List ℕ) (c : ℕ) → Apart group → Apart (remove group c)
unfolding remove
Apart-remove [] c apart = tt
Apart-remove (d ∷ group) c apart = elim (Bool-cases (d == c)) [
  | inl same ↦ rw same (Apart-remove group c apart.1)
  | inr other ↦ rw other (
    has-remove group c d ∙ ap (λ b. not (c == d) && b) apart.0 ∙ sym (and_false (not (c == d))),
    Apart-remove group c apart.1,
  )
]

Apart-insert :
    (group : List ℕ) (c : ℕ) → Apart group → Apart (if has group c then group else c ∷ group)
Apart-insert group c apart = elim (Bool-cases (has group c)) [
  | inl there ↦ rw there apart
  | inr new ↦ rw new (new, apart)
]

one_alone : (c : ℕ) → Apart (c ∷ [])
unfolding has
one_alone c = (refl, tt)

register-GroupApart :
    (h : Hub) (t : List ℕ) (c : ℕ)
    → GroupApart (h.clients t)
    → GroupApart ((register h t c).clients t)
unfolding register start_subscription
register-GroupApart h t c apart = elim (Option-cases (h.clients t)) [
  | inl e ↦ elim (Option-cases (parse_int t)) [
    | inl p ↦ rw (e, register, p, start_subscription, same_trip_self t) (one_alone c)
    | inr (tid, p) ↦ rw (e, register, p, start_subscription, same_trip_self t) (one_alone c)
  ]
  | inr (group, e) ↦
      rw (e, register, same_trip_self t) (Apart-insert group c (subst GroupApart e apart))
]

unregister-GroupApart :
    (h : Hub) (t : List ℕ) (c : ℕ)
    → GroupApart (h.clients t)
    → GroupApart ((unregister h t c).clients t)
unfolding unregister drop_trip
unregister-GroupApart h t c apart = elim (Option-cases (h.clients t)) [
  | inl e ↦ rw (e, unregister, e) tt
  | inr (group, e) ↦ elim (List-cases (remove group c)) [
    | inl r ↦ rw (e, unregister, r, drop_trip, same_trip_self t) tt
    | inr (x, rest, r) ↦
        rw (e, unregister, r, same_trip_self t)
          (subst Apart r (Apart-remove group c (subst GroupApart e apart)))
  ]
]

call-GroupApart :
    (h : Hub) (i : Call)
    → ((t : List ℕ) → GroupApart (h.clients t))
    → (u : List ℕ) → GroupApart ((call h i).clients u)
unfolding call
call-GroupApart h (registers t c) apart u = elim (Bool-cases (same_trip t u)) [
  | inl same ↦
      subst (λ v. GroupApart ((register h t c).clients v)) (same_trip_sound t u same)
        (register-GroupApart h t c (apart t))
  | inr other ↦ subst GroupApart (sym (register_other h t c u other).clients_kept) (apart u)
]
call-GroupApart h (unregisters t c) apart u = elim (Bool-cases (same_trip t u)) [
  | inl same ↦
      subst (λ v. GroupApart ((unregister h t c).clients v)) (same_trip_sound t u same)
        (unregister-GroupApart h t c (apart t))
  | inr other ↦ subst GroupApart (sym (unregister_other h t c u other).clients_kept) (apart u)
]

serve-GroupApart :
    (h : Hub) (calls : List Call)
    → ((t : List ℕ) → GroupApart (h.clients t))
    → (u : List ℕ) → GroupApart ((serve h calls).clients u)
unfolding serve
serve-GroupApart h [] apart = apart
serve-GroupApart h (i ∷ calls) apart = serve-GroupApart (call h i) calls (call-GroupApart h i apart)

broadcast-apart {ℓ} :
    {P : Type ℓ} (h : Hub) (t : List ℕ) (payload : P) (queues : ℕ → List P) (c : ℕ)
    → GroupApart (h.clients t)
    → broadcast_local h t payload queues c ≡ delivered (is_member h t c) payload (queues c)
unfolding broadcast_local
broadcast-apart h t payload queues c apart = elim (Option-cases (h.clients t)) [
  | inl e ↦ rw (e, broadcast_local)
  | inr (group, e) ↦
      rw (e, broadcast_local) (send_all-delivered payload group queues c (subst GroupApart e apart))
]

new_apart : (t : List ℕ) → GroupApart (new_hub.clients t)
unfolding new_hub
new_apart t = tt

-- After any calls on a new hub, a payload that is broadcast for a trip is put once, at the end, on
-- the channel of each client that follows the trip and has fewer than 256 messages waiting; every
-- other channel stays as it was.
pub broadcast_local-delivered {ℓ} :
    {P : Type ℓ} (calls : List Call) (t : List ℕ) (payload : P) (queues : ℕ → List P) (c : ℕ)
    → broadcast_local (serve new_hub calls) t payload queues c
      ≡ delivered (is_member (serve new_hub calls) t c) payload (queues c)
broadcast_local-delivered calls t payload queues c =
    broadcast-apart (serve new_hub calls) t payload queues c
      (serve-GroupApart new_hub calls new_apart t)
