-- ===== src/Realtime/Hub.antt =====
-- internal/ws/hub.go and the close of internal/ws/client.go: the clients that follow a trip, and
-- one Redis subscription for each trip that has clients. A trip is the text of its id, in bytes; a
-- client is a number, and its send channel the list of what waits in it. `live` counts the
-- subscriptions of a trip that are open on the bus; Register and Unregister hold
-- the lock throughout; BroadcastLocal reads the group under it and sends after it, which is one step
-- here as no client comes or goes meanwhile.
pub mod Frame
pub mod Laws
pub mod Members
pub mod Broadcast
use geo.Base.{
  ℕ, suc, ◌-◌, Bool, true, false, not, ◌&&◌, ◌||◌, ◌==◌, ltb, Option, none, some, List, [], ◌∷◌,
  ◌++◌, if◌then◌else◌, length,
}
use geo.Service.Drivers.{parse_int}

pub same_trip : List ℕ → List ℕ → Bool
same_trip [] [] = true
same_trip (a ∷ s) (b ∷ t) = let rest = same_trip s t in (a == b) && rest
same_trip _ _ = false

pub has : List ℕ → ℕ → Bool
has [] c = false
has (d ∷ group) c = d == c || has group c

-- delete(group, c)
pub remove : List ℕ → ℕ → List ℕ
remove [] c = []
remove (d ∷ group) c = let rest = remove group c in if d == c then rest else d ∷ rest

pub record Hub : Type 0 where
  pub clients : List ℕ → Option (List ℕ)
  pub closers : List ℕ → Bool
  pub live : List ℕ → ℕ

abbrev pub set_trip {ℓ} : {A : Type ℓ} → (List ℕ → A) → List ℕ → A → List ℕ → A
set_trip m t a u = if same_trip t u then a else m u

-- NewHub
pub new_hub : Hub
new_hub = record { clients = λ t. none; closers = λ t. false; live = λ t. 0 }

-- startSubscription
pub start_subscription : Hub → List ℕ → Hub
start_subscription h t = elim (parse_int t) [
  | none ↦ h
  | some tid ↦ record h {
    live = set_trip h.live t (suc (h.live t));
    closers = set_trip h.closers t true;
  }
]

-- Register
pub register : Hub → List ℕ → ℕ → Hub
unfolding start_subscription has
register h t c = elim (h.clients t) [
  | none ↦
      let h' = start_subscription h t in
      record h' { clients = set_trip h'.clients t (some (c ∷ [])) }
  | some group ↦ record h {
    clients = set_trip h.clients t (some (if has group c then group else c ∷ group));
  }
]

-- The end of Unregister, for a group that is empty: the closer is called, and both go.
pub drop_trip : Hub → List ℕ → Hub
drop_trip h t = record {
  clients = set_trip h.clients t none;
  closers = if h.closers t then set_trip h.closers t false else h.closers;
  live = if h.closers t then set_trip h.live t (h.live t - 1) else h.live;
}

-- Unregister
pub unregister : Hub → List ℕ → ℕ → Hub
unfolding drop_trip remove
unregister h t c = elim (h.clients t) [
  | none ↦ h
  | some group ↦ elim (remove group c) [
    | [] ↦ drop_trip h t
    | d ∷ rest ↦ record h { clients = set_trip h.clients t (some (d ∷ rest)) }
  ]
]

-- What connections ask of a hub; close of a client is an Unregister, once.
pub data Call : Type 0 where
  registers unregisters : List ℕ → ℕ → Call

pub call : Hub → Call → Hub
unfolding register unregister
call h (registers t c) = register h t c
call h (unregisters t c) = unregister h t c

pub serve : Hub → List Call → Hub
unfolding call
serve h [] = h
serve h (i ∷ calls) = serve (call h i) calls

-- broadcastLocal: a channel of 256 that is full drops the payload.
pub send_all {ℓ} : {P : Type ℓ} → P → List ℕ → (ℕ → List P) → ℕ → List P
send_all payload [] queues c = queues c
send_all payload (d ∷ targets) queues c =
    send_all payload targets
      (λ j. if d == j && ltb (length (queues j)) 256 then queues j ++ payload ∷ [] else queues j) c

pub broadcast_local {ℓ} : {P : Type ℓ} → Hub → List ℕ → P → (ℕ → List P) → ℕ → List P
unfolding send_all
broadcast_local h t payload queues = elim (h.clients t) [
  | none ↦ queues
  | some group ↦ send_all payload group queues
]
