-- ===== src/Tests/Sockets.antt =====
-- Connections, subscriptions and batches at concrete inputs.
use geo.Base.{
  ℕ, ◌≡◌, refl, ◌⊎◌, Bool, true, false, not, some, none, List, [], ◌∷◌, ◌++◌, arith, if◌then◌else◌,
  ◌==◌, Any, inl, inr,
}
use geo.Base.Int.{pos}
use geo.Coords.{valid_coords}
use geo.Realtime.Messages.{Texts, parse_inbound}
use geo.Realtime.Messages.Laws.{IsParsed, parse_inbound-IsParsed}
use geo.Realtime.LocationGuard.{
  LocationGuardConfig, too_frequent, validate, validate_entry, get_entry,
}
use geo.Realtime.LocationGuard.Laws.{
  Update, Spaced, accepted_times, all_up, accepted_times-Spaced, overlap_passes_both,
}
use geo.Realtime.Slots.{Sets, ConnLimitConfig, ConnSlot, acquire_slot, heartbeat}
use geo.Realtime.Slots.Laws.{IsCapped, IsAcquired, acquire_slot-IsAcquired}
use geo.Realtime.Slots.Expiry.{heartbeat-past_cap}
use geo.Realtime.ConnLimiter.{ConnLimiter, acquire, release}
use geo.Realtime.ConnLimiter.Laws.{Tracks, close_one, acquire-Tracks, release-Tracks}
use geo.Tests.Fixed.{fixed, fixed-IsOrdered, fixed-IsSigned}
use geo.Realtime.MessageLimiter.{MessageLimiter, allow_all, IsBucket, allow_all-IsBucket}
use geo.Realtime.Hub.Broadcast.{delivered, broadcast_local-delivered}
use geo.Realtime.Hub.{broadcast_local, Call, registers, unregisters, new_hub, serve}
use geo.Realtime.Hub.Laws.{IsServed, serve-IsServed, new_hub-IsServed}
use geo.Realtime.Hub.Members.{is_member, follow_all, serve-is_member}
use geo.Realtime.BatchWriter.{
  Input, location_updated, tick, cancel, closed, done, Writer, step, run,
}
use geo.Realtime.Session
use geo.Realtime.Session.{Event, write, written_out, ping, message_in, new_session}
use geo.Realtime.Session.Laws.{IsRun, run-IsRun}
use geo.Realtime.BatchWriter.Laws.{
  accepted, updates, waiting, taken, run-accepted, closed_loses_batch,
}

abbrev one_open : ConnLimiter
one_open = record { per_ip = λ ip. if 7 == ip then 1 else 0; global = 1; max_ip = 1; max_glob = 2 }

one_open-Tracks : Tracks one_open (7 ∷ [])
one_open-Tracks = record {
  counted = λ ip. ground arith;
  total = refl;
  within_ip = λ ip. ground arith;
  within_global = omega arith;
}

acquire-Tracks_example :
    ((acquire one_open 8).1 ≡ true) × Tracks (acquire one_open 8).0 (8 ∷ 7 ∷ [])
    ⊎ ((acquire one_open 8).1 ≡ false)
      × ((acquire one_open 8).0 ≡ one_open)
      × ((one_open.global ≡ one_open.max_glob) ⊎ (one_open.per_ip 8 ≡ one_open.max_ip))
acquire-Tracks_example = acquire-Tracks one_open (7 ∷ []) 8 one_open-Tracks

release-Tracks_example : Tracks (release one_open 7) (close_one 7 (7 ∷ []))
release-Tracks_example = release-Tracks one_open (7 ∷ []) 7 one_open-Tracks (omega arith)

-- The text of the trip 17.
abbrev trip_17 : List ℕ
trip_17 = b'1' ∷ b'7' ∷ []

abbrev two_calls : List Call
two_calls = registers trip_17 1 ∷ unregisters trip_17 1 ∷ registers trip_17 2 ∷ []

serve-IsServed_example : IsServed (serve new_hub two_calls) trip_17
serve-IsServed_example = serve-IsServed new_hub two_calls new_hub-IsServed trip_17

serve-is_member_example :
    is_member (serve new_hub two_calls) trip_17 2
    ≡ follow_all two_calls (is_member new_hub) trip_17 2
serve-is_member_example = serve-is_member new_hub two_calls trip_17 2

-- Two updates wait.
abbrev two_waiting : Writer ℕ
two_waiting = record { batch = 5 ∷ 6 ∷ []; stored = 4 ∷ []; cancelled = false; running = true }

abbrev takes_all : Bool → List ℕ → Bool
takes_all cancelled batch = true

abbrev some_inputs : List (Input ℕ)
some_inputs = location_updated (some 7) ∷ tick ∷ location_updated none ∷ done ∷ []

run-accepted_example :
    (accepted ℕ (run ℕ takes_all 3 two_waiting some_inputs)
      ≡ accepted ℕ two_waiting
        ++ updates ℕ (taken ℕ takes_all (λ c b. refl) 3 two_waiting some_inputs))
    × ((run ℕ takes_all 3 two_waiting some_inputs).batch
        ≡ waiting ℕ 3 two_waiting.batch (taken ℕ takes_all (λ c b. refl) 3 two_waiting some_inputs))
run-accepted_example = run-accepted ℕ takes_all (λ c b. refl) 3 two_waiting some_inputs

-- The database takes a batch unless the context is cancelled.
abbrev takes_live : Bool → List ℕ → Bool
takes_live cancelled batch = not cancelled

closed_loses_batch_example :
    (step ℕ takes_live 3 (step ℕ takes_live 3 two_waiting cancel) closed).stored
    ≡ two_waiting.stored
closed_loses_batch_example = closed_loses_batch ℕ takes_live 3 two_waiting (λ b. refl)

-- Two messages a second, five at once, and two tokens left.
abbrev bucket : MessageLimiter fixed
bucket = record { rate = 2000; burst = 5000; tokens = 2000 }

allow_all-IsBucket_example :
    IsBucket fixed fixed-IsOrdered fixed-IsSigned (allow_all fixed (0 ∷ 0 ∷ 0 ∷ 9000 ∷ []) bucket)
allow_all-IsBucket_example =
    allow_all-IsBucket fixed fixed-IsOrdered fixed-IsSigned (0 ∷ 0 ∷ 0 ∷ 9000 ∷ []) bucket
      (refl, (refl, (refl, (refl, tt)))) refl (record { capped = refl; funded = refl })

abbrev payload : ℕ
payload = 9

broadcast_local-delivered_example :
    broadcast_local (serve new_hub two_calls) trip_17 payload (λ c. 4 ∷ []) 2
    ≡ delivered (is_member (serve new_hub two_calls) trip_17 2) payload (4 ∷ [])
broadcast_local-delivered_example =
    broadcast_local-delivered two_calls trip_17 payload (λ c. 4 ∷ []) 2

-- Every message subscribes at one point.
abbrev subscribing : Texts fixed
subscribing = record {
  envelope = λ t. some (record { type = "SUBSCRIBE_LOCATION"; payload = "here" });
  subscribe_data = λ t. some (record {
    lat = 35000;
    lng = 51000;
    role = "sender";
    radius_km = 5000;
    limit = pos 10;
    filter_vehicle_types = [];
  });
  request = λ t. none;
  trim = λ t. t;
  upper = λ t. t;
  lower = λ t. t;
}

parse_inbound-IsParsed_example :
    IsParsed subscribing "{}" true (parse_inbound subscribing "{}" true)
parse_inbound-IsParsed_example = parse_inbound-IsParsed subscribing "{}" true

abbrev two_at_most : ConnLimitConfig
two_at_most = record {
  max_global = pos 2;
  max_per_ip = pos 1;
  max_per_user = pos 0;
  slot_ttl = 120;
}

-- One connection of long ago at address 7 and one of now at address 8.
abbrev two_slots : Sets
two_slots = record {
  global = record { member = 1; score = 10 } ∷ record { member = 2; score = 990 } ∷ [];
  per_ip = λ ip.
      if ip == 7
      then record { member = 1; score = 10 } ∷ []
      else if ip == 8
      then record { member = 2; score = 990 } ∷ []
      else [];
  per_user = λ u. [];
}

two_slots-IsCapped : IsCapped two_at_most two_slots
two_slots-IsCapped = record {
  global = λ capped. omega arith;
  per_ip = λ ip capped. ground arith;
  per_user = λ u capped. omega arith;
}

abbrev third : ConnSlot
third = record { connection_id = 3; client_ip = 9; user_id = pos 0 }

acquire_slot-IsAcquired_example :
    IsAcquired two_at_most
      (λ call. true)
      1000
      third
      (acquire_slot two_at_most (λ call. true) 1000 third two_slots)
acquire_slot-IsAcquired_example =
    acquire_slot-IsAcquired two_at_most (λ call. true) 1000 third two_slots two_slots-IsCapped

third_absent : Any (λ m. m.member ≡ 3) two_slots.global → ⊥
third_absent (inl first) = omega arith
third_absent (inr (inl second)) = omega arith
third_absent (inr (inr none_left)) = none_left

heartbeat-past_cap_example : ¬ IsCapped two_at_most (heartbeat true 1000 third two_slots)
heartbeat-past_cap_example =
    heartbeat-past_cap two_at_most 1000 third two_slots refl refl third_absent

-- A second between updates, and three updates in two seconds.
abbrev each_second : LocationGuardConfig
each_second = record { min_update_interval = 1000000000; state_ttl = 600000000000 }

abbrev at_time : ℕ → Update fixed
at_time now = record { now = now; lat = 35000; lng = 51000 }

accepted_times-Spaced_example :
    Spaced each_second.min_update_interval
      (accepted_times each_second (at_time 5 ∷ at_time 700000000 ∷ at_time 2000000000 ∷ []) none)
accepted_times-Spaced_example =
    accepted_times-Spaced each_second (at_time 5 ∷ at_time 700000000 ∷ at_time 2000000000 ∷ [])
      (omega arith)

overlap_passes_both_example :
    let first = validate {f = fixed} each_second all_up 5 35000 51000 none in
    let early =
      validate_entry {f = fixed} each_second all_up 700000000 35000 51000 first.0
        (get_entry each_second 700000000 none) in
    (first.1 ≡ none)
    × ((validate {f = fixed} each_second all_up 700000000 35000 51000 first.0).1
        ≡ some too_frequent)
    × (early.1 ≡ none)
unfolding valid_coords
overlap_passes_both_example =
    overlap_passes_both each_second (at_time 5) (at_time 700000000) refl refl (omega arith)
      (omega arith)

-- A session takes two messages, writes one, fails on the other, and is given a third.
abbrev session_events : List (Event fixed ℕ)
session_events =
    write (some 7)
    ∷ write (some 8)
    ∷ message_in 9000 5
    ∷ written_out true
    ∷ ping 20 true
    ∷ written_out false
    ∷ write (some 9)
    ∷ []

run-IsRun_example :
    IsRun fixed
      (new_session fixed ℕ 60 bucket 0)
      session_events
      (Session.run fixed ℕ session_events (new_session fixed ℕ 60 bucket 0))
run-IsRun_example = run-IsRun fixed 60 bucket 0 session_events
