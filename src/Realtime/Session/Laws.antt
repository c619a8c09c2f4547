-- ===== src/Realtime/Session/Laws.antt =====
-- A connection ends once, holds few messages, and sends them in order.

use mathlib.Core.List.{append_assoc}
use mathlib.Core.Path.{subst}
use geo.Base.{
  ℕ, suc, ◌-◌, ◌≤◌, ◌≡◌, refl, sym, ap, ◌∙◌, List, [], ◌∷◌, ◌++◌, Option, none, some, Bool, true,
  false, if◌then◌else◌, ltb, leb, ltb→lt, length, length-append, Holds, Bool-cases, Option-cases,
  if_cases, inl, inr, arith,
}
use geo.Base.Float.{Float}
use geo.Realtime.Session.{
  Session, new_session, close_session, write_json, write_round, ping_round, allow_message, Event,
  write, written_out, ping, message_in, close, overlap, writes_overlap, step, run, allow,
  MessageLimiter,
}

nil_of_length : {B : Type 0} (xs : List B) → length xs ≤ 0 → xs ≡ []
nil_of_length [] h = refl
nil_of_length (x ∷ xs) h = absurd (omega arith)

module _ (f : Float) {A : Type 0} where
  -- onClose is called when the session is closed and not before, the channel has its 32 places at
  -- most, and what was taken is what was written, what a failed write lost, and what still waits:
  -- nothing is lost while the pump runs, and one message at most when it has ended.
  pub record IsSession (s : Session f A) : Type 0 where
    pub once : s.on_close_calls ≡ (if s.is_closed then 1 else 0)
    pub room : length s.send ≤ 32
    pub lost : List A
    pub in_order : s.posted ≡ s.written ++ (lost ++ s.send)
    pub few : length lost ≤ (if s.is_writing then 0 else 1)

  close_session-IsSession : (s : Session f A) → IsSession s → IsSession (close_session f A s)
  unfolding close_session
  close_session-IsSession s i =
      if_cases IsSession s.is_closed (λ _. i)
        λ still. record {
          once = ap suc (rw still at i.once);
          room = i.room;
          lost = i.lost;
          in_order = i.in_order;
          few = i.few;
        }

  -- While the pump runs, nothing is lost.
  running_order :
      (s : Session f A) → IsSession s → s.is_writing ≡ true → s.posted ≡ s.written ++ s.send
  running_order s i running =
      let none_lost : i.lost ≡ [] =
        nil_of_length i.lost (subst (λ b. length i.lost ≤ (if b then 0 else 1)) running i.few) in
      i.in_order ∙ ap (λ t. s.written ++ (t ++ s.send)) none_lost

  write_json-Holds :
      (json : Option A) (s : Session f A) → IsSession s → Holds IsSession (write_json f A json s)
  unfolding write_json
  write_json-Holds none s i = i
  write_json-Holds (some message) s i =
      if_cases (Holds IsSession) s.is_closed (λ _. tt)
        λ still.
          if_cases (Holds IsSession) (ltb (length s.send) 32)
            (λ free. record {
              once = i.once;
              room = omega (arith, length-append s.send (message ∷ []), ltb→lt _ _ free);
              lost = i.lost;
              in_order =
                  ap (λ t. t ++ message ∷ []) i.in_order
                  ∙ append_assoc s.written (i.lost ++ s.send) (message ∷ [])
                  ∙ ap (◌++◌ s.written) (append_assoc i.lost s.send (message ∷ []));
              few = i.few;
            })
            (λ full. close_session-IsSession s i)

  took :
      (is_sent : Bool) (s : Session f A) (message : A) (rest : List A)
      → IsSession s
      → s.is_writing ≡ true
      → s.send ≡ message ∷ rest
      → IsSession (
          if is_sent
          then record s { send = rest; written = s.written ++ message ∷ [] }
          else close_session f A (record s { send = rest; is_writing = false }))
  took is_sent s message rest i running waiting =
      let order : s.posted ≡ s.written ++ message ∷ rest =
        running_order s i running ∙ ap (◌++◌ s.written) waiting in
      let shorter : length rest ≤ 32 =
        let whole : length (message ∷ rest) ≤ 32 = subst (λ l. length l ≤ 32) waiting i.room in
        omega (arith, whole) in
      if_cases IsSession is_sent
        (λ _. record {
          once = i.once;
          room = shorter;
          lost = [];
          in_order = order ∙ sym (append_assoc s.written (message ∷ []) rest);
          few = ground arith;
        })
        (λ _.
          close_session-IsSession (record s { send = rest; is_writing = false })
            (record {
              once = i.once;
              room = shorter;
              lost = message ∷ [];
              in_order = order;
              few = omega arith;
            }))

  write_round-IsSession :
      (is_sent : Bool) (s : Session f A) → IsSession s → IsSession (write_round f A is_sent s)
  unfolding write_round
  write_round-IsSession is_sent s i =
      if_cases IsSession s.is_writing (λ running. on s.send refl running) (λ _. i)
    where
      on :
          (l : List A)
          → s.send ≡ l
          → s.is_writing ≡ true
          → IsSession (elim l [
            | [] ↦ if s.is_closed then close_session f A (record s { is_writing = false }) else s
            | message ∷ rest ↦
                if is_sent
                then record s { send = rest; written = s.written ++ message ∷ [] }
                else close_session f A (record s { send = rest; is_writing = false })
          ])
      on [] empty running =
          if_cases IsSession s.is_closed
            (λ _.
              close_session-IsSession (record s { is_writing = false })
                (record {
                  once = i.once;
                  room = i.room;
                  lost = i.lost;
                  in_order = i.in_order;
                  few = ground (arith, i.few);
                }))
            (λ _. i)
      on (message ∷ rest) waiting running = took is_sent s message rest i running waiting

  ping_round-IsSession :
      (now : ℕ) (is_sent : Bool) (s : Session f A)
      → IsSession s
      → IsSession (ping_round f A now is_sent s)
  unfolding ping_round
  ping_round-IsSession now is_sent s i =
      if_cases IsSession s.is_pinging
        (λ _.
          if_cases IsSession (leb s.idle_timeout (now - s.last_act))
            (λ _. close_session-IsSession (record s { is_pinging = false }) (kept false))
            (λ _. kept is_sent))
        (λ _. i)
    where
      kept : (b : Bool) → IsSession (record s { is_pinging = b })
      kept b = record {
        once = i.once;
        room = i.room;
        lost = i.lost;
        in_order = i.in_order;
        few = i.few;
      }

  allow_message-IsSession :
      (elapsed : f.F) (now : ℕ) (s : Session f A)
      → IsSession s
      → IsSession (allow_message f A elapsed now s).0
  unfolding allow_message
  allow_message-IsSession elapsed now s i =
      if_cases (λ (r : Session f A × Bool). IsSession r.0) (allow f elapsed s.limiter).1
        (λ _. record {
          once = i.once;
          room = i.room;
          lost = i.lost;
          in_order = i.in_order;
          few = i.few;
        })
        (λ _. record {
          once = i.once;
          room = i.room;
          lost = i.lost;
          in_order = i.in_order;
          few = i.few;
        })

  step-Holds : (e : Event f A) (s : Session f A) → IsSession s → Holds IsSession (step f A e s)
  unfolding step
  step-Holds (write json) s i = write_json-Holds json s i
  step-Holds (written_out is_sent) s i = write_round-IsSession is_sent s i
  step-Holds (ping now is_sent) s i = ping_round-IsSession now is_sent s i
  step-Holds (message_in elapsed now) s i = allow_message-IsSession elapsed now s i
  step-Holds close s i = close_session-IsSession s i
  step-Holds (overlap now) s i =
      if_cases (Holds IsSession) (writes_overlap f A now s) (λ _. tt) (λ _. i)

  new_session-IsSession :
      (idle_timeout : ℕ) (limiter : MessageLimiter f) (now : ℕ)
      → IsSession (new_session f A idle_timeout limiter now)
  unfolding new_session
  new_session-IsSession idle_timeout limiter now = record {
    once = refl;
    room = omega arith;
    lost = [];
    in_order = refl;
    few = omega arith;
  }

  -- What an event must find to panic: a message for WriteJSON the session's end, two writes that
  -- overlap both pumps at work and a message that waits. No other event panics.
  abbrev pub Panics : Event f A → Session f A → Type 0
  Panics (write (some message)) s = s.is_closed ≡ true
  Panics (overlap now) s = (s.is_writing ≡ true) × (s.is_pinging ≡ true) × (1 ≤ length s.send)
  Panics _ s = ⊥

  -- A run comes to a panic by the first event that panics.
  pub record IsPanic (s : Session f A) (events : List (Event f A)) : Type 0 where
    pub before : List (Event f A)
    pub event : Event f A
    pub after : List (Event f A)
    pub split : events ≡ before ++ event ∷ after
    pub reached : Session f A
    pub led : run f A before s ≡ some reached
    pub panics : Panics event reached

  abbrev pub IsRun : Session f A → List (Event f A) → Option (Session f A) → Type 0
  IsRun s events none = IsPanic s events
  IsRun s events (some t) = IsSession t

  later :
      (e : Event f A) (events : List (Event f A)) (s t : Session f A)
      → step f A e s ≡ some t
      → IsRun t events (run f A events t)
      → IsRun s (e ∷ events) (run f A (e ∷ events) s)
  unfolding run
  later e events s t stepped h = rw (stepped, run) (on (run f A events t) h)
    where
      on : (o : Option (Session f A)) → IsRun t events o → IsRun s (e ∷ events) o
      on (some u) h = h
      on none h = record {
        before = e ∷ h.before;
        event = h.event;
        after = h.after;
        split = ap (◌∷◌ e) h.split;
        reached = h.reached;
        led = rw (stepped, run) h.led;
        panics = h.panics;
      }

  overlapping :
      (now : ℕ) (s : Session f A)
      → writes_overlap f A now s ≡ true
      → (s.is_writing ≡ true) × (s.is_pinging ≡ true) × (1 ≤ length s.send)
  unfolding writes_overlap
  overlapping now s h = ground (arith, h)

  panicked : (e : Event f A) (s : Session f A) → step f A e s ≡ none → Panics e s
  unfolding step write_json
  panicked (write none) s h = absurd cc
  panicked (write (some message)) s h = elim (Bool-cases s.is_closed) [
    | inl ended ↦ ended
    | inr still ↦ elim (Bool-cases (ltb (length s.send) 32)) [
      | inl free ↦ let odd = rw (still, free) at h in absurd cc
      | inr full ↦ let odd = rw (still, full) at h in absurd cc
    ]
  ]
  panicked (written_out is_sent) s h = absurd cc
  panicked (ping now is_sent) s h = absurd cc
  panicked (message_in elapsed now) s h = absurd cc
  panicked close s h = absurd cc
  panicked (overlap now) s h = elim (Bool-cases (writes_overlap f A now s)) [
    | inl both ↦ overlapping now s both
    | inr apart ↦ let odd = rw apart at h in absurd cc
  ]

  run_from-IsRun :
      (events : List (Event f A)) (s : Session f A)
      → IsSession s
      → IsRun s events (run f A events s)
  unfolding run
  run_from-IsRun [] s i = i
  run_from-IsRun (e ∷ events) s i = elim (Option-cases (step f A e s)) [
    | inl stopped ↦
        rw (stopped, run)
          (record {
            before = [];
            event = e;
            after = events;
            split = refl;
            reached = s;
            led = refl;
            panics = panicked e s stopped;
          })
    | inr (t, stepped) ↦
        later e events s t stepped
          (run_from-IsRun events t (subst (Holds IsSession) stepped (step-Holds e s i)))
  ]

  -- A session calls onClose once when it is closed and not before, and its channel has 32 messages
  -- at most. The messages that WriteJSON took are, in their order, those that were written, those
  -- that a failed write lost, and those that wait: nothing is lost while the write pump runs, and
  -- one message at most when it has ended. A run of calls, of rounds of the pumps and of writes of
  -- both that overlap comes to all of its end, unless a message is given to WriteJSON after the end
  -- of the session, or the writes overlap while both pumps work and a message waits: a panic is the
  -- first such event, and nothing else of these panics.
  pub run-IsRun :
      (idle_timeout : ℕ) (limiter : MessageLimiter f) (now : ℕ) (events : List (Event f A))
      → IsRun
          (new_session f A idle_timeout limiter now)
          events
          (run f A events (new_session f A idle_timeout limiter now))
  run-IsRun idle_timeout limiter now events =
      run_from-IsRun events (new_session f A idle_timeout limiter now)
        (new_session-IsSession idle_timeout limiter now)
