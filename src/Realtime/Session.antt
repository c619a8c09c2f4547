-- ===== src/Realtime/Session.antt =====
-- internal/wsnearby/session.go: one connection with its channel of messages to send, its two pumps and
-- its end. Each event is one step: a call from outside, one round of a pump by itself, or the
-- `overlap` of two writes of the pumps, which gorilla/websocket, a connection of which takes one
-- writer at a time, ends with a panic when it notices. The clock, JSON and whether a write to the
-- connection succeeds are arguments; `none` is a panic. `posted` and
-- `written` record what WriteJSON took and what the connection got; what the calls return is left.
pub mod Laws
use geo.Base.{
  ℕ, suc, ◌-◌, List, [], ◌∷◌, ◌++◌, Option, none, some, Bool, true, false, if◌then◌else◌, ltb, leb,
  length, ◌>>=◌, ◌&&◌,
}
use geo.Base.Float.{Float}
use geo.Realtime.MessageLimiter.{MessageLimiter, allow}

module _ (f : Float) (A : Type 0) where
  pub record Session : Type 0 where
    pub idle_timeout : ℕ
    pub send : List A
    pub limiter : MessageLimiter f
    pub last_act : ℕ
    pub is_closed : Bool
    pub on_close_calls : ℕ
    pub is_writing : Bool
    pub is_pinging : Bool
    pub posted : List A
    pub written : List A

  -- NewSession and RunPumps
  pub new_session : ℕ → MessageLimiter f → ℕ → Session
  new_session idle_timeout limiter now = record {
    idle_timeout = idle_timeout;
    send = [];
    limiter = limiter;
    last_act = now;
    is_closed = false;
    on_close_calls = 0;
    is_writing = true;
    is_pinging = true;
    posted = [];
    written = [];
  }

  -- Close, once: onClose is called, and the channel and the connection are closed.
  pub close_session : Session → Session
  close_session s =
      if s.is_closed
      then s
      else record s { is_closed = true; on_close_calls = suc s.on_close_calls }

  -- WriteJSON of what json.Marshal gives, and so WriteError and WritePong: a send on a closed channel
  -- panics, and a client that is too slow for the 32 places of the channel is cut off.
  pub write_json : Option A → Session → Option Session
  write_json none s = some s
  write_json (some message) s =
      if s.is_closed
      then none
      else if ltb (length s.send) 32
      then some (record s { send = s.send ++ message ∷ []; posted = s.posted ++ message ∷ [] })
      else some (close_session s)

  -- A round of writePump. At the end of the channel and at a failed write it returns and closes.
  pub write_round : Bool → Session → Session
  write_round is_sent s =
      if s.is_writing
      then elim s.send [
        | [] ↦ if s.is_closed then close_session (record s { is_writing = false }) else s
        | message ∷ rest ↦
            if is_sent
            then record s { send = rest; written = s.written ++ message ∷ [] }
            else close_session (record s { send = rest; is_writing = false })
      ]
      else s

  -- A tick of pingPump.
  pub ping_round : ℕ → Bool → Session → Session
  ping_round now is_sent s =
      if s.is_pinging
      then if leb s.idle_timeout (now - s.last_act)
        then close_session (record s { is_pinging = false })
        else record s { is_pinging = is_sent }
      else s

  -- AllowMessage
  pub allow_message : f.F → ℕ → Session → Session × Bool
  allow_message elapsed now s =
      let (limiter, is_allowed) = allow f elapsed s.limiter in
      if is_allowed
      then (record s { limiter = limiter; last_act = now }, true)
      else (record s { limiter = limiter }, false)

  pub data Event : Type 0 where
    write : Option A → Event
    written_out : Bool → Event
    ping : ℕ → Bool → Event
    message_in : f.F → ℕ → Event
    close : Event
    overlap : ℕ → Event

  -- Both pumps are in conn.WriteMessage at once: writePump has a message, and pingPump has a tick on a
  -- session that is not idle. Nothing in the session keeps them apart.
  pub writes_overlap : ℕ → Session → Bool
  writes_overlap now s =
      s.is_writing
      && (s.is_pinging && (ltb (now - s.last_act) s.idle_timeout && ltb 0 (length s.send)))

  pub step : Event → Session → Option Session
  unfolding write_round ping_round allow_message close_session writes_overlap
  step (write json) s = write_json json s
  step (written_out is_sent) s = some (write_round is_sent s)
  step (ping now is_sent) s = some (ping_round now is_sent s)
  step (message_in elapsed now) s = some (allow_message elapsed now s).0
  step close s = some (close_session s)
  step (overlap now) s = if writes_overlap now s then none else some s

  pub run : List Event → Session → Option Session
  run [] s = some s
  run (e ∷ events) s = step e s >>= run events
