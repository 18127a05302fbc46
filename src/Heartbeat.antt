-- ===== src/Heartbeat.antt =====
-- The heartbeat timer of src/room/server/ClientSession.cpp and src/chat/server/ChatSession.cpp: a
-- session from which nothing has been read for too long is closed. Time is a number of seconds.
pub mod Laws
pub mod Tests
use project_sos_backend.Base.{
  ℕ, zero, suc, ◌+◌, Bool, true, false, Option, none, some, List, [], ◌∷◌, leb, eqb, if◌then◌else◌,
}

pub record Session : Type 0 where
  pub closed : Bool
  -- when the wait that is under way ends
  pub armed : Option ℕ
  -- waits that have ended in time, and whose handler has not run yet
  pub due : ℕ
  -- the time of `start` or of the last read
  pub active : ℕ

-- `expires_after` cancels the wait that is under way, but not the handler of one that has ended.
unfoldable pub reset_heartbeat_timer : ℕ → ℕ → Session → Session
reset_heartbeat_timer timeout now s =
    if eqb timeout 0 then s else record s { armed = some (now + timeout) }

unfoldable pub start : ℕ → ℕ → Session
unfolding reset_heartbeat_timer
start timeout now =
    reset_heartbeat_timer timeout now
      (record { closed = false; armed = none; due = 0; active = now })

-- `closed_ = true` and `heartbeat_timer_.cancel()`
unfoldable pub close : Session → Session
close s = if s.closed then s else record s { closed = true; armed = none }

-- The handler of a read, with the time and whether the read has failed or one of its messages has
-- closed the session.
unfoldable pub read_handler : ℕ → ℕ → Bool → Session → Session
unfolding close reset_heartbeat_timer
read_handler timeout now closes s =
    if closes then close s else reset_heartbeat_timer timeout now (record s { active = now })

-- The handler of a wait that was not cancelled.
unfoldable pub timer_handler : Session → Session
unfolding close
timer_handler s = close s

pub data HeartbeatEvent : Type 0 where
  read_ended : ℕ → Bool → HeartbeatEvent
  -- the clock of the timer goes on
  ticked : ℕ → HeartbeatEvent
  timer_ended : HeartbeatEvent

-- A wait ends when its time has come.
unfoldable pub tick : ℕ → Session → Session
tick now s = elim s.armed [
  | none ↦ s
  | some expiry ↦ if leb expiry now then record s { armed = none; due = suc s.due } else s
]

module _ (timeout : ℕ) where
  -- There is no handler of a wait that has not ended.
  unfoldable pub heartbeat_step : HeartbeatEvent → Session → Session
  unfolding read_handler tick timer_handler
  heartbeat_step (read_ended now closes) s = read_handler timeout now closes s
  heartbeat_step (ticked now) s = tick now s
  heartbeat_step timer_ended s = elim s.due [
    | zero ↦ s
    | suc n ↦ timer_handler (record s { due = n })
  ]

  unfoldable pub heartbeat_run : List HeartbeatEvent → Session → Session
  heartbeat_run [] s = s
  heartbeat_run (e ∷ events) s = heartbeat_run events (heartbeat_step e s)
