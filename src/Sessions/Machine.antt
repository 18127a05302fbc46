-- ===== src/Sessions/Machine.antt =====
-- The room server as a machine: src/room/main.cpp runs one `io_context` in one thread, so what
-- happens is a sequence of events, each handled to its end.
use project_sos_backend.Common.RateLimiter.{RateLimiter}
use project_sos_backend.Common.SessionStore.{Store}
use project_sos_backend.RoomManager.Proto.{Request}
use project_sos_backend.RoomManager.State.{Server, Config, Client}
use project_sos_backend.RoomManager.Listing.{lobby_timer_fired}
use project_sos_backend.Sessions.Client.{accept, close, process_all, is_closed}
use project_sos_backend.Sessions.GameServer.{
  GameServer, GameRequest, process_game_message, close_game_server,
}
use project_sos_backend.Base.{
  ℕ, ◌≡◌, String, Bool, false, Option, none, some, List, [], ◌∷◌, eqb, if◌then◌else◌,
}

pub data Event (S : Type 0) : Type 0 where
  -- a client connects, and its session object is made at an address
  accepted : ℕ → String → Event S
  -- a read that brings bytes to a session, with the messages in them
  received : ℕ → List Request → Event S
  -- end of file, an error of a read or write, or the heartbeat timeout
  ended : ℕ → Event S
  -- the last pointer to the session object is gone
  destroyed : ℕ → Event S
  from_game_server : GameServer → GameRequest → Event S
  game_server_ended : GameServer → Event S
  lobby_timer : Bool → Event S
  -- Redis changes by itself or by another client
  redis_changed : S → Event S

-- The heap without the object at an address.
unfoldable pub free_client : ℕ → (ℕ → Option Client) → ℕ → Option Client
free_client a clients b = if eqb b a then none else clients b

module _ {S : Type 0} (config : Config S) (store : Store S) (limiter : Option (RateLimiter S)) where
  -- Addresses of living objects are not given out again, a read can end after its session is
  -- closed, and the destructor closes the session first.
  unfoldable pub step : Event S → Server S → Server S
  unfolding accept process_all close free_client process_game_message close_game_server
      lobby_timer_fired
  step (accepted a ip) w = elim (w.clients a) [ none ↦ accept a ip w | some _ ↦ w ]
  step (received a requests) w = elim (w.clients a) [
    | none ↦ w
    | some _ ↦ process_all config limiter a requests w
  ]
  step (ended a) w = close a w
  step (destroyed a) w = let w1 = close a w in record w1 { clients = free_client a w1.clients }
  step (from_game_server g request) w = (process_game_message config store request g w).1
  step (game_server_ended g) w = (close_game_server config store g w).1
  step (lobby_timer cancelled) w = lobby_timer_fired cancelled w
  step (redis_changed s) w = record w { io = record w.io { redis = s } }

  unfoldable pub run : List (Event S) → Server S → Server S
  run [] w = w
  run (e ∷ events) w = run events (step e w)

  -- No read of the run brings messages to a session that is closed already.
  abbrev pub IsPrompt : Event S → Server S → Type 0
  IsPrompt (received a requests) w = is_closed w a ≡ false
  IsPrompt _ w = Unit

  abbrev pub AllPrompt : List (Event S) → Server S → Type 0
  AllPrompt [] w = Unit
  AllPrompt (e ∷ events) w = IsPrompt e w × AllPrompt events (step e w)

-- A server that has just been made.
abbrev pub new_server : {S : Type 0} → S → Server S
new_server s = record {
  rooms = [];
  player_to_room = λ _. none;
  sessions = λ _. none;
  lobby_sessions = [];
  lobby_broadcast_pending = false;
  clients = λ _. none;
  io = record { sent = []; notices = []; redis = s; drawn = 0 };
}
