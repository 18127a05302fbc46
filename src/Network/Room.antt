-- ===== src/Network/Room.antt =====
-- The room server on its connections: src/room/server/ClientSession.cpp from the bytes of the clients
-- to the bytes for them, over src/room/room/RoomManager.cpp.
pub mod Closed
pub mod Silent
use project_sos_backend.Common.RateLimiter.{RateLimiter}
use project_sos_backend.Common.SessionStore.{Store}
use project_sos_backend.RoomManager.Proto.{Request, Envelope}
use project_sos_backend.RoomManager.State.{Server, Config}
use project_sos_backend.RoomManager.Connected.{Connected}
use project_sos_backend.Sessions.Client.{accept, close, process_all, is_closed}
use project_sos_backend.Sessions.GameServer.{GameServer, GameRequest}
use project_sos_backend.Sessions.Machine.{
  Event, accepted, ended, destroyed, from_game_server, game_server_ended, lobby_timer,
  redis_changed, step, run, IsPrompt, new_server,
}
use project_sos_backend.Sessions.Connections.{
  run-new_server-Connected, process_all-Connected, step-Connected,
}
use project_sos_backend.Sessions.Connections.Closing.{close-Connected, accept-Connected}
use project_sos_backend.Network.{Host, Net, NetEvent, net_run, no_lines}
use project_sos_backend.Network.Kept.{Keeps, AllReads, net_run-keeps}
use project_sos_backend.Base.{
  ℕ, ◌≡◌, refl, String, Bool, true, false, Option, none, some, List, [], ◌∷◌, arith,
}

-- What happens besides the reads, writes and timers of clients.
pub data Inside (S : Type 0) : Type 0 where
  -- the last pointer to a session object is gone
  released : ℕ → Inside S
  from_game : GameServer → GameRequest → Inside S
  game_ended : GameServer → Inside S
  lobby_wait_ended : Bool → Inside S
  redis_set : S → Inside S

abbrev pub event_of : {S : Type 0} → Inside S → Event S
event_of (released a) = destroyed a
event_of (from_game g request) = from_game_server g request
event_of (game_ended g) = game_server_ended g
event_of (lobby_wait_ended cancelled) = lobby_timer cancelled
event_of (redis_set s) = redis_changed s

module _ {S : Type 0} (config : Config S) (store : Store S) (limiter : Option (RateLimiter S)) where
  event_of-IsPrompt : (e : Inside S) (w : Server S) → IsPrompt config store limiter (event_of e) w
  event_of-IsPrompt (released a) w = tt
  event_of-IsPrompt (from_game g request) w = tt
  event_of-IsPrompt (game_ended g) w = tt
  event_of-IsPrompt (lobby_wait_ended cancelled) w = tt
  event_of-IsPrompt (redis_set s) w = tt

  unfoldable pub room_host : Host (Server S) Request Envelope String (Inside S)
  unfolding accept close process_all step
  room_host = record {
    is_taken = λ w a. elim (w.clients a) [ none ↦ false | some _ ↦ true ];
    is_closed = is_closed;
    connect = accept;
    process = λ a now requests w. process_all config limiter a requests w;
    close = close;
    other = λ e w. step config store limiter (event_of e) w;
    out = λ w. w.io.sent;
    clear = λ w. record w { io = record w.io { sent = [] } };
  }

module _ {S : Type 0} (config : Config S) (store : Store S) (limiter : Option (RateLimiter S))
    (serialize : Envelope → List ℕ) (parse : List ℕ → Option Request) (timeout : ℕ) where
  abbrev pub room_run : List (NetEvent String (Inside S)) → S → Option (Net (Server S) Envelope)
  room_run events s =
      net_run (room_host config store limiter) serialize parse timeout events
        (record { host = new_server s; lines = no_lines })

  Connected-kept : Keeps (room_host config store limiter) (λ w a. is_closed w a ≡ false) Connected
  unfolding room_host
  Connected-kept = record {
    connect = λ a ip w free h. accept-Connected a ip w h (ground (arith, free));
    process =
        λ a now requests w live h. process_all-Connected config store limiter a requests w h live;
    close = λ a w h. close-Connected a w h;
    other = λ e w h.
        step-Connected config store limiter (event_of e) w h
          (event_of-IsPrompt config store limiter e w);
    clear = λ w h. h;
  }

  -- In every state that a new server reaches, whatever bytes its clients send and however reads,
  -- writes and waits end, but where no read brings bytes to a session that is closed already: a
  -- player who is in a room has an open session that speaks for the player. The empty id is
  -- excepted.
  pub room_run-Connected :
      (events : List (NetEvent String (Inside S))) (s : S) (n : Net (Server S) Envelope)
      → room_run events s ≡ some n
      → AllReads
          (room_host config store limiter)
          serialize
          parse
          timeout
          (λ w a. is_closed w a ≡ false)
          events
          (record { host = new_server s; lines = no_lines })
      → Connected n.host
  unfolding run
  room_run-Connected events s n runs prompt =
      net_run-keeps (room_host config store limiter) serialize parse timeout
        (λ w a. is_closed w a ≡ false) Connected Connected-kept events
        (record { host = new_server s; lines = no_lines }) n runs prompt
        (run-new_server-Connected config store limiter s [] tt)
