-- ===== src/Network/Room/Silent.antt =====
-- What becomes of a client of the room server that has gone silent: the timer of
-- src/room/server/ClientSession.cpp, and src/room/room/RoomManager.cpp.
use mathlib.Core.Path.{subst}
use project_sos_backend.Common.RateLimiter.{RateLimiter}
use project_sos_backend.Common.SessionStore.{Store}
use project_sos_backend.RoomManager.Proto.{Request, Envelope}
use project_sos_backend.RoomManager.State.{Server, Config, Client}
use project_sos_backend.Sessions.Client.{close, is_closed}
use project_sos_backend.Sessions.Machine.{new_server}
use project_sos_backend.Sessions.Rooms.{close-forgotten}
use project_sos_backend.Sessions.Connections.Closing.{close-closed}
use project_sos_backend.Network.{Net, NetEvent, ticked, timer_ended, settle, net_run, no_lines}
use project_sos_backend.Network.Kept.{OnSome}
use project_sos_backend.Network.Silence.{Watched}
use project_sos_backend.Network.Silence.Runs.{net_run-Watched, tick-closes}
use project_sos_backend.Network.Room.{Inside, room_host, room_run}
use project_sos_backend.Network.Room.Closed.{room_host-Closes}
use project_sos_backend.Base.{
  ℕ, ◌+◌, ◌≤◌, ◌≡◌, ◌≢◌, String, true, false, Option, none, some, List, [], ◌∷◌, arith,
}

module _ {S : Type 0} (config : Config S) (store : Store S) (limiter : Option (RateLimiter S))
    (serialize : Envelope → List ℕ) (parse : List ℕ → Option Request) (timeout : ℕ) where
  -- Where the timeout is not zero: in every state that a new server reaches, once `timeout` has
  -- passed since the last read of an open session that speaks for a player, or since its start, the
  -- clock and the handler of its wait leave the session closed and the player in no room and with no
  -- session entry.
  pub room_run-silent :
      (events : List (NetEvent String (Inside S))) (s : S) (n : Net (Server S) Envelope) (a now : ℕ)
      (c : Client)
      → 1 ≤ timeout
      → room_run config store limiter serialize parse timeout events s ≡ some n
      → n.host.clients a ≡ some c
      → c.closed ≡ false
      → c.player_id ≢ ""
      → (n.lines a).timer.active + timeout ≤ now
      → (n' : Net (Server S) Envelope) × (net_run
            (room_host config store limiter)
            serialize
            parse
            timeout
            (ticked a now ∷ timer_ended a ∷ [])
            n
          ≡ some n')
        × (is_closed n'.host a ≡ true)
        × (n'.host.player_to_room c.player_id ≡ none)
        × (n'.host.sessions c.player_id ≡ none)
  unfolding room_host settle
  room_run-silent events s n a now c positive runs found live named late =
      let host = room_host config store limiter in
      let closes = room_host-Closes config store limiter in
      let watched : Watched host closes serialize parse timeout n =
        subst (OnSome (Watched host closes serialize parse timeout)) runs (
          net_run-Watched host closes serialize parse timeout events
            (record { host = new_server s; lines = no_lines }) positive (λ b up. cc up)) in
      let up : is_closed n.host a ≡ false = ground (arith, found, live) in
      let (lines, e) = tick-closes host closes serialize parse timeout a now n watched up late in
      let gone = close-forgotten a c n.host found live named in
      (settle host serialize (close a n.host) lines, e, close-closed a n.host, gone.0, gone.1)
