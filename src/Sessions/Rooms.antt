-- ===== src/Sessions/Rooms.antt =====
-- What the invariants of the room server say together: src/room/server and src/room/room.
use project_sos_backend.Common.RateLimiter.{RateLimiter}
use project_sos_backend.Common.SessionStore.{Store}
use project_sos_backend.Room.{Room, in_game, has_player}
use project_sos_backend.RoomManager.State.{
  Server, Config, Client, player_id_of, set_client, remove_lobby_session, unregister_session,
  set_player_id,
}
use project_sos_backend.RoomManager.Leave.{handle_disconnect}
use project_sos_backend.Sessions.Client.{close, disconnect_player}
use project_sos_backend.RoomManager.Connected.{
  is_connected, handle_leave_room-gone, handle_leave_room-Shrinks,
}
use project_sos_backend.RoomManager.Invariant.{IsSane}
use project_sos_backend.Sessions.Machine.{Event, run, AllPrompt, new_server}
use project_sos_backend.Sessions.Safety.{run-new_server-Holds}
use project_sos_backend.Sessions.Connections.{run-new_server-Connected}
use project_sos_backend.Base.{
  ℕ, ◌≡◌, ◌≢◌, String, true, false, Option, none, some, List, lookup, arith,
}

module _ {S : Type 0} (config : Config S) (store : Store S) (limiter : Option (RateLimiter S))
    (sane : IsSane config) where
  -- Where UUIDs do not repeat and the limit on players is below 2 ^ 32: in every state that a new
  -- server reaches, but where no read brings messages to a session that is closed already, a player
  -- whom a room lists, but for the empty id, is mapped to that room and has an open session that
  -- speaks for the player.
  pub room_players-connected :
      (s : S) (events : List (Event S)) (p r : String) (room : Room)
      → AllPrompt config store limiter events (new_server s)
      → let w = run config store limiter events (new_server s) in
        lookup r w.rooms ≡ some room
        → has_player room p ≡ true
        → p ≢ ""
        → (w.player_to_room p ≡ some r) × (is_connected w p ≡ true)
  room_players-connected s events p r room prompt found inside named =
      let w = run config store limiter events (new_server s) in
      let h = run-new_server-Holds config store limiter sane s events in
      let mapped : w.player_to_room p ≡ some r = ground (arith, h.agree p r) in
      (mapped, run-new_server-Connected config store limiter s events prompt p r named mapped)

  -- Where UUIDs do not repeat and the limit on players is below 2 ^ 32: in every state that a new
  -- server reaches, two rooms that list the same player are one room, and so are two rooms in
  -- game.
  pub rooms_unique :
      (s : S) (events : List (Event S)) (q r : String) (x y : Room)
      → let w = run config store limiter events (new_server s) in
        lookup q w.rooms ≡ some x
        → lookup r w.rooms ≡ some y
        → ((p : String) → has_player x p ≡ true → has_player y p ≡ true → q ≡ r)
          × (x.state ≡ in_game → y.state ≡ in_game → q ≡ r)
  rooms_unique s events q r x y e f =
      let h = run-new_server-Holds config store limiter sane s events in
      ((λ p i j. ground (arith, h.agree p q, h.agree p r)), h.one_game q r x y e f)

module _ {S : Type 0} where
  -- When an open session that speaks for a player is closed, the player is in no room and has no session
  -- entry, and the session speaks for nobody.
  pub close-forgotten :
      (a : ℕ) (c : Client) (w : Server S)
      → w.clients a ≡ some c
      → c.closed ≡ false
      → c.player_id ≢ ""
      → ((close a w).player_to_room c.player_id ≡ none)
        × ((close a w).sessions c.player_id ≡ none)
        × (player_id_of (close a w) a ≡ "")
  unfolding close disconnect_player handle_disconnect unregister_session set_player_id set_client
  close-forgotten a c w found live named =
      let w1 : Server S =
        remove_lobby_session a
          (record w { clients = set_client a (record c { closed = true }) w.clients }) in
      ground (
        arith,
        handle_leave_room-gone c.player_id w1,
        (handle_leave_room-Shrinks c.player_id w1).clients,
      )

  -- When a session without a player id closes, the rooms and the player map stay as they are.
  pub close-anonymous :
      (a : ℕ) (c : Client) (w : Server S)
      → w.clients a ≡ some c
      → c.player_id ≡ ""
      → ((close a w).rooms ≡ w.rooms) × ((close a w).player_to_room ≡ w.player_to_room)
  unfolding close disconnect_player remove_lobby_session
  close-anonymous a c w found named = ground arith
