-- ===== src/RoomManager/Frames.antt =====
-- What the helpers of src/room/room/RoomManager.cpp leave alone: messages to sessions draw no UUID,
-- and what concerns the lobby changes no room.
use project_sos_backend.RoomManager.Proto.{Envelope}
use project_sos_backend.RoomManager.State.{
  Server, Config, Io, lock, send, send_to, broadcast_to, broadcast_except, notify_room_list_changed,
  set_player_id, remove,
}
use project_sos_backend.RoomManager.Leave.{return_to_lobby, release_players}
use project_sos_backend.RoomManager.Listing.{send_to_lobby, send_first_page, lobby_timer_fired}
use project_sos_backend.RoomManager.Game.{
  issue_token, game_start_message, send_game_starts, register_session_id, notify_session_created,
  end_session,
}
use project_sos_backend.Room.Players.{mem_id}
use project_sos_backend.Room.{Room}
use project_sos_backend.Base.{
  ℕ, ◌≤◌, ◌≡◌, refl, ap, ◌∙◌, String, Bool, true, false, Option, none, some, List, [], ◌∷◌, arith,
  ◌==◌, if◌then◌else◌,
}

-- The mapping without some players.
unfoldable pub unmapped : List String → (String → Option String) → String → Option String
unmapped ids mapping p = if mem_id p ids then none else mapping p

module _ {S : Type 0} where
  pub drawn-send_to :
      (w : Server S) (id : String) (e : Envelope) (io : Io S) → (send_to w id e io).drawn ≡ io.drawn
  unfolding send_to
  drawn-send_to w id e io = ground arith

  pub drawn-broadcast_to :
      (w : Server S) (ids : List String) (e : Envelope) (io : Io S)
      → (broadcast_to w ids e io).drawn ≡ io.drawn
  unfolding broadcast_to
  drawn-broadcast_to w [] e io = refl
  drawn-broadcast_to w (id ∷ ids) e io =
      drawn-broadcast_to w ids e (send_to w id e io) ∙ drawn-send_to w id e io

  pub drawn-broadcast_except :
      (w : Server S) (ids : List String) (e : Envelope) (x : String) (io : Io S)
      → (broadcast_except w ids e x io).drawn ≡ io.drawn
  unfolding broadcast_except
  drawn-broadcast_except w [] e x io = refl
  drawn-broadcast_except w (id ∷ ids) e x io =
      drawn-broadcast_except w ids e x (if id == x then io else send_to w id e io)
      ∙ ground (arith, drawn-send_to w id e io)

  -- The maps of rooms and players, and the UUIDs drawn, are those of another state.
  pub record SameBook (v w : Server S) : Type 0 where
    pub rooms : w.rooms ≡ v.rooms
    pub mapping : w.player_to_room ≡ v.player_to_room
    pub drawn : w.io.drawn ≡ v.io.drawn

  pub notify-SameBook : (w : Server S) → SameBook w (notify_room_list_changed w)
  unfolding notify_room_list_changed
  notify-SameBook w = ground arith

  pub set_player_id-SameBook :
      (a : ℕ) (id : String) (w : Server S) → SameBook w (set_player_id a id w)
  unfolding set_player_id
  set_player_id-SameBook a id w = ground arith

  pub return_to_lobby-SameBook : (id : String) (w : Server S) → SameBook w (return_to_lobby id w)
  unfolding return_to_lobby
  return_to_lobby-SameBook id w = ground arith

  pub io-return_to_lobby : (id : String) (w : Server S) → (return_to_lobby id w).io ≡ w.io
  unfolding return_to_lobby
  io-return_to_lobby id w = ground arith

  pub record Released (ids : List String) (v w : Server S) : Type 0 where
    pub rooms : w.rooms ≡ v.rooms
    pub mapping : (p : String) → w.player_to_room p ≡ unmapped ids v.player_to_room p
    pub io : w.io ≡ v.io

  pub release_players-Released :
      (ids : List String) (w : Server S) → Released ids w (release_players ids w)
  unfolding release_players unmapped mem_id
  release_players-Released [] w = record { rooms = refl; mapping = λ p. refl; io = refl }
  release_players-Released (id ∷ ids) w =
      let w1 = return_to_lobby id w in
      let w2 = record w1 { player_to_room = remove id w1.player_to_room } in
      let rest = release_players-Released ids w2 in
      record {
        rooms = rest.rooms ∙ (return_to_lobby-SameBook id w).rooms;
        mapping = λ p.
            let m = (return_to_lobby-SameBook id w).mapping in
            ground (arith, rest.mapping p, ap (λ (f : String → Option String). f p) m);
        io = rest.io ∙ io-return_to_lobby id w;
      }

  pub drawn-end_session :
      (config : Config S) (room : Room) (io : Io S) → (end_session config room io).drawn ≡ io.drawn
  unfolding end_session
  drawn-end_session config room io = ground arith

  issue_token-later :
      (config : Config S) (id sid : String) (io : Io S)
      → io.drawn ≤ (issue_token config id sid io).1.drawn
  unfolding issue_token
  issue_token-later config id sid io = ground arith

  pub send_game_starts-later :
      (config : Config S) (w : Server S) (sid : String) (ids : List String) (io : Io S)
      → io.drawn ≤ (send_game_starts config w sid ids io).drawn
  unfolding send_game_starts
  send_game_starts-later config w sid [] io = omega arith
  send_game_starts-later config w sid (id ∷ ids) io =
      let step = issue_token config id sid io in
      let message = game_start_message config sid step.0 in
      omega (
        arith,
        issue_token-later config id sid io,
        drawn-send_to w id message step.1,
        send_game_starts-later config w sid ids (send_to w id message step.1),
      )

  pub drawn-register_session_id :
      (config : Config S) (sid : String) (io : Io S)
      → (register_session_id config sid io).drawn ≡ io.drawn
  unfolding register_session_id
  drawn-register_session_id config sid io = ground arith

  pub drawn-notify_session_created :
      (config : Config S) (sid : String) (room : Room) (io : Io S)
      → (notify_session_created config sid room io).drawn ≡ io.drawn
  unfolding notify_session_created
  drawn-notify_session_created config sid room io = ground arith

  drawn-send_to_lobby :
      (w : Server S) (e : Envelope) (lobby : List ℕ) (io : Io S)
      → (send_to_lobby w e lobby io).drawn ≡ io.drawn
  unfolding send_to_lobby
  drawn-send_to_lobby w e [] io = refl
  drawn-send_to_lobby w e (a ∷ lobby) io =
      drawn-send_to_lobby w e lobby (elim (lock w a) [ none ↦ io | some b ↦ send b e io ])
      ∙ ground arith

  send_first_page-SameBook : (lobby : List ℕ) (w : Server S) → SameBook w (send_first_page lobby w)
  unfolding send_first_page
  send_first_page-SameBook [] w = record { rooms = refl; mapping = refl; drawn = refl }
  send_first_page-SameBook (a ∷ lobby) w = record {
    rooms = refl;
    mapping = refl;
    drawn = drawn-send_to_lobby w _ (a ∷ lobby) w.io;
  }

  pub lobby_timer_fired-SameBook :
      (cancelled : Bool) (w : Server S) → SameBook w (lobby_timer_fired cancelled w)
  unfolding lobby_timer_fired
  lobby_timer_fired-SameBook true w = record { rooms = refl; mapping = refl; drawn = refl }
  lobby_timer_fired-SameBook false w =
      let same =
        send_first_page-SameBook w.lobby_sessions (record w { lobby_broadcast_pending = false }) in
      record { rooms = same.rooms; mapping = same.mapping; drawn = same.drawn }
