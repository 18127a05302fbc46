-- ===== src/Handover.antt =====
-- A game, through both servers: the notices that src/room/room/RoomManager.cpp hands to the chat
-- server, and what src/chat/channel/ChannelManager.cpp makes of them where they arrive in order.
pub mod Connection
pub mod Tests
use project_sos_backend.Common.RateLimiter.{RateLimiter}
use project_sos_backend.Room.Players.{PlayerData, any_player, erase_player}
use project_sos_backend.Room.{
  Room, in_game, has_player, is_host, can_start, set_state, set_session_id, player_ids,
}
use project_sos_backend.RoomManager.Proto.{ChatNotice, session_created, session_ended}
use project_sos_backend.RoomManager.State.{Server, Io, send_to, notify_room_list_changed}
use project_sos_backend.RoomManager.State as RoomState
use project_sos_backend.RoomManager.Game.{
  draw_uuid, has_active_game, register_session_id, issue_token, game_start_message,
  send_game_starts, notify_session_created, start_accepted, start_found, handle_start_game,
  handle_slot_released,
}
use project_sos_backend.RoomManager.Effects.Games.{handle_slot_released-last}
use project_sos_backend.Chat.Proto.{Notice}
use project_sos_backend.Chat.State.{Chat, Config, has_member}
use project_sos_backend.Chat.Machine.{Event, noticed, run, step, process_notice}
use project_sos_backend.Chat.Members.{Holds, lists, says_session}
use project_sos_backend.Chat.Games.{
  Login, logins, logs_in, AllAble, session_created-Gathered, session_ended-lobby,
}
use project_sos_backend.Base.{
  ℕ, suc, insert, ◌≡◌, ◌≢◌, refl, sym, ap, ◌∙◌, String, Bool, true, false, ◌||◌, Option, none, some,
  List, [], ◌∷◌, ◌++◌, map, lookup, append-nil, append_assoc, inl, inr, Option-cases, arith, ◌==◌,
}

-- A notice on its way: a `ChatEnvelope` of proto/chat.proto on both sides.
abbrev pub received_notice : ChatNotice → Notice
received_notice (session_created s players) = Notice.session_created s players
received_notice (session_ended s) = Notice.session_ended s

abbrev pub notice_events : {S : Type 0} → List ChatNotice → List (Event S)
notice_events [] = []
notice_events (n ∷ ns) = noticed (received_notice n) ∷ notice_events ns

-- The players of a room, each asking from a session of its own to enter the game's channel.
abbrev pub room_logins : (String → ℕ) → ℕ → List PlayerData → List Login
room_logins session now [] = []
room_logins session now (p ∷ ps) =
    record {
      player_id = p.player_id;
      player_name = p.player_name;
      session = session p.player_id;
      now = now;
    }
    ∷ room_logins session now ps

logs_in-room_logins :
    (q : String) (session : String → ℕ) (now : ℕ) (ps : List PlayerData)
    → logs_in q (room_logins session now ps) ≡ any_player q ps
unfolding logs_in any_player
logs_in-room_logins q session now [] = refl
logs_in-room_logins q session now (p ∷ ps) = ground (arith, logs_in-room_logins q session now ps)

module _ {S : Type 0} where
  notices-notify_room_list_changed :
      (w : Server S) → (notify_room_list_changed w).io.notices ≡ w.io.notices
  unfolding notify_room_list_changed
  notices-notify_room_list_changed w = ground arith

module _ {S : Type 0} (config : RoomState.Config S) where
  notices-send_game_starts :
      (w : Server S) (s : String) (ids : List String) (io : Io S)
      → (send_game_starts config w s ids io).notices ≡ io.notices
  unfolding send_game_starts issue_token send_to
  notices-send_game_starts w s [] io = refl
  notices-send_game_starts w s (id ∷ ids) io =
      let (token, io') = issue_token config id s io in
      notices-send_game_starts w s ids (send_to w id (game_start_message config s token) io')
      ∙ ground arith

  notices-register_session_id :
      (sid : String) (io : Io S) → (register_session_id config sid io).notices ≡ io.notices
  unfolding register_session_id
  notices-register_session_id sid io = ground arith

  notices-notify_session_created :
      (sid : String) (room : Room) (io : Io S)
      → config.has_chat_channel ≡ true
      → (notify_session_created config sid room io).notices
        ≡ io.notices
          ++ session_created sid
              (map (λ (p : PlayerData). (p.player_id, p.player_name)) room.players)
            ∷ []
  unfolding notify_session_created
  notices-notify_session_created sid room io chat = rw (chat, notify_session_created) refl

  notices-start_accepted :
      (r : String) (room : Room) (w : Server S)
      → config.has_chat_channel ≡ true
      → (start_accepted config r room w).io.notices
        ≡ w.io.notices
          ++ session_created
              (config.uuid w.io.drawn)
              (map (λ (p : PlayerData). (p.player_id, p.player_name)) room.players)
            ∷ []
  unfolding start_accepted set_state set_session_id draw_uuid
  notices-start_accepted r room w chat =
      let sid = config.uuid w.io.drawn in
      let room' : Room = record room { state = in_game; session_id = sid } in
      let w1 : Server S = record w { rooms = insert r room' w.rooms } in
      let io2 = register_session_id config sid (record w.io { drawn = suc w.io.drawn }) in
      let io3 = send_game_starts config w1 sid (player_ids room') io2 in
      notices-notify_room_list_changed
        (record w1 { io = notify_session_created config sid room' io3 })
      ∙ notices-notify_session_created sid room' io3 chat
      ∙ rw
          (
            notices-send_game_starts w1 sid (player_ids room') io2,
            notices-register_session_id sid (record w.io { drawn = suc w.io.drawn }),
          )
          refl

  notices-handle_start_game :
      (p r : String) (room : Room) (w : Server S)
      → w.player_to_room p ≡ some r
      → lookup r w.rooms ≡ some room
      → is_host room p ≡ true
      → has_active_game w.rooms ≡ false
      → can_start room ≡ true
      → config.has_chat_channel ≡ true
      → (handle_start_game config p w).io.notices
        ≡ w.io.notices
          ++ session_created
              (config.uuid w.io.drawn)
              (map (λ (p : PlayerData). (p.player_id, p.player_name)) room.players)
            ∷ []
  unfolding handle_start_game start_found
  notices-handle_start_game p r room w points found host idle ready chat =
      rw (points, found, host, idle, ready, handle_start_game, start_found)
        (notices-start_accepted r room w chat)

module _ {S T : Type 0} (config : RoomState.Config S) (chat_config : Config T)
    (limiter : Option (RateLimiter T)) where
  -- When the host asks to start, no game runs, all are ready, there is a chat channel and the
  -- session's UUID is not empty: the room server hands over notices such that, once the chat server
  -- has processed them and then the requests of the room's players to enter the session, from
  -- sessions that are open and with names and ids that are not empty, its channel of the session
  -- lists exactly the players of the room, and the state of each of them names the session, as does
  -- that of those whose state named it before, and of nobody else.
  pub handle_start_game-gathers :
      (p r q : String) (room : Room) (w : Server S) (session : String → ℕ) (now : ℕ) (v : Chat T)
      → w.player_to_room p ≡ some r
      → lookup r w.rooms ≡ some room
      → is_host room p ≡ true
      → has_active_game w.rooms ≡ false
      → can_start room ≡ true
      → config.has_chat_channel ≡ true
      → config.uuid w.io.drawn ≢ ""
      → AllAble v (room_logins session now room.players)
      → let s = config.uuid w.io.drawn in
        (notices : List ChatNotice) × ((handle_start_game config p w).io.notices
          ≡ w.io.notices ++ notices)
        × (let v' =
              run chat_config limiter
                (notice_events notices ++ logins s (room_logins session now room.players))
                v in
            (lists (v'.session_channels s) q ≡ has_player room q)
            × (says_session (v'.players q) s ≡ (has_player room q || says_session (v.players q) s)))
  unfolding has_player
  handle_start_game-gathers p r q room w session now v points found host idle ready chat named
        able =
      let s = config.uuid w.io.drawn in
      let players = map (λ (p : PlayerData). (p.player_id, p.player_name)) room.players in
      let g =
        session_created-Gathered chat_config limiter s players
          (room_logins session now room.players) v q named able in
      let e = logs_in-room_logins q session now room.players in
      (
        session_created s players ∷ [],
        notices-handle_start_game config p r room w points found host idle ready chat,
        (g.0 ∙ e, g.1 ∙ ap (λ b. b || says_session (v.players q) s) e),
      )

  -- When the last player of a room is released under the id of the room's session, which is not
  -- empty, and there is a chat channel: the room server hands over notices after which the chat
  -- server, in a state that keeps the invariant of the channels, has no channel for the session,
  -- and its lobby lists those whom it listed before and the members of that channel.
  pub handle_slot_released-scatters :
      (p r q : String) (room : Room) (w : Server S) (v : Chat T)
      → w.player_to_room p ≡ some r
      → lookup r w.rooms ≡ some room
      → has_player room p ≡ true
      → erase_player p room.players ≡ []
      → room.session_id ≢ ""
      → config.has_chat_channel ≡ true
      → Holds v
      → (notices : List ChatNotice) × ((handle_slot_released config p room.session_id w).io.notices
          ≡ w.io.notices ++ notices)
        × (let v' = run chat_config limiter (notice_events notices) v in
            (v'.session_channels room.session_id ≡ none)
            × (has_member q v'.lobby_members
                ≡ (lists (v.session_channels room.session_id) q || has_member q v.lobby_members)))
  unfolding run step process_notice
  handle_slot_released-scatters p r q room w v points found inside last named chat h =
      let e = handle_slot_released-last config p r room w points found inside last named chat in
      (
        session_ended room.session_id ∷ [],
        e.3,
        session_ended-lobby chat_config room.session_id v q h,
      )
