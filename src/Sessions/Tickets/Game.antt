-- ===== src/Sessions/Tickets/Game.antt =====
-- A game of src/room/room/RoomManager.cpp, from the request of the host to the answers of
-- src/room/internal/GameServerSession.cpp.
use project_sos_backend.Common.SessionStore.{Store, TokenData}
use project_sos_backend.Common.Tokens.{StoresTexts}
use project_sos_backend.Room.{
  Room, in_game, is_host, can_start, set_state, set_session_id, player_ids,
}
use project_sos_backend.RoomManager.Proto.{Envelope}
use project_sos_backend.RoomManager.State.{
  Server, Config, Io, find_session, notify_room_list_changed,
}
use project_sos_backend.RoomManager.Game.{
  draw_uuid, has_active_game, game_start_message, send_game_starts, register_session_id,
  notify_session_created, start_accepted, start_found, handle_start_game,
}
use project_sos_backend.Sessions.GameServer.{
  GameRequest, GameServer, invalid_token, handle_token_validate,
}
use project_sos_backend.Sessions.GameReads.{process_game_messages}
use project_sos_backend.Base.{
  ℕ, suc, ◌+◌, ◌≡◌, ap, ◌∙◌, String, true, false, Option, some, List, [], ◌∷◌, ◌++◌, lookup, insert,
  get_elem?, arith,
}
use project_sos_backend.Sessions.Tickets.{
  KeepsTexts, presented, ticket, validate_token-value, ticket-validate_token,
  ticket-process_game_messages,
}
use project_sos_backend.Sessions.Tickets.Issue.{Ticketed, send_game_starts-Ticketed}

module _ {S : Type 0} (config : Config S) (store : Store S) (read : S → String → Option String)
    (laws : StoresTexts store.redis read) (sets : KeepsTexts store.redis read)
    (shared : config.session_store ≡ some store) where
  io-notify_room_list_changed : (w : Server S) → (notify_room_list_changed w).io ≡ w.io
  unfolding notify_room_list_changed
  io-notify_room_list_changed w = ground arith

  sent-notify_session_created :
      (sid : String) (room : Room) (io : Io S)
      → ((notify_session_created config sid room io).sent ≡ io.sent)
        × ((notify_session_created config sid room io).redis ≡ io.redis)
  unfolding notify_session_created
  sent-notify_session_created sid room io = ground arith

  sent-register_session_id :
      (sid : String) (io : Io S)
      → ((register_session_id config sid io).sent ≡ io.sent)
        × ((register_session_id config sid io).drawn ≡ io.drawn)
  unfolding register_session_id
  sent-register_session_id sid io = ground arith

  module _ (distinct : (m n : ℕ) → store.uuid m ≡ store.uuid n → m ≡ n) where
    handle_start_game-Ticketed :
        (p r id : String) (room : Room) (a i : ℕ) (w : Server S)
        → w.player_to_room p ≡ some r
        → lookup r w.rooms ≡ some room
        → is_host room p ≡ true
        → has_active_game w.rooms ≡ false
        → can_start room ≡ true
        → get_elem? (player_ids room) i ≡ some id
        → find_session w id ≡ some a
        → let sid = config.uuid w.io.drawn in
          let token = store.uuid (suc (i + w.io.drawn)) in
          Ticketed read a
            (game_start_message config sid token)
            token
            (store.dump (record { player_id = id; session_id = sid }))
            w.io.sent
            (handle_start_game config p w).io
    unfolding handle_start_game start_found start_accepted set_state set_session_id draw_uuid
        player_ids
    handle_start_game-Ticketed p r id room a i w points found host idle ready there online =
        let sid = config.uuid w.io.drawn in
        let room' : Room = record room { state = in_game; session_id = sid } in
        let w1 : Server S = record w { rooms = insert r room' w.rooms } in
        let io1 : Io S = record w.io { drawn = suc w.io.drawn } in
        let io2 = register_session_id config sid io1 in
        let io3 = send_game_starts config w1 sid (player_ids room') io2 in
        let (same, drawn) = sent-register_session_id sid io1 in
        let t =
          send_game_starts-Ticketed config store read laws sets shared distinct w1 sid id a i
            (suc (i + w.io.drawn)) (player_ids room') io2 (omega (arith, drawn)) there online in
        let created = sent-notify_session_created sid room' io3 in
        let e =
          io-notify_room_list_changed
            (record w1 { io = notify_session_created config sid room' io3 }) in
        let tail =
          t.before
          ++ (a, game_start_message config sid (store.uuid (suc (i + w.io.drawn)))) ∷ t.after in
        rw (points, found, host, idle, ready, handle_start_game, start_found, e)
          (record {
            before = t.before;
            after = t.after;
            told = created.0 ∙ t.told ∙ ap (λ xs. xs ++ tail) same;
            stored = ap (ticket read _) created.1 ∙ t.stored;
          })

    -- Where the servers share a store over a Redis that keeps texts as documented while no command
    -- fails and nothing expires, where UUIDs do not repeat, and where the text of the token's fields
    -- reads back as them: when the host asks to start, no game runs and all are ready, each player
    -- of the room whose session is connected is sent, on that session, the address of the game
    -- server with the session's id and a token. Whatever requests the game server sends before it
    -- first presents the token, the answer names this player and this session, and whatever it
    -- sends afterwards, the answer to the token presented again is that it is not valid.
    pub handle_start_game-ticket :
        (p r id : String) (room : Room) (a i : ℕ) (w : Server S) (before after : List GameRequest)
        (g : GameServer)
        → w.player_to_room p ≡ some r
        → lookup r w.rooms ≡ some room
        → is_host room p ≡ true
        → has_active_game w.rooms ≡ false
        → can_start room ≡ true
        → get_elem? (player_ids room) i ≡ some id
        → find_session w id ≡ some a
        → let sid = config.uuid w.io.drawn in
          let token = store.uuid (suc (i + w.io.drawn)) in
          let fields : TokenData = record { player_id = id; session_id = sid } in
          store.parse (store.dump fields) ≡ some fields
          → presented token before ≡ false
          → let w' = handle_start_game config p w in
            let first = process_game_messages config store before g w' in
            let asked = handle_token_validate config store token first.0 first.1 in
            let second = process_game_messages config store after asked.0 asked.1 in
            ((early : List (ℕ × Envelope)) × (late : List (ℕ × Envelope)) × (w'.io.sent
                ≡ w.io.sent ++ (early ++ (a, game_start_message config sid token) ∷ late)))
            × (asked.0.sent
                ≡ first.0.sent ++ record { valid = true; player_id = id; session_id = sid } ∷ [])
            × ((handle_token_validate config store token second.0 second.1).0.sent
                ≡ second.0.sent ++ invalid_token ∷ [])
    unfolding handle_token_validate
    handle_start_game-ticket p r id room a i w before after g points found host idle ready there
          online reads fresh =
        let sid = config.uuid w.io.drawn in
        let token = store.uuid (suc (i + w.io.drawn)) in
        let t =
          handle_start_game-Ticketed p r id room a i w points found host idle ready there online in
        let first = process_game_messages config store before g (handle_start_game config p w) in
        let asked = handle_token_validate config store token first.0 first.1 in
        let second = process_game_messages config store after asked.0 asked.1 in
        (
          (t.before, t.after, t.told),
          ground (
            arith,
            t.stored,
            ticket-process_game_messages config store read laws sets shared token before g
                (handle_start_game config p w),
            validate_token-value store read laws token first.1.io.redis,
          ),
          ground (
            arith,
            ticket-validate_token store read laws token token first.1.io.redis,
            ticket-process_game_messages config store read laws sets shared token after asked.0
                asked.1,
            validate_token-value store read laws token second.1.io.redis,
          ),
        )
