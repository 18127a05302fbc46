-- ===== src/Sessions/Tickets/Tests.antt =====
-- A game of Ann and Ben, whose tokens the game server presents.
use project_sos_backend.Common.SessionStore.{Store}
use project_sos_backend.Common.Tests.{texts, texts-StoresTexts, nothing_stored}
use project_sos_backend.Common.Fixtures.{fixed_store, unary, unary_distinct}
use project_sos_backend.Room.Players.{all_ready}
use project_sos_backend.Room.{is_host, can_start, player_ids}
use project_sos_backend.RoomManager.Proto.{Envelope}
use project_sos_backend.RoomManager.State.{Config, Server, set_client}
use project_sos_backend.RoomManager.Game.{has_active_game, game_start_message, handle_start_game}
use project_sos_backend.RoomManager.Tests.{server_over, ready_room}
use project_sos_backend.Sessions.GameServer.{
  GameRequest, token_validate_request, slot_released, game_server_heartbeat, GameServer,
  invalid_token, handle_token_validate,
}
use project_sos_backend.Sessions.GameReads.{process_game_messages}
use project_sos_backend.Sessions.Tickets.{KeepsTexts, presented}
use project_sos_backend.Sessions.Tickets.Game.{handle_start_game-ticket}
use project_sos_backend.Base.{
  ℕ, ◌≡◌, refl, String, true, false, Option, some, List, [], ◌∷◌, ◌++◌, lookup, dec_str,
}

abbrev Texts : Type 0
Texts = String → Option String

-- The text of the fields is the player's id; the session is always the first one.
abbrev store : Store Texts
store = record (fixed_store texts) {
  dump = λ d. d.player_id;
  parse = λ t. some (record { player_id = t; session_id = "u" });
}

abbrev config : Config Texts
config = record {
  max_rooms = 4;
  max_players_per_room = 8;
  game_server_host = "host";
  game_server_port = 7000;
  session_store = some store;
  has_chat_channel = true;
  uuid = unary;
}

texts-KeepsTexts : KeepsTexts texts (λ s k. s k)
texts-KeepsTexts = record { srem_read = λ _ _ _ _. refl }

abbrev game : GameServer
game = record { server_id = "game"; closed = false; sent = [] }

-- Before Ben's token, the game server presents another one; afterwards Ann's slot is released.
abbrev before : List GameRequest
before = game_server_heartbeat "game" ∷ token_validate_request "unknown" ∷ []

abbrev after : List GameRequest
after = slot_released "ann" "u" ∷ []

abbrev ready : Server Texts
ready = server_over nothing_stored ready_room

handle_start_game-ticket_example :
    let w' = handle_start_game config "ann" ready in
    let first = process_game_messages config store before game w' in
    let asked = handle_token_validate config store "uuu" first.0 first.1 in
    let second = process_game_messages config store after asked.0 asked.1 in
    ((early : List (ℕ × Envelope)) × (late : List (ℕ × Envelope)) × (w'.io.sent
        ≡ early ++ (2, game_start_message config "u" "uuu") ∷ late))
    × (asked.0.sent
        ≡ first.0.sent ++ record { valid = true; player_id = "ben"; session_id = "u" } ∷ [])
    × ((handle_token_validate config store "uuu" second.0 second.1).0.sent
        ≡ second.0.sent ++ invalid_token ∷ [])
unfolding unary has_active_game lookup dec_str is_host can_start all_ready player_ids presented
    set_client
handle_start_game-ticket_example =
    handle_start_game-ticket config store (λ s k. s k) texts-StoresTexts texts-KeepsTexts refl
      unary_distinct "ann" "r1" "ben" ready_room 2 1 ready before after game refl refl refl refl
      refl refl refl refl refl
