-- ===== src/Sessions/GameServer.antt =====
-- src/room/internal/GameServerSession.cpp: the messages of a game server, with the session's own
-- fields as a record.
use project_sos_backend.Common.SessionStore.{
  Store, TokenData, validate_token, update_game_server_heartbeat,
}
use project_sos_backend.RoomManager.State.{Server, Config}
use project_sos_backend.RoomManager.Game.{handle_slot_released, handle_game_server_disconnect}
use project_sos_backend.Base.{
  String, Bool, true, false, Option, none, some, List, [], ◌∷◌, ◌++◌, ◌==◌, if◌then◌else◌,
}

pub data GameRequest : Type 0 where
  token_validate_request : String → GameRequest
  -- `player_id` and `session_id`
  slot_released : String → String → GameRequest
  game_server_heartbeat : String → GameRequest
  other : GameRequest

-- `TokenValidateResponse`: the two texts are empty where `valid` is false.
pub record TokenReply : Type 0 where
  pub valid : Bool
  pub player_id : String
  pub session_id : String

pub record GameServer : Type 0 where
  pub server_id : String
  pub closed : Bool
  pub sent : List TokenReply

abbrev pub invalid_token : TokenReply
invalid_token = record { valid = false; player_id = ""; session_id = "" }

-- A missing token and an exception both read as invalid.
abbrev pub token_reply : Option (Option TokenData) → TokenReply
token_reply none = invalid_token
token_reply (some none) = invalid_token
token_reply (some (some token)) = record {
  valid = true;
  player_id = token.player_id;
  session_id = token.session_id;
}

module _ {S : Type 0} (config : Config S) (store : Store S) where
  unfoldable pub handle_token_validate : String → GameServer → Server S → GameServer × Server S
  unfolding validate_token
  handle_token_validate token g w =
      let (result, redis') = validate_token store token w.io.redis in
      (
        record g { sent = g.sent ++ token_reply result ∷ [] },
        record w { io = record w.io { redis = redis' } },
      )

  unfoldable pub handle_game_server_heartbeat :
      String → GameServer → Server S → GameServer × Server S
  unfolding update_game_server_heartbeat
  handle_game_server_heartbeat server_id g w = (
    record g { server_id = server_id },
    record w {
      io = record w.io { redis = (update_game_server_heartbeat store server_id w.io.redis).1 };
    },
  )

  unfoldable pub process_game_message : GameRequest → GameServer → Server S → GameServer × Server S
  unfolding handle_token_validate handle_game_server_heartbeat handle_slot_released
  process_game_message (token_validate_request token) g w = handle_token_validate token g w
  process_game_message (slot_released player_id session_id) g w =
      (g, handle_slot_released config player_id session_id w)
  process_game_message (game_server_heartbeat server_id) g w =
      handle_game_server_heartbeat server_id g w
  process_game_message other g w = (g, w)

  -- A server that has sent no heartbeat has no id, and its end closes no game.
  unfoldable pub close_game_server : GameServer → Server S → GameServer × Server S
  unfolding handle_game_server_disconnect
  close_game_server g w = if g.closed then (g, w) else (
    record g { closed = true },
    if g.server_id == "" then w else handle_game_server_disconnect config w,
  )
