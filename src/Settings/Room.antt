-- ===== src/Settings/Room.antt =====
-- The settings of the room server: the first part of `main` in src/room/main.cpp, and what it makes of
-- them.
use project_sos_backend.Common.Redis.{Redis}
use project_sos_backend.Common.SessionStore.{Store, TokenData}
use project_sos_backend.Common.RateLimiter.{RateLimiter}
use project_sos_backend.RoomManager.State.{Config}
use project_sos_backend.Settings.{Json, new_config, word, text, assign_all, with}
use project_sos_backend.Settings.Chat.{as_limit}
use project_sos_backend.Base.{ℕ, String, true, Option, none, some, List, [], ◌∷◌}

pub record RoomSettings : Type 0 where
  pub room_port : ℕ
  pub internal_port : ℕ
  pub max_rooms : ℕ
  pub max_players_per_room : ℕ
  pub redis_host : String
  pub redis_port : ℕ
  pub redis_password : String
  pub token_ttl_seconds : ℕ
  pub heartbeat_timeout_seconds : ℕ
  pub game_server_heartbeat_ttl_seconds : ℕ
  pub rate_limit_max : ℕ
  pub rate_limit_window_seconds : ℕ
  pub game_server_host : String
  pub game_server_port : ℕ
  pub chat_server_host : String
  pub chat_server_port : ℕ

abbrev pub room_defaults : RoomSettings
room_defaults = record {
  room_port = 8080;
  internal_port = 8081;
  max_rooms = 100;
  max_players_per_room = 8;
  redis_host = "127.0.0.1";
  redis_port = 6379;
  redis_password = "";
  token_ttl_seconds = 60;
  heartbeat_timeout_seconds = 30;
  game_server_heartbeat_ttl_seconds = 90;
  rate_limit_max = 20;
  rate_limit_window_seconds = 10;
  game_server_host = "127.0.0.1";
  game_server_port = 7979;
  chat_server_host = "127.0.0.1";
  chat_server_port = 8083;
}

module _ {J I : Type 0} (json : Json J I) where
  -- The accessors of `Config`, in the order in which `main` calls them.
  unfoldable pub room_assignments : J → List (RoomSettings → Option RoomSettings)
  unfolding word text
  room_assignments j =
      (λ s. with (word json 16 "room_port" 8080 j) (λ v. record s { room_port = v }))
      ∷ (λ s. with (word json 16 "internal_port" 8081 j) (λ v. record s { internal_port = v }))
      ∷ (λ s. with (word json 32 "max_rooms" 100 j) (λ v. record s { max_rooms = v }))
      ∷ (λ s.
          with (word json 32 "max_players_per_room" 8 j)
            (λ v. record s { max_players_per_room = v }))
      ∷ (λ s. with (text json "redis_host" "127.0.0.1" j) (λ v. record s { redis_host = v }))
      ∷ (λ s. with (word json 16 "redis_port" 6379 j) (λ v. record s { redis_port = v }))
      ∷ (λ s. with (text json "redis_password" "" j) (λ v. record s { redis_password = v }))
      ∷ (λ s.
          with (word json 32 "token_ttl_seconds" 60 j) (λ v. record s { token_ttl_seconds = v }))
      ∷ (λ s.
          with (word json 32 "heartbeat_timeout_seconds" 30 j)
            (λ v. record s { heartbeat_timeout_seconds = v }))
      ∷ (λ s.
          with (word json 32 "game_server_heartbeat_ttl_seconds" 90 j)
            (λ v. record s { game_server_heartbeat_ttl_seconds = v }))
      ∷ (λ s. with (word json 32 "rate_limit_max" 20 j) (λ v. record s { rate_limit_max = v }))
      ∷ (λ s.
          with (word json 32 "rate_limit_window_seconds" 10 j)
            (λ v. record s { rate_limit_window_seconds = v }))
      ∷ (λ s.
          with (text json "game_server_host" "127.0.0.1" j)
            (λ v. record s { game_server_host = v }))
      ∷ (λ s.
          with (word json 16 "game_server_port" 7979 j) (λ v. record s { game_server_port = v }))
      ∷ (λ s.
          with (text json "chat_server_host" "127.0.0.1" j)
            (λ v. record s { chat_server_host = v }))
      ∷ (λ s.
          with (word json 16 "chat_server_port" 8083 j) (λ v. record s { chat_server_port = v }))
      ∷ []

  -- Any exception is caught, and leaves the settings as they are by then.
  unfoldable pub room_settings : (String → Option String) → Option J → RoomSettings
  unfolding new_config room_assignments assign_all
  room_settings getenv file = elim (new_config json getenv file) [
    | none ↦ room_defaults
    | some j ↦ assign_all (room_assignments j) room_defaults
  ]

module _ {S : Type 0} (redis : Redis S) (uuid : ℕ → String) (dump : TokenData → String)
    (parse : String → Option TokenData) where
  abbrev pub room_store : RoomSettings → Store S
  room_store s = record {
    redis = redis;
    uuid = uuid;
    dump = dump;
    parse = parse;
    token_ttl = s.token_ttl_seconds;
    heartbeat_ttl = s.game_server_heartbeat_ttl_seconds;
  }

  -- The room manager always has a session store and a chat channel.
  abbrev pub room_config : RoomSettings → Config S
  room_config s = record {
    max_rooms = s.max_rooms;
    max_players_per_room = s.max_players_per_room;
    game_server_host = s.game_server_host;
    game_server_port = s.game_server_port;
    session_store = some (room_store s);
    has_chat_channel = true;
    uuid = uuid;
  }

module _ {S : Type 0} (redis : Redis S) where
  abbrev pub room_limiter : RoomSettings → RateLimiter S
  room_limiter s = record {
    redis = redis;
    max_requests = as_limit s.rate_limit_max;
    window = s.rate_limit_window_seconds;
    key_prefix = "rate:";
  }
