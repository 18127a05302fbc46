-- ===== src/Settings/Server.antt =====
-- The settings that the room server of src/room/main.cpp takes from its file and its environment.
use project_sos_backend.Common.Fixtures.{differs}
use project_sos_backend.Common.Redis.{Redis}
use project_sos_backend.Common.SessionStore.{TokenData}
use project_sos_backend.RoomManager.Invariant.{Holds}
use project_sos_backend.Sessions.Machine.{Event, run, new_server}
use project_sos_backend.Sessions.Safety.{run-new_server-Holds}
use project_sos_backend.Settings.{Json, new_config, word, text, assign_all}
use project_sos_backend.Settings.Laws.{
  IsObject, text_setting, word_setting, overridden, text-overridden, word-overridden,
}
use project_sos_backend.Settings.Room.{
  RoomSettings, room_assignments, room_settings, room_store, room_config, room_limiter,
}
use project_sos_backend.Base.{◌<◌, ◌^◌, ℕ, ◌≡◌, ◌≢◌, refl, ◌∙◌, String, Option, some, List, dec_str}

module _ {J I : Type 0} (json : Json J I) (low_bits : ℕ → I → ℕ) (object : IsObject json low_bits)
    (getenv : String → Option String) where
  -- Every setting, under its own key, with its width and its default: from the environment, if the
  -- key has a variable, or else from the file.
  pub record IsConfigured (j : J) (v : RoomSettings) : Type 0 where
    pub room_port :
        word_setting json low_bits object getenv "room_port" 16 8080 j ≡ some v.room_port
    pub internal_port :
        word_setting json low_bits object getenv "internal_port" 16 8081 j ≡ some v.internal_port
    pub max_rooms : word_setting json low_bits object getenv "max_rooms" 32 100 j ≡ some v.max_rooms
    pub max_players_per_room :
        word_setting json low_bits object getenv "max_players_per_room" 32 8 j
        ≡ some v.max_players_per_room
    pub redis_host :
        text_setting json low_bits object getenv "redis_host" "127.0.0.1" j ≡ some v.redis_host
    pub redis_port :
        word_setting json low_bits object getenv "redis_port" 16 6379 j ≡ some v.redis_port
    pub redis_password :
        text_setting json low_bits object getenv "redis_password" "" j ≡ some v.redis_password
    pub token_ttl_seconds :
        word_setting json low_bits object getenv "token_ttl_seconds" 32 60 j
        ≡ some v.token_ttl_seconds
    pub heartbeat_timeout_seconds :
        word_setting json low_bits object getenv "heartbeat_timeout_seconds" 32 30 j
        ≡ some v.heartbeat_timeout_seconds
    pub game_server_heartbeat_ttl_seconds :
        word_setting json low_bits object getenv "game_server_heartbeat_ttl_seconds" 32 90 j
        ≡ some v.game_server_heartbeat_ttl_seconds
    pub rate_limit_max :
        word_setting json low_bits object getenv "rate_limit_max" 32 20 j ≡ some v.rate_limit_max
    pub rate_limit_window_seconds :
        word_setting json low_bits object getenv "rate_limit_window_seconds" 32 10 j
        ≡ some v.rate_limit_window_seconds
    pub game_server_host :
        text_setting json low_bits object getenv "game_server_host" "127.0.0.1" j
        ≡ some v.game_server_host
    pub game_server_port :
        word_setting json low_bits object getenv "game_server_port" 16 7979 j
        ≡ some v.game_server_port
    pub chat_server_host :
        text_setting json low_bits object getenv "chat_server_host" "127.0.0.1" j
        ≡ some v.chat_server_host
    pub chat_server_port :
        word_setting json low_bits object getenv "chat_server_port" 16 8083 j
        ≡ some v.chat_server_port

  text_of :
      (key default : String) (j : J) (v : String)
      → key ≢ "redis_port"
      → key ≢ "chat_server_port"
      → text_setting json low_bits object getenv key default j ≡ some v
      → text json key default (overridden json low_bits object getenv j) ≡ some v
  text_of key default j v ne1 ne2 e =
      text-overridden json low_bits object getenv key default j ne1 ne2 ∙ e

  word_of :
      (key : String) (bits default : ℕ) (j : J) (v : ℕ)
      → key ≢ "redis_host"
      → key ≢ "redis_password"
      → key ≢ "chat_server_host"
      → word_setting json low_bits object getenv key bits default j ≡ some v
      → word json bits key default (overridden json low_bits object getenv j) ≡ some v
  word_of key bits default j v ne1 ne2 ne3 e =
      word-overridden json low_bits object getenv key bits default j ne1 ne2 ne3 ∙ e

  -- Where objects behave as documented, the file is an object and every setting can be read: each of
  -- the sixteen settings that the program uses is the one under its own key, in its own width, from
  -- the environment if the key has a variable that is set and, for a port, is a number, or else from
  -- the file, or else its own default.
  pub room_settings-configured :
      (j : J) (v : RoomSettings) → IsConfigured j v → room_settings json getenv (some j) ≡ v
  unfolding room_settings room_assignments assign_all new_config dec_str
  room_settings-configured j v n =
      rw
        (
          word_of "room_port" 16 8080 j v.room_port (differs "room_port" "redis_host" refl)
              (differs "room_port" "redis_password" refl)
              (differs "room_port" "chat_server_host" refl) n.room_port,
          word_of "internal_port" 16 8081 j v.internal_port
              (differs "internal_port" "redis_host" refl)
              (differs "internal_port" "redis_password" refl)
              (differs "internal_port" "chat_server_host" refl) n.internal_port,
          word_of "max_rooms" 32 100 j v.max_rooms (differs "max_rooms" "redis_host" refl)
              (differs "max_rooms" "redis_password" refl)
              (differs "max_rooms" "chat_server_host" refl) n.max_rooms,
          word_of "max_players_per_room" 32 8 j v.max_players_per_room
              (differs "max_players_per_room" "redis_host" refl)
              (differs "max_players_per_room" "redis_password" refl)
              (differs "max_players_per_room" "chat_server_host" refl) n.max_players_per_room,
          text_of "redis_host" "127.0.0.1" j v.redis_host (differs "redis_host" "redis_port" refl)
              (differs "redis_host" "chat_server_port" refl) n.redis_host,
          word_of "redis_port" 16 6379 j v.redis_port (differs "redis_port" "redis_host" refl)
              (differs "redis_port" "redis_password" refl)
              (differs "redis_port" "chat_server_host" refl) n.redis_port,
          text_of "redis_password" "" j v.redis_password
              (differs "redis_password" "redis_port" refl)
              (differs "redis_password" "chat_server_port" refl) n.redis_password,
          word_of "token_ttl_seconds" 32 60 j v.token_ttl_seconds
              (differs "token_ttl_seconds" "redis_host" refl)
              (differs "token_ttl_seconds" "redis_password" refl)
              (differs "token_ttl_seconds" "chat_server_host" refl) n.token_ttl_seconds,
          word_of "heartbeat_timeout_seconds" 32 30 j v.heartbeat_timeout_seconds
              (differs "heartbeat_timeout_seconds" "redis_host" refl)
              (differs "heartbeat_timeout_seconds" "redis_password" refl)
              (differs "heartbeat_timeout_seconds" "chat_server_host" refl)
              n.heartbeat_timeout_seconds,
          word_of "game_server_heartbeat_ttl_seconds" 32 90 j v.game_server_heartbeat_ttl_seconds
              (differs "game_server_heartbeat_ttl_seconds" "redis_host" refl)
              (differs "game_server_heartbeat_ttl_seconds" "redis_password" refl)
              (differs "game_server_heartbeat_ttl_seconds" "chat_server_host" refl)
              n.game_server_heartbeat_ttl_seconds,
          word_of "rate_limit_max" 32 20 j v.rate_limit_max
              (differs "rate_limit_max" "redis_host" refl)
              (differs "rate_limit_max" "redis_password" refl)
              (differs "rate_limit_max" "chat_server_host" refl) n.rate_limit_max,
          word_of "rate_limit_window_seconds" 32 10 j v.rate_limit_window_seconds
              (differs "rate_limit_window_seconds" "redis_host" refl)
              (differs "rate_limit_window_seconds" "redis_password" refl)
              (differs "rate_limit_window_seconds" "chat_server_host" refl)
              n.rate_limit_window_seconds,
          text_of "game_server_host" "127.0.0.1" j v.game_server_host
              (differs "game_server_host" "redis_port" refl)
              (differs "game_server_host" "chat_server_port" refl) n.game_server_host,
          word_of "game_server_port" 16 7979 j v.game_server_port
              (differs "game_server_port" "redis_host" refl)
              (differs "game_server_port" "redis_password" refl)
              (differs "game_server_port" "chat_server_host" refl) n.game_server_port,
          text_of "chat_server_host" "127.0.0.1" j v.chat_server_host
              (differs "chat_server_host" "redis_port" refl)
              (differs "chat_server_host" "chat_server_port" refl) n.chat_server_host,
          word_of "chat_server_port" 16 8083 j v.chat_server_port
              (differs "chat_server_port" "redis_host" refl)
              (differs "chat_server_port" "redis_password" refl)
              (differs "chat_server_port" "chat_server_host" refl) n.chat_server_port,
        )
        refl

module _ {J I S : Type 0} (json : Json J I) (low_bits : ℕ → I → ℕ) (object : IsObject json low_bits)
    (getenv : String → Option String) (redis : Redis S) (uuid : ℕ → String)
    (distinct : (m n : ℕ) → uuid m ≡ uuid n → m ≡ n) (dump : TokenData → String)
    (parse : String → Option TokenData) where
  -- The rooms of the server that the program makes of such settings keep to the limits that stand
  -- under their own keys.
  configured-Holds :
      (j : J) (v : RoomSettings) (s : S) (events : List (Event S))
      → IsConfigured json low_bits object getenv j v
      → v.max_players_per_room < 2 ^ 32
      → let settings = room_settings json getenv (some j) in
        Holds (room_config redis uuid dump parse v) (
          run
            (room_config redis uuid dump parse settings)
            (room_store redis uuid dump parse settings)
            (some (room_limiter redis settings))
            events
            (new_server s))
  configured-Holds j v s events n small =
      rw (room_settings-configured json low_bits object getenv j v n) (
        run-new_server-Holds (room_config redis uuid dump parse v)
          (room_store redis uuid dump parse v) (some (room_limiter redis v))
          (record { distinct = distinct; word = small }) s events)
