-- ===== src/Settings/Tests.antt =====
-- Settings of concrete objects: a list of texts under their keys stands for a `nlohmann::json` object.
use project_sos_backend.Common.Fixtures.{differs}
use project_sos_backend.Settings.{Json, new_config, word, text}
use project_sos_backend.Settings.Room.{RoomSettings, room_defaults, room_settings}
use project_sos_backend.Settings.Laws.{IsObject, new_config-settings}
use project_sos_backend.Settings.Server.{IsConfigured, room_settings-configured}
use project_sos_backend.Base.{
  ℕ, ◌%◌, ◌^◌, ◌≡◌, refl, String, Bool, true, false, Option, none, some, dec_str, arith, ◌==◌,
  if◌then◌else◌,
}

-- A value is a text or a number.
data Value : Type 0 where
  of_text : String → Value
  of_number : ℕ → Value

-- An object, as what it has under each key.
abbrev Object : Type 0
Object = String → Option Value

abbrev set : String → Value → Object → Object
set key v j k = if k == key then some v else j k

abbrev as_text : Option Value → Option String
as_text (some (of_text t)) = some t
as_text _ = none

abbrev as_word : ℕ → Option Value → Option ℕ
as_word bits (some (of_number n)) = some (n % 2 ^ bits)
as_word bits _ = none

abbrev has_value : Option Value → Bool
has_value none = false
has_value (some _) = true

abbrev objects : Json Object ℕ
objects = record {
  contains = λ k j. has_value (j k);
  get_word = λ bits k j. as_word bits (j k);
  get_text = λ k j. as_text (j k);
  set_text = λ key v j. set key (of_text v) j;
  set_number = λ key i j. set key (of_number i) j;
  stoi = λ t. if t == "7000" then some 7000 else none;
}

objects-IsObject : IsObject objects (λ bits i. i % 2 ^ bits)
objects-IsObject = record {
  contains-set_text = λ k key v j. ground arith;
  contains-set_number = λ k key i j. ground arith;
  text-set_text = λ k key v j. ground arith;
  text-set_number = λ k key i j ne. ground arith;
  word-set_text = λ bits k key v j ne. ground arith;
  word-set_number = λ bits k key i j. ground arith;
}

-- The environment names the host of Redis and a port, and a port that is no number.
abbrev environment : String → Option String
environment v =
    if v == "REDIS_HOST"
    then some "redis"
    else if v == "REDIS_PORT"
    then some "7000"
    else if v == "CHAT_SERVER_PORT"
    then some "none"
    else none

abbrev file : Object
file = set "redis_host" (of_text "localhost") (set "max_rooms" (of_number 4) (λ _. none))

new_config-settings_example :
    (j1 : Object) × (new_config objects environment (some file) ≡ some j1)
    × (text objects "redis_host" "127.0.0.1" j1 ≡ some "redis")
    × (word objects 16 "redis_port" 6379 j1 ≡ some 7000)
unfolding dec_str
new_config-settings_example =
    new_config-settings objects (λ bits i. i % 2 ^ bits) objects-IsObject environment file
      "redis_host" "127.0.0.1" "redis_port" 16 6379 (differs "redis_host" "redis_port" refl)
      (differs "redis_host" "chat_server_port" refl) (differs "redis_port" "redis_host" refl)
      (differs "redis_port" "redis_password" refl) (differs "redis_port" "chat_server_host" refl)

abbrev configured : RoomSettings
configured = record room_defaults { max_rooms = 4; redis_host = "redis"; redis_port = 7000 }

file-IsConfigured :
    IsConfigured objects (λ bits i. i % 2 ^ bits) objects-IsObject environment file configured
unfolding text word dec_str
file-IsConfigured = record {
  room_port = refl;
  internal_port = refl;
  max_rooms = refl;
  max_players_per_room = refl;
  redis_host = refl;
  redis_port = refl;
  redis_password = refl;
  token_ttl_seconds = refl;
  heartbeat_timeout_seconds = refl;
  game_server_heartbeat_ttl_seconds = refl;
  rate_limit_max = refl;
  rate_limit_window_seconds = refl;
  game_server_host = refl;
  game_server_port = refl;
  chat_server_host = refl;
  chat_server_port = refl;
}

room_settings-configured_example : room_settings objects environment (some file) ≡ configured
room_settings-configured_example =
    room_settings-configured objects (λ bits i. i % 2 ^ bits) objects-IsObject environment file
      configured file-IsConfigured
