-- ===== src/Settings/Chat.antt =====
-- The settings of the chat server: the first part of `main` in src/chat/main.cpp.
use project_sos_backend.Common.Redis.{Redis}
use project_sos_backend.Common.RateLimiter.{RateLimiter}
use project_sos_backend.Chat.Proto.{ChatReceive}
use project_sos_backend.Chat.State.{Config}
use project_sos_backend.Settings.{Json, new_config, word, text, assign_all, with}
use project_sos_backend.Base.{ℕ, ◌^◌, String, Option, none, some, List, [], ◌∷◌, ltb, if◌then◌else◌}

pub record ChatSettings : Type 0 where
  pub chat_port : ℕ
  pub internal_port : ℕ
  pub redis_host : String
  pub redis_port : ℕ
  pub redis_password : String
  pub heartbeat_timeout_seconds : ℕ
  pub rate_limit_max : ℕ
  pub rate_limit_window_seconds : ℕ
  pub max_message_length : ℕ
  pub history_size : ℕ
  pub session_ttl_seconds : ℕ

abbrev pub chat_defaults : ChatSettings
chat_defaults = record {
  chat_port = 8082;
  internal_port = 8083;
  redis_host = "127.0.0.1";
  redis_port = 6379;
  redis_password = "";
  heartbeat_timeout_seconds = 90;
  rate_limit_max = 10;
  rate_limit_window_seconds = 5;
  max_message_length = 200;
  history_size = 20;
  session_ttl_seconds = 7200;
}

-- The parameter of the limiter is an `int`. From 2 ^ 31 on it is negative, which allows no request,
-- since a count is at least one.
unfoldable pub as_limit : ℕ → ℕ
as_limit n = if ltb n (2 ^ 31) then n else 0

module _ {J I : Type 0} (json : Json J I) where
  unfoldable pub chat_assignments : J → List (ChatSettings → Option ChatSettings)
  unfolding word text
  chat_assignments j =
      (λ s. with (word json 16 "chat_port" 8082 j) (λ v. record s { chat_port = v }))
      ∷ (λ s. with (word json 16 "chat_internal_port" 8083 j) (λ v. record s { internal_port = v }))
      ∷ (λ s. with (text json "redis_host" "127.0.0.1" j) (λ v. record s { redis_host = v }))
      ∷ (λ s. with (word json 16 "redis_port" 6379 j) (λ v. record s { redis_port = v }))
      ∷ (λ s. with (text json "redis_password" "" j) (λ v. record s { redis_password = v }))
      ∷ (λ s.
          with (word json 32 "chat_heartbeat_timeout_seconds" 90 j)
            (λ v. record s { heartbeat_timeout_seconds = v }))
      ∷ (λ s. with (word json 32 "chat_rate_limit_max" 10 j) (λ v. record s { rate_limit_max = v }))
      ∷ (λ s.
          with (word json 32 "chat_rate_limit_window_seconds" 5 j)
            (λ v. record s { rate_limit_window_seconds = v }))
      ∷ (λ s.
          with (word json 32 "chat_max_message_length" 200 j)
            (λ v. record s { max_message_length = v }))
      ∷ (λ s. with (word json 32 "chat_history_size" 20 j) (λ v. record s { history_size = v }))
      ∷ (λ s.
          with (word json 32 "chat_session_ttl_seconds" 7200 j)
            (λ v. record s { session_ttl_seconds = v }))
      ∷ []

  unfoldable pub chat_settings : (String → Option String) → Option J → ChatSettings
  unfolding new_config chat_assignments assign_all
  chat_settings getenv file = elim (new_config json getenv file) [
    | none ↦ chat_defaults
    | some j ↦ assign_all (chat_assignments j) chat_defaults
  ]

module _ {S : Type 0} (redis : Redis S) (serialize : ChatReceive → String)
    (parse : String → Option ChatReceive) where
  abbrev pub chat_config : ChatSettings → Config S
  chat_config s = record {
    max_message_length = s.max_message_length;
    history_size = s.history_size;
    session_ttl = s.session_ttl_seconds;
    redis = some redis;
    serialize = serialize;
    parse = parse;
  }

module _ {S : Type 0} (redis : Redis S) where
  abbrev pub chat_limiter : ChatSettings → RateLimiter S
  chat_limiter s = record {
    redis = redis;
    max_requests = as_limit s.rate_limit_max;
    window = s.rate_limit_window_seconds;
    key_prefix = "chat:rate:";
  }
