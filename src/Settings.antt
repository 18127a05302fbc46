-- ===== src/Settings.antt =====
-- src/common/util/Config.cpp and the settings that src/room/main.cpp and src/chat/main.cpp take from
-- it. `nlohmann::json`, `std::stoi` and the environment are not part of the repository: they are
-- parameters.
pub mod Room
pub mod Chat
pub mod Laws
pub mod Server
pub mod Tests
use project_sos_backend.Base.{ℕ, String, Bool, Option, none, some, List, [], ◌∷◌, if◌then◌else◌}

-- A `nlohmann::json` object, and the numbers that `std::stoi` reads. `none` is an exception.
pub record Json (J I : Type 0) : Type 0 where
  pub contains : String → J → Bool
  -- `at(key).get<T>()` for an unsigned `T` of as many bits
  pub get_word : ℕ → String → J → Option ℕ
  pub get_text : String → J → Option String
  -- `data_[key] = value`
  pub set_text : String → String → J → J
  pub set_number : String → I → J → J
  pub stoi : String → Option I

module _ {J I : Type 0} (json : Json J I) (getenv : String → Option String) where
  unfoldable pub override_text : String → String → J → J
  override_text variable key j = elim (getenv variable) [
    | none ↦ j
    | some value ↦ json.set_text key value j
  ]

  -- A value that is no number is ignored.
  unfoldable pub override_number : String → String → J → J
  override_number variable key j = elim (getenv variable) [
    | none ↦ j
    | some value ↦ elim (json.stoi value) [ none ↦ j | some i ↦ json.set_number key i j ]
  ]

  -- The constructor. `none` is a file that is missing or does not parse.
  unfoldable pub new_config : Option J → Option J
  unfolding override_text override_number
  new_config none = none
  new_config (some j) = some (
      override_number "CHAT_SERVER_PORT" "chat_server_port" (
        override_text "CHAT_SERVER_HOST" "chat_server_host" (
          override_text "REDIS_PASSWORD" "redis_password" (
            override_number "REDIS_PORT" "redis_port"
              (override_text "REDIS_HOST" "redis_host" j)))))

module _ {J I : Type 0} (json : Json J I) where
  -- `Config::get`
  unfoldable pub word : ℕ → String → ℕ → J → Option ℕ
  word bits key default j = if json.contains key j then json.get_word bits key j else some default

  unfoldable pub text : String → String → J → Option String
  text key default j = if json.contains key j then json.get_text key j else some default

-- The assignments of one `try` block: an exception keeps what was assigned before.
unfoldable pub assign_all : {S : Type 0} → List (S → Option S) → S → S
assign_all [] s = s
assign_all (assign ∷ rest) s = elim (assign s) [ none ↦ s | some s1 ↦ assign_all rest s1 ]

abbrev pub with : {A S : Type 0} → Option A → (A → S) → Option S
with value store = elim value [ none ↦ none | some v ↦ some (store v) ]
