-- ===== src/Settings/Laws.antt =====
-- Which settings src/common/util/Config.cpp yields.
use project_sos_backend.Settings.{Json, override_text, override_number, new_config, word, text}
use project_sos_backend.Common.Fixtures.{differs}
use project_sos_backend.Base.{
  ℕ, ◌≡◌, ◌≢◌, refl, String, true, Option, none, some, Option-cases, inl, inr, dec_str, arith, ◌==◌,
  if◌then◌else◌,
}

-- Objects as documented: a key that was set is there, with its value, and the others are as before. A
-- number is stored as it is, and read in so many bits.
pub record IsObject {J I : Type 0} (json : Json J I) (low_bits : ℕ → I → ℕ) : Type 0 where
  pub contains-set_text :
      (k key v : String) (j : J)
      → json.contains k (json.set_text key v j) ≡ (if k == key then true else json.contains k j)
  pub contains-set_number :
      (k key : String) (i : I) (j : J)
      → json.contains k (json.set_number key i j) ≡ (if k == key then true else json.contains k j)
  pub text-set_text :
      (k key v : String) (j : J)
      → json.get_text k (json.set_text key v j) ≡ (if k == key then some v else json.get_text k j)
  pub text-set_number :
      (k key : String) (i : I) (j : J)
      → k ≢ key
      → json.get_text k (json.set_number key i j) ≡ json.get_text k j
  pub word-set_text :
      (bits : ℕ) (k key v : String) (j : J)
      → k ≢ key
      → json.get_word bits k (json.set_text key v j) ≡ json.get_word bits k j
  pub word-set_number :
      (bits : ℕ) (k key : String) (i : I) (j : J)
      → json.get_word bits k (json.set_number key i j)
        ≡ (if k == key then some (low_bits bits i) else json.get_word bits k j)

module _ {J I : Type 0} (json : Json J I) (low_bits : ℕ → I → ℕ) (object : IsObject json low_bits)
    (getenv : String → Option String) where
  -- The variable of the environment, or else the setting of the file.
  abbrev pub text_from : String → Option String → Option String
  text_from variable setting = elim (getenv variable) [ none ↦ setting | some v ↦ some v ]

  -- A variable that is no number does not count.
  abbrev pub word_from : String → ℕ → Option ℕ → Option ℕ
  word_from variable bits setting = elim (getenv variable) [
    | none ↦ setting
    | some v ↦ elim (json.stoi v) [ none ↦ setting | some i ↦ some (low_bits bits i) ]
  ]

  text-override_text :
      (variable key k default : String) (j : J)
      → text json k default (override_text json getenv variable key j)
        ≡ (if k == key then text_from variable (text json k default j) else text json k default j)
  unfolding text override_text
  text-override_text variable key k default j = elim (Option-cases (getenv variable)) [
    | inl e ↦ ground arith
    | inr (v, e) ↦
        ground (arith, object.contains-set_text k key v j, object.text-set_text k key v j)
  ]

  text-override_number :
      (variable key k default : String) (j : J)
      → k ≢ key
      → text json k default (override_number json getenv variable key j) ≡ text json k default j
  unfolding text override_number
  text-override_number variable key k default j ne = elim (Option-cases (getenv variable)) [
    | inl e ↦ ground arith
    | inr (v, e) ↦ elim (Option-cases (json.stoi v)) [
      | inl e1 ↦ ground arith
      | inr (i, e1) ↦
          ground (arith, object.contains-set_number k key i j, object.text-set_number k key i j ne)
    ]
  ]

  word-override_text :
      (variable key k : String) (bits default : ℕ) (j : J)
      → k ≢ key
      → word json bits k default (override_text json getenv variable key j)
        ≡ word json bits k default j
  unfolding word override_text
  word-override_text variable key k bits default j ne = elim (Option-cases (getenv variable)) [
    | inl e ↦ ground arith
    | inr (v, e) ↦
        ground (arith, object.contains-set_text k key v j, object.word-set_text bits k key v j ne)
  ]

  word-override_number :
      (variable key k : String) (bits default : ℕ) (j : J)
      → word json bits k default (override_number json getenv variable key j) ≡ (
          if k == key
          then word_from variable bits (word json bits k default j)
          else word json bits k default j)
  unfolding word override_number
  word-override_number variable key k bits default j = elim (Option-cases (getenv variable)) [
    | inl e ↦ ground arith
    | inr (v, e) ↦ elim (Option-cases (json.stoi v)) [
      | inl e1 ↦ ground arith
      | inr (i, e1) ↦
          ground
            (arith, object.contains-set_number k key i j, object.word-set_number bits k key i j)
    ]
  ]

  -- What the constructor makes of an object that it has read.
  abbrev pub overridden : J → J
  overridden j = override_number json getenv "CHAT_SERVER_PORT" "chat_server_port" (
      override_text json getenv "CHAT_SERVER_HOST" "chat_server_host" (
        override_text json getenv "REDIS_PASSWORD" "redis_password" (
          override_number json getenv "REDIS_PORT" "redis_port"
            (override_text json getenv "REDIS_HOST" "redis_host" j))))

  -- The setting under a key, from the environment and the file.
  abbrev pub text_setting : String → String → J → Option String
  text_setting k d j =
      if k == "redis_host"
      then text_from "REDIS_HOST" (text json k d j)
      else if k == "redis_password"
      then text_from "REDIS_PASSWORD" (text json k d j)
      else if k == "chat_server_host"
      then text_from "CHAT_SERVER_HOST" (text json k d j)
      else text json k d j

  abbrev pub word_setting : String → ℕ → ℕ → J → Option ℕ
  word_setting k bits d j =
      if k == "redis_port"
      then word_from "REDIS_PORT" bits (word json bits k d j)
      else if k == "chat_server_port"
      then word_from "CHAT_SERVER_PORT" bits (word json bits k d j)
      else word json bits k d j

  pub text-overridden :
      (k d : String) (j : J)
      → k ≢ "redis_port"
      → k ≢ "chat_server_port"
      → text json k d (overridden j) ≡ text_setting k d j
  unfolding dec_str
  text-overridden k d j ne1 ne2 =
      rw
        (
          text-override_number "CHAT_SERVER_PORT" "chat_server_port" k d _ ne2,
          text-override_text "CHAT_SERVER_HOST" "chat_server_host" k d,
          text-override_text "REDIS_PASSWORD" "redis_password" k d,
          text-override_number "REDIS_PORT" "redis_port" k d _ ne1,
          text-override_text "REDIS_HOST" "redis_host" k d,
        )
        (ground (
          arith,
          differs "redis_host" "redis_password" refl,
          differs "redis_host" "chat_server_host" refl,
          differs "redis_password" "chat_server_host" refl,
        ))

  pub word-overridden :
      (k : String) (bits d : ℕ) (j : J)
      → k ≢ "redis_host"
      → k ≢ "redis_password"
      → k ≢ "chat_server_host"
      → word json bits k d (overridden j) ≡ word_setting k bits d j
  unfolding dec_str
  word-overridden k bits d j ne1 ne2 ne3 =
      rw
        (
          word-override_number "CHAT_SERVER_PORT" "chat_server_port" k bits d,
          word-override_text "CHAT_SERVER_HOST" "chat_server_host" k bits d _ ne3,
          word-override_text "REDIS_PASSWORD" "redis_password" k bits d _ ne2,
          word-override_number "REDIS_PORT" "redis_port" k bits d,
          word-override_text "REDIS_HOST" "redis_host" k bits d _ ne1,
        )
        (ground (arith, differs "redis_port" "chat_server_port" refl))

  -- For a text key other than the two ports and a number key other than the two hosts and the
  -- password: an object that was read becomes one in which both settings are the variable of the
  -- environment, for the five keys that have one, if it is set and, for a port, a number, and
  -- otherwise what the file has, or the default. Objects behave as documented.
  pub new_config-settings :
      (j : J) (key default : String) (number_key : String) (bits number : ℕ)
      → key ≢ "redis_port"
      → key ≢ "chat_server_port"
      → number_key ≢ "redis_host"
      → number_key ≢ "redis_password"
      → number_key ≢ "chat_server_host"
      → (j1 : J) × (new_config json getenv (some j) ≡ some j1)
        × (text json key default j1 ≡ text_setting key default j)
        × (word json bits number_key number j1 ≡ word_setting number_key bits number j)
  unfolding new_config
  new_config-settings j key default number_key bits number h1 h2 h3 h4 h5 = (
    overridden j,
    refl,
    text-overridden key default j h1 h2,
    word-overridden number_key bits number j h3 h4 h5,
  )
