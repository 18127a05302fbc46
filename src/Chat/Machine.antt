-- ===== src/Chat/Machine.antt =====
-- src/chat/server/ChatSession.cpp and src/chat/internal/InternalSession.cpp, and the chat server as
-- a machine that reacts to events: src/chat/main.cpp runs one `io_context` in one thread.
use project_sos_backend.Common.RateLimiter.{RateLimiter, allow}
use project_sos_backend.Chat.Proto.{
  ChatRequest, auth, chat_send, Notice, session_created, session_ended, error, not_authenticated,
  rate_limited,
}
use project_sos_backend.Chat.State.{Chat, Config, Client, set_client, send}
use project_sos_backend.Chat.Auth.{handle_auth}
use project_sos_backend.Chat.Messages.{handle_chat_send}
use project_sos_backend.Chat.Channels.{
  handle_disconnect, handle_session_created, handle_session_ended,
}
use project_sos_backend.Base.{
  ℕ, String, Bool, true, false, Option, none, some, List, [], ◌∷◌, ◌==◌, if◌then◌else◌,
}

module _ {S : Type 0} where
  unfoldable pub accept : ℕ → Chat S → Chat S
  unfolding set_client
  accept a w = record w {
    clients =
        set_client a (record { player_id = ""; authenticated = false; closed = false }) w.clients;
  }

  -- `handleDisconnect` is called with the id of the object, which is cleared afterwards.
  unfoldable pub close : ℕ → Chat S → Chat S
  unfolding handle_disconnect set_client
  close a w = elim (w.clients a) [
    | none ↦ w
    | some c ↦
        if c.closed
        then w
        else (let w1 = record w { clients = set_client a (record c { closed = true }) w.clients } in
            if c.player_id == ""
            then w1
            else (let w2 = handle_disconnect c.player_id w1 in
                record w2 {
                  clients = set_client a (record c { closed = true; player_id = "" }) w2.clients;
                }))
  ]

  abbrev pub is_closed : Chat S → ℕ → Bool
  is_closed w a = elim (w.clients a) [ none ↦ true | some c ↦ c.closed ]

module _ {S : Type 0} (limiter : Option (RateLimiter S)) where
  -- Whether the message may go on, and the state after the count. An exception lets it go on.
  unfoldable pub check_rate : String → Chat S → Bool × Chat S
  check_rate player_id w = elim limiter [
    | none ↦ (true, w)
    | some l ↦
        let (verdict, s) = allow l player_id w.redis in
        let w1 = record w { redis = s } in
        elim verdict [ none ↦ (true, w1) | some allowed ↦ (allowed, w1) ]
  ]

module _ {S : Type 0} (config : Config S) (limiter : Option (RateLimiter S)) where
  unfoldable pub send_checked : ℕ → Client → ChatRequest → ℕ → Chat S → Chat S
  unfolding check_rate handle_chat_send send
  send_checked a c (chat_send request) now w =
      if c.authenticated
      then (let (allowed, w1) = check_rate limiter c.player_id w in
          if allowed
          then handle_chat_send config c.player_id request now w1
          else send a (error rate_limited) w1)
      else send a (error not_authenticated) w
  send_checked a c _ now w = w

  unfoldable pub process_message : ℕ → ChatRequest → ℕ → Chat S → Chat S
  unfolding handle_auth send_checked
  process_message a (auth request) now w = handle_auth config request a w
  process_message a request now w = elim (w.clients a) [
    | none ↦ w
    | some c ↦ send_checked a c request now w
  ]

  -- The messages of one read, with the time of each, until one of them closes the session.
  unfoldable pub process_all : ℕ → List (ChatRequest × ℕ) → Chat S → Chat S
  unfolding process_message
  process_all a [] w = w
  process_all a ((request, now) ∷ requests) w =
      let w1 = process_message a request now w in
      let rest = process_all a requests w1 in if is_closed w1 a then w1 else rest

module _ {S : Type 0} (config : Config S) where
  unfoldable pub process_notice : Notice → Chat S → Chat S
  unfolding handle_session_created handle_session_ended
  process_notice (session_created session_id players) w =
      handle_session_created config session_id players w
  process_notice (session_ended session_id) w = handle_session_ended config session_id w
  process_notice Notice.other w = w

pub data Event (S : Type 0) : Type 0 where
  accepted : ℕ → Event S
  received : ℕ → List (ChatRequest × ℕ) → Event S
  -- end of file, an error of a read or write, or the heartbeat timeout
  ended : ℕ → Event S
  noticed : Notice → Event S
  -- Redis changes by itself or by another client
  redis_changed : S → Event S

module _ {S : Type 0} (config : Config S) (limiter : Option (RateLimiter S)) where
  -- Addresses of living objects are not given out again, and a read can end after its session
  -- is closed.
  unfoldable pub step : Event S → Chat S → Chat S
  unfolding accept process_all close process_notice
  step (accepted a) w = elim (w.clients a) [ none ↦ accept a w | some _ ↦ w ]
  step (received a requests) w = elim (w.clients a) [
    | none ↦ w
    | some _ ↦ process_all config limiter a requests w
  ]
  step (ended a) w = close a w
  step (noticed notice) w = process_notice config notice w
  step (redis_changed s) w = record w { redis = s }

  unfoldable pub run : List (Event S) → Chat S → Chat S
  run [] w = w
  run (e ∷ events) w = run events (step e w)

-- A chat server that has just been made.
abbrev pub new_chat : {S : Type 0} → S → Chat S
new_chat s = record {
  players = λ _. none;
  lobby_members = [];
  session_channels = λ _. none;
  clients = λ _. none;
  sent = [];
  redis = s;
}
