-- ===== src/Chat/Safety.antt =====
-- Every event of the chat server keeps the invariant of the channels: src/chat/server/ChatSession.cpp,
-- src/chat/internal/InternalSession.cpp and the manager together.
use project_sos_backend.Common.RateLimiter.{RateLimiter}
use project_sos_backend.Chat.Proto.{
  ChatRequest, auth, chat_send, heartbeat, Notice, session_created, session_ended, error,
  not_authenticated, rate_limited,
}
use project_sos_backend.Chat.State.{Chat, Config, Client, has_member}
use project_sos_backend.Chat.Channels.{handle_disconnect}
use project_sos_backend.Chat.Machine.{
  is_closed, check_rate, send_checked, process_message, process_all, Event, accepted, received,
  ended, noticed, redis_changed, step, run, new_chat,
}
use project_sos_backend.Chat.Members.{
  Holds, SameMaps, SameMaps-refl, SameMaps-trans, Holds-SameMaps, send-SameMaps, lists,
  players-forget_player,
}
use project_sos_backend.Chat.Members.Kept.{handle_auth-Holds}
use project_sos_backend.Chat.Members.Steps.{
  handle_chat_send-SameMaps, handle_session_created-Holds, handle_session_ended-Holds, close-Holds,
  handle_disconnect-Holds,
}
use project_sos_backend.Base.{
  ℕ, String, ◌≡◌, refl, false, Option, none, List, [], ◌∷◌, if_cases, option_cases, arith,
}

module _ {S : Type 0} (config : Config S) (limiter : Option (RateLimiter S)) where
  pub send_checked-SameMaps :
      (a : ℕ) (c : Client) (request : ChatRequest) (now : ℕ) (w : Chat S)
      → SameMaps w (send_checked config limiter a c request now w)
  unfolding send_checked check_rate
  send_checked-SameMaps a c (chat_send request) now w =
      if_cases (SameMaps w) c.authenticated _ _
        (λ _.
          let w1 = (check_rate limiter c.player_id w).1 in
          let same : SameMaps w w1 = record {
            players = ground arith;
            lobby = ground arith;
            channels = ground arith;
          } in
          if_cases (SameMaps w) (check_rate limiter c.player_id w).0 _ _
            (λ _. SameMaps-trans same (handle_chat_send-SameMaps config c.player_id request now w1))
            λ _. SameMaps-trans same (send-SameMaps a (error rate_limited) w1))
        λ _. send-SameMaps a (error not_authenticated) w
  send_checked-SameMaps a c (auth request) now w = SameMaps-refl w
  send_checked-SameMaps a c heartbeat now w = SameMaps-refl w
  send_checked-SameMaps a c ChatRequest.other now w = SameMaps-refl w

  pub process_message-Holds :
      (a : ℕ) (request : ChatRequest) (now : ℕ) (w : Chat S)
      → Holds w
      → Holds (process_message config limiter a request now w)
  unfolding process_message
  process_message-Holds a (auth request) now w h = handle_auth-Holds config request a w h
  process_message-Holds a (chat_send request) now w h =
      option_cases Holds (w.clients a) _ _ (λ _. h)
        λ c _. Holds-SameMaps (send_checked-SameMaps a c (chat_send request) now w) h
  process_message-Holds a heartbeat now w h = option_cases Holds (w.clients a) _ _ (λ _. h) λ _ _. h
  process_message-Holds a ChatRequest.other now w h =
      option_cases Holds (w.clients a) _ _ (λ _. h) λ _ _. h

  pub process_all-Holds :
      (a : ℕ) (requests : List (ChatRequest × ℕ)) (w : Chat S)
      → Holds w
      → Holds (process_all config limiter a requests w)
  unfolding process_all
  process_all-Holds a [] w h = h
  process_all-Holds a ((request, now) ∷ requests) w h =
      let w1 = process_message config limiter a request now w in
      let first = process_message-Holds a request now w h in
      if_cases Holds (is_closed w1 a) _ _ (λ _. first) λ _. process_all-Holds a requests w1 first

  -- Every event keeps the invariant of the channels.
  pub step-Holds : (e : Event S) (w : Chat S) → Holds w → Holds (step config limiter e w)
  unfolding step
  step-Holds (accepted a) w h = option_cases Holds (w.clients a) _ _ (λ _. h) λ _ _. h
  step-Holds (received a requests) w h =
      option_cases Holds (w.clients a) _ _ (λ _. h) λ _ _. process_all-Holds a requests w h
  step-Holds (ended a) w h = close-Holds a w h
  step-Holds (noticed (session_created s players)) w h =
      handle_session_created-Holds config s players w h
  step-Holds (noticed (session_ended s)) w h = handle_session_ended-Holds config s w h
  step-Holds (noticed Notice.other) w h = h
  step-Holds (redis_changed s) w h = h

  pub run-Holds :
      (events : List (Event S)) (w : Chat S) → Holds w → Holds (run config limiter events w)
  unfolding run
  run-Holds [] w h = h
  run-Holds (e ∷ events) w h = run-Holds events (step config limiter e w) (step-Holds e w h)

  -- In every state that a new chat server reaches, the lobby lists exactly the players who are in it,
  -- a session channel lists only players of its session, and a player of the lobby has no session.
  pub run-new_chat-Holds :
      (events : List (Event S)) (s : S) → Holds (run config limiter events (new_chat s))
  unfolding has_member
  run-new_chat-Holds events s = run-Holds events (new_chat s) (record {
    in_lobby = λ _. refl;
    in_session = λ _ _ l. l;
    one = λ _. refl;
    unlisted = λ _. refl;
  })

module _ {S : Type 0} where
  pub players-handle_disconnect :
      (p : String) (w : Chat S) → (handle_disconnect p w).players p ≡ none
  unfolding handle_disconnect
  players-handle_disconnect p w =
      option_cases (λ (v : Chat S). v.players p ≡ none) (w.players p) _ _ (λ gone. gone)
        λ state _. ground (arith, players-forget_player p state w p)

  -- In a state that keeps the invariant of the channels, a player who disconnects is unknown afterwards,
  -- and neither the lobby nor any session channel lists the player.
  pub handle_disconnect-gone :
      (p s : String) (w : Chat S)
      → Holds w
      → let w' = handle_disconnect p w in
        (w'.players p ≡ none)
        × (has_member p w'.lobby_members ≡ false)
        × (lists (w'.session_channels s) p ≡ false)
  handle_disconnect-gone p s w h =
      let h' = handle_disconnect-Holds p w h in
      let gone = players-handle_disconnect p w in
      (gone, ground (arith, h'.in_lobby p), ground (arith, h'.in_session p s))
