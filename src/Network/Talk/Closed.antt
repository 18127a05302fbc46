-- ===== src/Network/Talk/Closed.antt =====
-- A session of src/chat/server/ChatSession.cpp that is closed stays closed: no handler of
-- src/chat/channel/ChannelManager.cpp opens it.
use project_sos_backend.Common.RateLimiter.{RateLimiter}
use project_sos_backend.Chat.Proto.{
  ChatRequest, auth, chat_send, heartbeat, other, ChatAuth, ChatSend, ChatReceive, ChatEnvelope,
  ChatChannel, unknown, lobby, all, whisper, Notice, session_created, session_ended, receive, error,
  channel_not_joined, message_too_long, invalid_channel, auth_result, not_authenticated,
  rate_limited,
}
use project_sos_backend.Chat.State.{
  Chat, Config, Client, PlayerState, set_client, send, send_to, send_error, send_all,
  broadcast_to_lobby, broadcast_to_session, add_member,
}
use project_sos_backend.Chat.Auth.{replace_connection, enter_lobby, authenticate, handle_auth}
use project_sos_backend.Chat.Messages.{
  validate_message, send_whisper, save_to_history, deliver, message_of, handle_chat_send,
}
use project_sos_backend.Chat.Channels.{
  handle_disconnect, move_to_lobby, move_all, handle_session_created, handle_session_ended,
}
use project_sos_backend.Chat.Machine.{
  accept, close, is_closed, check_rate, send_checked, process_message, process_all, process_notice,
  step,
}
use project_sos_backend.Chat.Games.Entering.{
  clients-forget_player, replace_connection-Forgot, closed-register_player, closed-enter_session,
}
use project_sos_backend.Network.Talk.{Beside, notice_came, redis_set, event_of, talk_host}
use project_sos_backend.Network.Silence.{Closes}
use project_sos_backend.Base.{
  ℕ, ◌≡◌, refl, ap, ◌∙◌, String, true, false, ◌||◌, Option, none, some, List, [], ◌∷◌, map, eqb,
  if_cases, option_cases, arith, ◌==◌, if◌then◌else◌,
}

module _ {S : Type 0} where
  -- The session objects are as they were.
  abbrev SameClients : Chat S → Chat S → Type 0
  SameClients v w = w.clients ≡ v.clients

  send_to-SameClients : (p : String) (e : ChatEnvelope) (w : Chat S) → SameClients w (send_to p e w)
  unfolding send_to send
  send_to-SameClients p e w = ground arith

  send_all-SameClients :
      (ps : List String) (e : ChatEnvelope) (w : Chat S) → SameClients w (send_all ps e w)
  unfolding send_all
  send_all-SameClients [] e w = refl
  send_all-SameClients (p ∷ ps) e w =
      send_all-SameClients ps e (send_to p e w) ∙ send_to-SameClients p e w

  broadcast_to_session-SameClients :
      (s : String) (e : ChatEnvelope) (w : Chat S) → SameClients w (broadcast_to_session s e w)
  unfolding broadcast_to_session
  broadcast_to_session-SameClients s e w =
      option_cases (SameClients w) (w.session_channels s) _ _ (λ _. refl)
        λ channel _. send_all-SameClients channel.members e w

  send_whisper-SameClients :
      (p target : String) (e : ChatEnvelope) (w : Chat S)
      → SameClients w (send_whisper p target e w)
  unfolding send_whisper send_error send_to send
  send_whisper-SameClients p target e w = ground arith

  deliver-SameClients :
      (config : Config S) (p : String) (state : PlayerState) (request : ChatSend) (m : ChatReceive)
      (c : ChatChannel) (w : Chat S)
      → SameClients w (deliver config p state request m c w)
  unfolding deliver broadcast_to_lobby send_error save_to_history
  deliver-SameClients config p state request m lobby w = ground (
    arith,
    send_all-SameClients w.lobby_members (receive m) w,
    send_to-SameClients p (error channel_not_joined) w,
  )
  deliver-SameClients config p state request m all w = ground (
    arith,
    broadcast_to_session-SameClients state.session_id (receive m) w,
    send_to-SameClients p (error channel_not_joined) w,
  )
  deliver-SameClients config p state request m whisper w =
      send_whisper-SameClients p request.whisper_target (receive m) w
  deliver-SameClients config p state request m unknown w =
      send_to-SameClients p (error invalid_channel) w

  handle_chat_send-SameClients :
      (config : Config S) (p : String) (request : ChatSend) (now : ℕ) (w : Chat S)
      → SameClients w (handle_chat_send config p request now w)
  unfolding handle_chat_send validate_message send_error
  handle_chat_send-SameClients config p request now w =
      option_cases (SameClients w) (w.players p) _ _ (λ _. refl)
        λ state _. ground (
          arith,
          send_to-SameClients p (error message_too_long) w,
          deliver-SameClients config p state request (message_of config p state request now)
              request.channel w,
        )

  handle_disconnect-SameClients : (p : String) (w : Chat S) → SameClients w (handle_disconnect p w)
  unfolding handle_disconnect
  handle_disconnect-SameClients p w =
      option_cases (SameClients w) (w.players p) _ _ (λ _. refl)
        λ state _. clients-forget_player p state w

  move_all-SameClients : (ps : List String) (w : Chat S) → SameClients w (move_all ps w)
  unfolding move_all move_to_lobby
  move_all-SameClients [] w = refl
  move_all-SameClients (p ∷ ps) w = move_all-SameClients ps (move_to_lobby p w) ∙ ground arith

  handle_session_ended-SameClients :
      (config : Config S) (s : String) (w : Chat S)
      → SameClients w (handle_session_ended config s w)
  unfolding handle_session_ended
  handle_session_ended-SameClients config s w =
      option_cases (SameClients w) (w.session_channels s) _ _ (λ _. refl)
        λ channel _. move_all-SameClients channel.members w

  -- The same sessions are closed.
  abbrev SameClosed : Chat S → Chat S → Type 0
  SameClosed v w = (b : ℕ) → is_closed w b ≡ is_closed v b

  SameClosed-clients : (v w : Chat S) → SameClients v w → SameClosed v w
  SameClosed-clients v w e b = ap (λ f. elim (f b) [ none ↦ true | some c ↦ c.closed ]) e

  send-SameClosed : (a : ℕ) (e : ChatEnvelope) (w : Chat S) → SameClosed w (send a e w)
  unfolding send
  send-SameClosed a e w b = ground arith

module _ {S : Type 0} (config : Config S) where
  authenticate-SameClosed :
      (request : ChatAuth) (a : ℕ) (w : Chat S) → SameClosed w (authenticate config request a w)
  unfolding authenticate enter_lobby
  authenticate-SameClosed request a w =
      if_cases (SameClosed w) (request.session_id == "") _ _
        (λ _ b.
          closed-register_player config request true a
            (record w { lobby_members = add_member request.player_id w.lobby_members }) b)
        λ _.
          option_cases (SameClosed w) (w.session_channels request.session_id) _ _
            (λ _. send-SameClosed a (auth_result false) w)
            λ channel _. closed-enter_session config request channel a w

  handle_auth-SameClosed :
      (request : ChatAuth) (a : ℕ) (w : Chat S) → SameClosed w (handle_auth config request a w)
  unfolding handle_auth
  handle_auth-SameClosed request a w =
      let v = replace_connection request.player_id a w in
      if_cases (SameClosed w) (request.player_id == "" || request.player_name == "") _ _
        (λ _. send-SameClosed a (auth_result false) w)
        λ _ b.
          authenticate-SameClosed request a v b
          ∙ (replace_connection-Forgot request.player_id "" a w).closed b

module _ {S : Type 0} (config : Config S) (limiter : Option (RateLimiter S)) where
  send_checked-SameClosed :
      (a : ℕ) (c : Client) (request : ChatRequest) (now : ℕ) (w : Chat S)
      → SameClosed w (send_checked config limiter a c request now w)
  unfolding send_checked check_rate
  send_checked-SameClosed a c (chat_send request) now w =
      let w1 = (check_rate limiter c.player_id w).1 in
      let same : SameClients w w1 = ground arith in
      if_cases (SameClosed w) c.authenticated _ _
        (λ _.
          if_cases (SameClosed w) (check_rate limiter c.player_id w).0 _ _
            (λ _.
              SameClosed-clients w (handle_chat_send config c.player_id request now w1)
                (handle_chat_send-SameClients config c.player_id request now w1 ∙ same))
            λ _ b. send-SameClosed a (error rate_limited) w1 b ∙ SameClosed-clients w w1 same b)
        (λ _. send-SameClosed a (error not_authenticated) w)
  send_checked-SameClosed a c (auth request) now w = λ b. refl
  send_checked-SameClosed a c heartbeat now w = λ b. refl
  send_checked-SameClosed a c other now w = λ b. refl

  pub process_message-SameClosed :
      (a : ℕ) (request : ChatRequest) (now : ℕ) (w : Chat S)
      → SameClosed w (process_message config limiter a request now w)
  unfolding process_message
  process_message-SameClosed a (auth request) now w = handle_auth-SameClosed config request a w
  process_message-SameClosed a (chat_send request) now w =
      option_cases (SameClosed w) (w.clients a) _ _ (λ _ b. refl)
        λ c _. send_checked-SameClosed a c (chat_send request) now w
  process_message-SameClosed a heartbeat now w =
      option_cases (SameClosed w) (w.clients a) _ _ (λ _ b. refl) λ c _ b. refl
  process_message-SameClosed a other now w =
      option_cases (SameClosed w) (w.clients a) _ _ (λ _ b. refl) λ c _ b. refl

  process_all-SameClosed :
      (a : ℕ) (requests : List (ChatRequest × ℕ)) (w : Chat S)
      → SameClosed w (process_all config limiter a requests w)
  unfolding process_all
  process_all-SameClosed a [] w b = refl
  process_all-SameClosed a ((request, now) ∷ requests) w b =
      let w1 = process_message config limiter a request now w in
      let first = process_message-SameClosed a request now w in
      if_cases (λ (v : Chat S). is_closed v b ≡ is_closed w b) (is_closed w1 a) _ _ (λ _. first b)
        λ _. process_all-SameClosed a requests w1 b ∙ first b

module _ {S : Type 0} where
  -- What `close` leaves: its own session closed, and the others as they were.
  pub close-closed :
      (a b : ℕ) (w : Chat S) → is_closed (close a w) b ≡ (if eqb b a then true else is_closed w b)
  unfolding close set_client
  close-closed a b w =
      let After : Chat S → Type 0 =
        λ v. is_closed v b ≡ (if eqb b a then true else is_closed w b) in
      option_cases After (w.clients a) _ _ (λ none_. ground arith)
        λ c found.
          if_cases After c.closed _ _ (λ done. ground arith)
            λ _.
              let w1 : Chat S = record w {
                clients = set_client a (record c { closed = true }) w.clients;
              } in
              let same = handle_disconnect-SameClients c.player_id w1 in
              if_cases After (c.player_id == "") w1 _ (λ _. ground arith)
                λ _. rw same (ground arith)

module _ {S : Type 0} (config : Config S) (limiter : Option (RateLimiter S)) where
  step-SameClosed : (e : Beside S) (w : Chat S) → SameClosed w (step config limiter (event_of e) w)
  unfolding step process_notice handle_session_created
  step-SameClosed (notice_came (session_created s players)) w b = refl
  step-SameClosed (notice_came (session_ended s)) w b =
      SameClosed-clients w (handle_session_ended config s w)
        (handle_session_ended-SameClients config s w) b
  step-SameClosed (notice_came Notice.other) w b = refl
  step-SameClosed (redis_set s) w b = refl

  pub talk_host-Closes : Closes (talk_host config limiter)
  unfolding talk_host accept set_client
  talk_host-Closes = record {
    connect = λ a b c w down differs. ground (arith, down, differs);
    process = λ a b now requests w down.
        process_all-SameClosed config limiter a (map (λ r. (r, now)) requests) w b ∙ down;
    close = λ a b w down. ground (arith, close-closed a b w, down);
    closing = λ a w. ground (arith, close-closed a a w);
    other = λ e b w down. step-SameClosed e w b ∙ down;
    clear = λ b w. refl;
  }
