-- ===== src/Chat/Members/Steps.antt =====
-- The messages and the end of sessions in src/chat/channel/ChannelManager.cpp, and every event of
-- the chat server, keep the invariant of the channels.
use Prim.Native.String.{len}
use project_sos_backend.RoomManager.State.{remove}
use project_sos_backend.Chat.Proto.{
  ChatSend, ChatReceive, ChatChannel, unknown, lobby, all, whisper, ChatEnvelope, receive, error,
  message_too_long, player_not_found, channel_not_joined, invalid_channel,
}
use project_sos_backend.Chat.State.{
  Chat, Config, PlayerState, SessionChannel, has_member, send_to, send_error, set_client,
  broadcast_to_lobby, broadcast_to_session,
}
use project_sos_backend.Chat.Messages.{
  validate_message, all_whitespace, save_to_history, send_whisper, deliver, message_of,
  handle_chat_send,
}
use project_sos_backend.Chat.Channels.{
  handle_disconnect, move_to_lobby, move_all, handle_session_created, handle_session_ended,
}
use project_sos_backend.Chat.Machine.{close}
use project_sos_backend.Chat.Members.{
  Inv, Holds, SameMaps, SameMaps-refl, SameMaps-trans, send_to-SameMaps, send_all-SameMaps,
  has_member-add_member, lists, forget_player-Holds,
}
use project_sos_backend.Base.{
  ℕ, ◌≡◌, refl, ◌∙◌, String, Bool, true, false, ◌||◌, Option, List, [], ◌∷◌, if_cases, option_cases,
  ltb, arith, ◌==◌,
}

module _ {S : Type 0} where
  send_whisper-SameMaps :
      (p target : String) (e : ChatEnvelope) (w : Chat S) → SameMaps w (send_whisper p target e w)
  unfolding send_whisper send_error
  send_whisper-SameMaps p target e w =
      if_cases (SameMaps w) (target == "") _ _ (λ _. send_to-SameMaps p (error player_not_found) w)
        λ _.
          option_cases (SameMaps w) (w.players target) _ _
            (λ _. send_to-SameMaps p (error player_not_found) w)
            λ _ _.
              SameMaps-trans (send_to-SameMaps target e w)
                (send_to-SameMaps p e (send_to target e w))

  validate_message-SameMaps :
      (config : Config S) (p content : String) (w : Chat S)
      → SameMaps w (validate_message config p content w).0
  unfolding validate_message send_error
  validate_message-SameMaps config p content w =
      let P : Chat S × Bool → Type 0 = λ r. SameMaps w r.0 in
      if_cases P (content == "" || all_whitespace content) _ _
        (λ _. send_to-SameMaps p (error message_too_long) w)
        λ _.
          if_cases P (ltb config.max_message_length (len content)) _ _
            (λ _. send_to-SameMaps p (error message_too_long) w) λ _. SameMaps-refl w

  save_to_history-SameMaps :
      (config : Config S) (s : String) (m : ChatReceive) (w : Chat S)
      → SameMaps w (save_to_history config s m w)
  unfolding save_to_history
  save_to_history-SameMaps config s m w = ground arith

  broadcast_to_session-SameMaps :
      (s : String) (e : ChatEnvelope) (w : Chat S) → SameMaps w (broadcast_to_session s e w)
  unfolding broadcast_to_session
  broadcast_to_session-SameMaps s e w =
      option_cases (SameMaps w) (w.session_channels s) _ _ (λ _. SameMaps-refl w)
        λ channel _. send_all-SameMaps channel.members e w

  deliver-SameMaps :
      (config : Config S) (p : String) (state : PlayerState) (request : ChatSend) (m : ChatReceive)
      (c : ChatChannel) (w : Chat S)
      → SameMaps w (deliver config p state request m c w)
  unfolding deliver send_error broadcast_to_lobby
  deliver-SameMaps config p state request m lobby w =
      if_cases (SameMaps w) state.in_lobby _ _
        (λ _. send_all-SameMaps w.lobby_members (receive m) w)
        λ _. send_to-SameMaps p (error channel_not_joined) w
  deliver-SameMaps config p state request m all w =
      if_cases (SameMaps w) (state.session_id == "") _ _
        (λ _. send_to-SameMaps p (error channel_not_joined) w)
        λ _. SameMaps-trans (broadcast_to_session-SameMaps state.session_id (receive m) w) (
          save_to_history-SameMaps config state.session_id m
            (broadcast_to_session state.session_id (receive m) w))
  deliver-SameMaps config p state request m whisper w =
      send_whisper-SameMaps p request.whisper_target (receive m) w
  deliver-SameMaps config p state request m unknown w = send_to-SameMaps p (error invalid_channel) w

  -- A chat message changes no channel and no player, whatever becomes of it.
  pub handle_chat_send-SameMaps :
      (config : Config S) (p : String) (request : ChatSend) (now : ℕ) (w : Chat S)
      → SameMaps w (handle_chat_send config p request now w)
  unfolding handle_chat_send
  handle_chat_send-SameMaps config p request now w =
      option_cases (SameMaps w) (w.players p) _ _ (λ _. SameMaps-refl w)
        λ state _.
          let w1 = (validate_message config p request.content w).0 in
          let first = validate_message-SameMaps config p request.content w in
          if_cases (SameMaps w) (validate_message config p request.content w).1 _ _
            (λ _. SameMaps-trans first (
              deliver-SameMaps config p state request (message_of config p state request now)
                request.channel w1))
            λ _. first

  -- A player who disconnects is in no channel any more, and the others stay where they are.
  pub handle_disconnect-Holds : (p : String) (w : Chat S) → Holds w → Holds (handle_disconnect p w)
  unfolding handle_disconnect
  handle_disconnect-Holds p w h =
      option_cases Holds (w.players p) _ _ (λ _. h)
        λ state found. forget_player-Holds p state w h found

  -- A player whom no channel of `channels` lists moves to the lobby.
  move_to_lobby-Inv :
      (channels : String → Option SessionChannel) (q : String) (w : Chat S)
      → Inv w.players w.lobby_members channels
      → ((s : String) → lists (channels s) q ≡ false)
      → Inv (move_to_lobby q w).players (move_to_lobby q w).lobby_members channels
  unfolding move_to_lobby
  move_to_lobby-Inv channels q w h out = record {
    in_lobby = λ p. ground (arith, h.in_lobby p, has_member-add_member p q w.lobby_members);
    in_session = λ p s l. ground (arith, h.in_session p s, out s);
    one = λ p. ground (arith, h.one p);
    unlisted = h.unlisted;
  }

  -- The players of a list move to the lobby, while no channel of `channels` lists them.
  move_all-Inv :
      (channels : String → Option SessionChannel) (ps : List String) (w : Chat S)
      → Inv w.players w.lobby_members channels
      → ((p s : String) → has_member p ps ≡ true → lists (channels s) p ≡ false)
      → Inv (move_all ps w).players (move_all ps w).lobby_members channels
  unfolding move_all has_member
  move_all-Inv channels [] w h out = h
  move_all-Inv channels (q ∷ ps) w h out =
      move_all-Inv channels ps (move_to_lobby q w)
        (move_to_lobby-Inv channels q w h (λ s. ground (arith, out q s)))
        (λ p s l. out p s (ground arith))

  pub move_all-channels :
      (ps : List String) (w : Chat S) → (move_all ps w).session_channels ≡ w.session_channels
  unfolding move_all move_to_lobby
  move_all-channels [] w = refl
  move_all-channels (q ∷ ps) w = move_all-channels ps (move_to_lobby q w) ∙ ground arith

  -- The members of a session that has ended are in the lobby, and its channel is gone.
  pub handle_session_ended-Holds :
      (config : Config S) (s : String) (w : Chat S)
      → Holds w
      → Holds (handle_session_ended config s w)
  unfolding handle_session_ended
  handle_session_ended-Holds config s w h =
      option_cases Holds (w.session_channels s) _ _ (λ _. h)
        λ channel found. rw (move_all-channels channel.members w) (
          move_all-Inv (remove s w.session_channels) channel.members w
            (record {
              in_lobby = h.in_lobby;
              in_session = λ p t l. ground (arith, h.in_session p t);
              one = h.one;
              unlisted = λ p. ground (arith, h.unlisted p);
            })
            (λ p t l. ground (arith, h.in_session p s, h.in_session p t)))

  -- A new session has no members yet; one that is announced again loses those that it had.
  pub handle_session_created-Holds :
      (config : Config S) (s : String) (players : List (String × String)) (w : Chat S)
      → Holds w
      → Holds (handle_session_created config s players w)
  unfolding handle_session_created has_member
  handle_session_created-Holds config s players w h = record {
    in_lobby = h.in_lobby;
    in_session = λ p t l. ground (arith, h.in_session p t);
    one = h.one;
    unlisted = λ p. ground (arith, h.unlisted p);
  }

module _ {S : Type 0} where
  pub close-Holds : (a : ℕ) (w : Chat S) → Holds w → Holds (close a w)
  unfolding close
  close-Holds a w h =
      option_cases Holds (w.clients a) _ _ (λ _. h)
        λ c _.
          if_cases Holds c.closed _ _ (λ _. h)
            λ _.
              let w1 : Chat S = record w {
                clients = set_client a (record c { closed = true }) w.clients;
              } in
              let h1 : Holds w1 = h in
              if_cases Holds (c.player_id == "") _ _ (λ _. h1)
                λ _. handle_disconnect-Holds c.player_id w1 h1
