-- ===== src/Chat/Messages.antt =====
-- `handleChatSend`, `validateMessage` and `saveToHistory` of src/chat/channel/ChannelManager.cpp.
-- The clock is an argument. The copies of the texts that are made for the log are left out.
use Prim.Native.Char.{code}
use Prim.Native.String.{len}
use project_sos_backend.Chat.Proto.{
  ChatSend, ChatReceive, ChatEnvelope, ChatChannel, unknown, lobby, all, whisper, receive,
  invalid_channel, message_too_long, player_not_found, channel_not_joined,
}
use project_sos_backend.Chat.State.{
  Chat, Config, PlayerState, send_to, send_error, broadcast_to_lobby, broadcast_to_session, try_all,
}
use project_sos_backend.Chat.Auth.{history_key}
use project_sos_backend.Base.{
  ℕ, String, Bool, true, false, ◌&&◌, ◌||◌, none, some, [], ◌∷◌, eqb, ltb, ◌==◌, if◌then◌else◌,
}

-- The bytes of a character that is no ASCII character are none of the four, so characters do.
unfoldable pub all_whitespace : String → Bool
all_whitespace String.[] = true
all_whitespace (String.◌∷◌ c s) =
    let n = code c in (eqb n 32 || eqb n 9 || eqb n 10 || eqb n 13) && all_whitespace s

module _ {S : Type 0} where
  unfoldable pub send_whisper : String → String → ChatEnvelope → Chat S → Chat S
  unfolding send_to send_error
  send_whisper player_id target envelope w =
      if target == "" then send_error player_id player_not_found w else elim (w.players target) [
        | none ↦ send_error player_id player_not_found w
        | some _ ↦ send_to player_id envelope (send_to target envelope w)
      ]

module _ {S : Type 0} (config : Config S) where
  -- The state after a possible error message, and whether the message may be sent on.
  unfoldable pub validate_message : String → String → Chat S → Chat S × Bool
  unfolding send_error all_whitespace
  validate_message player_id content w =
      if content == "" || all_whitespace content
      then (send_error player_id message_too_long w, false)
      else if ltb config.max_message_length (len content)
      then (send_error player_id message_too_long w, false)
      else (w, true)

  unfoldable pub save_to_history : String → ChatReceive → Chat S → Chat S
  unfolding try_all
  save_to_history session_id message w = elim config.redis [
    | none ↦ w
    | some redis ↦ record w {
      redis =
          try_all
            (redis.lpush (history_key session_id) (config.serialize message)
              ∷ redis.ltrim (history_key session_id) config.history_size
              ∷ redis.expire (history_key session_id) config.session_ttl
              ∷ [])
            w.redis;
    }
  ]

  -- The `switch` on the channel.
  unfoldable pub deliver :
      String → PlayerState → ChatSend → ChatReceive → ChatChannel → Chat S → Chat S
  unfolding send_whisper save_to_history broadcast_to_lobby broadcast_to_session send_error
  deliver player_id state request message lobby w =
      if state.in_lobby
      then broadcast_to_lobby (receive message) w
      else send_error player_id channel_not_joined w
  deliver player_id state request message all w =
      if state.session_id == ""
      then send_error player_id channel_not_joined w
      else save_to_history state.session_id message
          (broadcast_to_session state.session_id (receive message) w)
  deliver player_id state request message whisper w =
      send_whisper player_id request.whisper_target (receive message) w
  deliver player_id state request message unknown w = send_error player_id invalid_channel w

  abbrev pub message_of : String → PlayerState → ChatSend → ℕ → ChatReceive
  message_of player_id state request now = record {
    channel = request.channel;
    sender_id = player_id;
    sender_name = state.player_name;
    content = request.content;
    timestamp = now;
  }

  unfoldable pub handle_chat_send : String → ChatSend → ℕ → Chat S → Chat S
  unfolding validate_message deliver
  handle_chat_send player_id request now w = elim (w.players player_id) [
    | none ↦ w
    | some state ↦
        let (w1, accepted) = validate_message player_id request.content w in
        if accepted
        then deliver player_id state request (message_of player_id state request now)
            request.channel w1
        else w1
  ]
