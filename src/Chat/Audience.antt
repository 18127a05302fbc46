-- ===== src/Chat/Audience.antt =====
-- Who hears a message: `handleChatSend` of src/chat/channel/ChannelManager.cpp against a list of
-- those who should.
use Prim.Native.String.{len}
use mathlib.Core.List.{map-append}
use project_sos_backend.Chat.Proto.{
  ChatSend, ChatReceive, ChatEnvelope, ChatChannel, unknown, lobby, all, whisper, receive, error,
  ErrorCode, message_too_long, channel_not_joined, player_not_found, invalid_channel,
}
use project_sos_backend.Chat.State.{
  Chat, Config, Client, PlayerState, send, send_to, send_error, send_all, broadcast_to_lobby,
  broadcast_to_session,
}
use project_sos_backend.Chat.Messages.{
  all_whitespace, validate_message, send_whisper, save_to_history, deliver, message_of,
  handle_chat_send,
}
use project_sos_backend.Base.{
  ℕ, ◌⊎◌, ◌≡◌, refl, ap, sym, ◌∙◌, String, ◌||◌, Option, none, some, List, [], ◌∷◌, ◌++◌, map, ltb,
  append_assoc, append-nil, Option-cases, inl, inr, arith, ◌==◌, if◌then◌else◌,
}

-- The open session of a player, if the player is known and the object exists.
abbrev pub open_session : (String → Option PlayerState) → (ℕ → Option Client) → String → List ℕ
open_session players clients p = elim (players p) [
  | none ↦ []
  | some state ↦ elim (clients state.session) [
    | none ↦ []
    | some c ↦ if c.closed then [] else state.session ∷ []
  ]
]

-- The open sessions of some players, in their order.
abbrev pub open_sessions :
    (String → Option PlayerState) → (ℕ → Option Client) → List String → List ℕ
open_sessions players clients [] = []
open_sessions players clients (p ∷ ps) =
    open_session players clients p ++ open_sessions players clients ps

abbrev pub to_all : ChatEnvelope → List ℕ → List (ℕ × ChatEnvelope)
to_all e addresses = map (λ a. (a, e)) addresses

module _ {S : Type 0} where
  -- Who should hear a message of a player in this state, or which error the sender should get.
  unfoldable pub audience :
      PlayerState → String → String → ChatChannel → Chat S → ErrorCode ⊎ List String
  audience state p target lobby w =
      if state.in_lobby then inr w.lobby_members else inl channel_not_joined
  audience state p target all w =
      if state.session_id == ""
      then inl channel_not_joined
      else inr (elim (w.session_channels state.session_id) [
        | none ↦ []
        | some channel ↦ channel.members
      ])
  audience state p target whisper w =
      if target == ""
      then inl player_not_found
      else elim (w.players target) [ none ↦ inl player_not_found | some _ ↦ inr (target ∷ p ∷ []) ]
  audience state p target unknown w = inl invalid_channel

  -- The same players and session objects, and some more messages.
  record Added (out : List (ℕ × ChatEnvelope)) (v w : Chat S) : Type 0 where
    players : w.players ≡ v.players
    clients : w.clients ≡ v.clients
    sent : w.sent ≡ v.sent ++ out

  send_to-Added :
      (p : String) (e : ChatEnvelope) (w : Chat S)
      → Added (to_all e (open_session w.players w.clients p)) w (send_to p e w)
  unfolding send_to send
  send_to-Added p e w = record {
    players = ground arith;
    clients = ground arith;
    sent = ground (arith, append-nil w.sent);
  }

  send_all-Added :
      (ps : List String) (e : ChatEnvelope) (w : Chat S)
      → Added (to_all e (open_sessions w.players w.clients ps)) w (send_all ps e w)
  unfolding send_all
  send_all-Added [] e w = record { players = refl; clients = refl; sent = sym (append-nil w.sent) }
  send_all-Added (p ∷ ps) e w =
      let first = send_to-Added p e w in
      let rest = send_all-Added ps e (send_to p e w) in
      record {
        players = rest.players ∙ first.players;
        clients = rest.clients ∙ first.clients;
        sent =
            rest.sent
            ∙ rw (first.players, first.clients, first.sent)
                (append_assoc w.sent (to_all e (open_session w.players w.clients p))
                    (to_all e (open_sessions w.players w.clients ps))
                  ∙ ap (◌++◌ w.sent) (
                      sym (
                        map-append (λ (a : ℕ). (a, e)) (open_session w.players w.clients p)
                          (open_sessions w.players w.clients ps))));
      }

  -- What goes out to an audience, or to the sender alone.
  abbrev pub outcome :
      String → ChatReceive → ErrorCode ⊎ List String → Chat S → List (ℕ × ChatEnvelope)
  outcome p m (inl code) w = to_all (error code) (open_session w.players w.clients p)
  outcome p m (inr ps) w = to_all (receive m) (open_sessions w.players w.clients ps)

  -- What a message of a known player adds to `sent`.
  unfoldable pub expected :
      Config S → String → PlayerState → ChatSend → ℕ → Chat S → List (ℕ × ChatEnvelope)
  unfolding audience
  expected config p state request now w =
      if request.content == ""
        || all_whitespace request.content
        || ltb config.max_message_length (len request.content)
      then outcome p (message_of config p state request now) (inl message_too_long) w
      else outcome p (message_of config p state request now)
          (audience state p request.whisper_target request.channel w) w

  refused :
      (p : String) (code : ErrorCode) (m : ChatReceive) (w : Chat S)
      → (send_error p code w).sent ≡ w.sent ++ outcome p m (inl code) w
  unfolding send_error
  refused p code m w = (send_to-Added p (error code) w).sent

  broadcast_to_session-sent :
      (s : String) (e : ChatEnvelope) (w : Chat S)
      → (broadcast_to_session s e w).sent
        ≡ w.sent
          ++ to_all e (
              open_sessions w.players w.clients
                (elim (w.session_channels s) [ none ↦ [] | some channel ↦ channel.members ]))
  unfolding broadcast_to_session
  broadcast_to_session-sent s e w = elim (Option-cases (w.session_channels s)) [
    | inl gone ↦ rw (gone, broadcast_to_session) (sym (append-nil w.sent))
    | inr (channel, found) ↦
        rw (found, broadcast_to_session) (send_all-Added channel.members e w).sent
  ]

  save_to_history-sent :
      (config : Config S) (s : String) (m : ChatReceive) (w : Chat S)
      → (save_to_history config s m w).sent ≡ w.sent
  unfolding save_to_history
  save_to_history-sent config s m w = ground arith

  deliver-sent :
      (config : Config S) (p : String) (state : PlayerState) (request : ChatSend) (m : ChatReceive)
      (c : ChatChannel) (w : Chat S)
      → (deliver config p state request m c w).sent
        ≡ w.sent ++ outcome p m (audience state p request.whisper_target c w) w
  unfolding deliver audience broadcast_to_lobby send_whisper
  deliver-sent config p state request m lobby w =
      ground (arith, send_all-Added w.lobby_members (receive m) w, refused p channel_not_joined m w)
  deliver-sent config p state request m all w = ground (
    arith,
    refused p channel_not_joined m w,
    save_to_history-sent config state.session_id m
        (broadcast_to_session state.session_id (receive m) w),
    broadcast_to_session-sent state.session_id (receive m) w,
  )
  deliver-sent config p state request m whisper w =
      let both : (send_to p (receive m) (send_to request.whisper_target (receive m) w)).sent
          ≡ w.sent
            ++ to_all (receive m)
                (open_sessions w.players w.clients (request.whisper_target ∷ p ∷ [])) =
        unfold send_all in (send_all-Added (request.whisper_target ∷ p ∷ []) (receive m) w).sent in
      ground (arith, refused p player_not_found m w, both)
  deliver-sent config p state request m unknown w = refused p invalid_channel m w

  -- The sessions that are sent something for a message of a known player are those that should be: for a
  -- text that is empty, blank or too long, or a channel that the sender is not in, the sender's alone,
  -- with the error; or else the open sessions of the audience, each with the message, once for each time
  -- that the audience names its player.
  pub handle_chat_send-expected :
      (config : Config S) (p : String) (state : PlayerState) (request : ChatSend) (now : ℕ)
      (w : Chat S)
      → w.players p ≡ some state
      → (handle_chat_send config p request now w).sent
        ≡ w.sent ++ expected config p state request now w
  unfolding handle_chat_send validate_message expected
  handle_chat_send-expected config p state request now w found =
      let m = message_of config p state request now in
      ground (
        arith,
        refused p message_too_long m w,
        deliver-sent config p state request m request.channel w,
      )
