-- ===== src/Chat/Tests.antt =====
-- Runs of the chat server at concrete inputs.
use project_sos_backend.Chat.Proto.{auth, ChatSend, all, session_created, receive}
use project_sos_backend.Chat.State.{Chat, Config, PlayerState, set_client}
use project_sos_backend.Chat.Messages.{handle_chat_send, message_of, all_whitespace}
use project_sos_backend.Chat.Machine.{Event, accepted, received, noticed, run, new_chat}
use project_sos_backend.Chat.Members.{Holds}
use project_sos_backend.Chat.Safety.{run-new_chat-Holds}
use project_sos_backend.Chat.Audience.{expected, handle_chat_send-expected, audience}
use project_sos_backend.Base.{
  ◌≡◌, refl, true, false, none, some, List, [], ◌∷◌, dec_str, ◌==◌, if◌then◌else◌,
}

abbrev pub config : Config Unit
config = record {
  max_message_length = 200;
  history_size = 50;
  session_ttl = 3600;
  redis = none;
  serialize = λ m. m.content;
  parse = λ _. none;
}

-- A game of Ann and Ben begins, and Ann joins its channel while Cleo stays in the lobby.
abbrev pub one_game : List (Event Unit)
one_game =
    accepted 1
    ∷ accepted 2
    ∷ noticed (session_created "g1" (("ann", "Ann") ∷ ("ben", "Ben") ∷ []))
    ∷ received 1
        ((auth (record { player_id = "ann"; session_id = "g1"; player_name = "Ann" }), 10) ∷ [])
    ∷ received 2
        ((auth (record { player_id = "cleo"; session_id = ""; player_name = "Cleo" }), 11) ∷ [])
    ∷ []

abbrev pub during_game : Chat Unit
during_game = run config none one_game (new_chat tt)

run-new_chat-Holds_example : Holds during_game
run-new_chat-Holds_example = run-new_chat-Holds config none one_game tt

abbrev ann : PlayerState
ann = record { player_name = "Ann"; session_id = "g1"; session = 1; in_lobby = false }

abbrev ben : PlayerState
ben = record { player_name = "Ben"; session_id = "g1"; session = 2; in_lobby = false }

abbrev two_members : Chat Unit
two_members = record (new_chat tt) {
  players = λ p. if p == "ann" then some ann else if p == "ben" then some ben else none;
  session_channels = λ s.
      if s == "g1"
      then some (record { members = "ann" ∷ "ben" ∷ []; expected_players = "ann" ∷ "ben" ∷ [] })
      else none;
  clients =
      set_client 1 (record { player_id = "ann"; authenticated = true; closed = false })
        (set_client 2 (record { player_id = "ben"; authenticated = true; closed = false })
          (λ _. none));
}

abbrev greeting : ChatSend
greeting = record { channel = all; content = "hello"; whisper_target = "" }

handle_chat_send-expected_example :
    (handle_chat_send config "ann" greeting 12 two_members).sent
    ≡ (1, receive (message_of config "ann" ann greeting 12))
      ∷ (2, receive (message_of config "ann" ann greeting 12))
      ∷ []
unfolding expected audience all_whitespace dec_str set_client
handle_chat_send-expected_example =
    handle_chat_send-expected config "ann" ann greeting 12 two_members refl
