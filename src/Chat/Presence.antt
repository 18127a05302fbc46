-- ===== src/Chat/Presence.antt =====
-- What src/chat/channel/ChannelManager.h promises: each player is in one place at most, and the
-- calls of the manager move the players between places. A player is nowhere who is not connected, or
-- whose channel was announced again, or who asked for a session that is not there.
mod Moves
mod Refine
mod Runs
mod Tests
use project_sos_backend.Chat.Proto.{ChatAuth, ChatSend}
use project_sos_backend.Chat.State.{Chat, Config, PlayerState, SessionChannel}
use project_sos_backend.Chat.Auth.{handle_auth}
use project_sos_backend.Chat.Messages.{handle_chat_send}
use project_sos_backend.Chat.Channels.{
  handle_disconnect, handle_session_created, handle_session_ended,
}
use project_sos_backend.Chat.Members.{lists}
use project_sos_backend.Chat.Games.Entering.{is_open}
use project_sos_backend.Base.{
  ℕ, String, Bool, true, false, ◌||◌, Option, none, some, List, [], ◌∷◌, ◌==◌, if◌then◌else◌,
}

pub data Place : Type 0 where
  nowhere : Place
  lobby : Place
  session : String → Place

abbrev pub is_lobby : Place → Bool
is_lobby nowhere = false
is_lobby lobby = true
is_lobby (session s) = false

abbrev pub is_session : String → Place → Bool
is_session s nowhere = false
is_session s lobby = false
is_session s (session t) = t == s

-- A call of the manager.
pub data Call : Type 0 where
  auth : ChatAuth → ℕ → Call
  chat_send : String → ChatSend → ℕ → Call
  disconnect : String → Call
  session_created : String → List (String × String) → Call
  session_ended : String → Call

-- Where each player is, and which sessions have a channel.
pub record Presence : Type 0 where
  pub place : String → Place
  pub opened : String → Bool

abbrev pub nobody : Presence
nobody = record { place = λ _. nowhere; opened = λ _. false }

abbrev pub without : String → Presence → Presence
without p v = record v { place = λ q. if q == p then nowhere else v.place q }

-- Whoever is in the session `s` goes to another place.
abbrev pub evacuate : String → Place → Place → Place
evacuate s to from = if is_session s from then to else from

-- The place that a player who authenticates asks for.
abbrev pub requested : String → (String → Bool) → Place
requested s opened = if s == "" then lobby else if opened s then session s else nowhere

-- The player of a request is where it asks to be.
abbrev pub seated : ChatAuth → Presence → Presence
seated request v = record v {
  place = λ q. if q == request.player_id then requested request.session_id v.opened else v.place q;
}

-- A session is announced: it has a new channel, with nobody in it.
abbrev pub announced : String → Presence → Presence
announced s v = record {
  place = λ q. evacuate s nowhere (v.place q);
  opened = λ t. if t == s then true else v.opened t;
}

-- A session has ended: those in it go to the lobby.
abbrev pub closed : String → Presence → Presence
closed s v = record {
  place = λ q. evacuate s lobby (v.place q);
  opened = λ t. if t == s then false else v.opened t;
}

unfoldable pub spec : Call → Presence → Presence
spec (auth request a) v =
    if request.player_id == "" || request.player_name == "" then v else seated request v
spec (chat_send p request now) v = v
spec (disconnect p) v = without p v
spec (session_created s players) v = announced s v
spec (session_ended s) v = closed s v

unfoldable pub spec_all : List Call → Presence → Presence
spec_all [] v = v
spec_all (call ∷ calls) v = spec_all calls (spec call v)

-- The place of a player by the player's state and the channel of its session.
abbrev pub place_by : Option PlayerState → (String → Option SessionChannel) → String → Place
place_by none channels p = nowhere
place_by (some state) channels p =
    if state.in_lobby
    then lobby
    else if lists (channels state.session_id) p
    then session state.session_id
    else nowhere

module _ {S : Type 0} where
  abbrev pub presence : Chat S → Presence
  presence w = record {
    place = λ p. place_by (w.players p) w.session_channels p;
    opened = λ s. is_open (w.session_channels s);
  }

module _ {S : Type 0} (config : Config S) where
  unfoldable pub call : Call → Chat S → Chat S
  unfolding handle_auth handle_chat_send handle_disconnect handle_session_created
      handle_session_ended
  call (auth request a) w = handle_auth config request a w
  call (chat_send p request now) w = handle_chat_send config p request now w
  call (disconnect p) w = handle_disconnect p w
  call (session_created s players) w = handle_session_created config s players w
  call (session_ended s) w = handle_session_ended config s w
