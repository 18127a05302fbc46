-- ===== src/Chat/State.antt =====
-- The state of src/chat/channel/ChannelManager.h, and its helpers `sendTo`, `sendError`,
-- `broadcastToLobby` and `broadcastToSession`. A `ChatSession` object is known by its address, and
-- `clients` is the heap of these objects.
use project_sos_backend.Common.Redis.{Redis}
use project_sos_backend.RoomManager.State.{put, remove}
use project_sos_backend.Chat.Proto.{ChatEnvelope, ChatReceive, ErrorCode, error}
use project_sos_backend.Base.{
  ℕ, String, Bool, true, false, Option, none, some, List, [], ◌∷◌, ◌++◌, eqb, ◌==◌, if◌then◌else◌,
}

-- `player_id_`, `authenticated_` and `closed_` of src/chat/server/ChatSession.h.
pub record Client : Type 0 where
  pub player_id : String
  pub authenticated : Bool
  pub closed : Bool

pub record PlayerState : Type 0 where
  pub player_name : String
  pub session_id : String
  pub session : ℕ
  pub in_lobby : Bool

pub record SessionChannel : Type 0 where
  pub members : List String
  pub expected_players : List String

-- `SerializeAsString` and `ParseFromString` of `ChatReceive` are parameters.
pub record Config (S : Type 0) : Type 0 where
  pub max_message_length : ℕ
  pub history_size : ℕ
  pub session_ttl : ℕ
  -- `none` is a null pointer
  pub redis : Option (Redis S)
  pub serialize : ChatReceive → String
  pub parse : String → Option ChatReceive

pub record Chat (S : Type 0) : Type 0 where
  pub players : String → Option PlayerState
  pub lobby_members : List String
  pub session_channels : String → Option SessionChannel
  pub clients : ℕ → Option Client
  -- what each session was given to send, in order
  pub sent : List (ℕ × ChatEnvelope)
  pub redis : S

-- An `std::unordered_set` of texts; the order is that of a loop over the set.
unfoldable pub has_member : String → List String → Bool
has_member p [] = false
has_member p (q ∷ qs) = if p == q then true else has_member p qs

unfoldable pub add_member : String → List String → List String
unfolding has_member
add_member p qs = if has_member p qs then qs else qs ++ p ∷ []

unfoldable pub drop_member : String → List String → List String
drop_member p [] = []
drop_member p (q ∷ qs) = let rest = drop_member p qs in if p == q then rest else q ∷ rest

unfoldable pub set_client : ℕ → Client → (ℕ → Option Client) → ℕ → Option Client
set_client a c clients b = if eqb b a then some c else clients b

module _ {S : Type 0} where
  -- `ChatSession::send`: a closed session drops the message.
  unfoldable pub send : ℕ → ChatEnvelope → Chat S → Chat S
  send a envelope w = elim (w.clients a) [
    | none ↦ w
    | some c ↦ if c.closed then w else record w { sent = w.sent ++ (a, envelope) ∷ [] }
  ]

  -- `players_.find(player_id)`, then `lock()`: an object that is gone is sent nothing.
  unfoldable pub send_to : String → ChatEnvelope → Chat S → Chat S
  unfolding send
  send_to player_id envelope w = elim (w.players player_id) [
    | none ↦ w
    | some state ↦ send state.session envelope w
  ]

  unfoldable pub send_error : String → ErrorCode → Chat S → Chat S
  unfolding send_to
  send_error player_id code w = send_to player_id (error code) w

  -- The loops of `broadcastToLobby` and `broadcastToSession`.
  unfoldable pub send_all : List String → ChatEnvelope → Chat S → Chat S
  unfolding send_to
  send_all [] envelope w = w
  send_all (p ∷ ps) envelope w = send_all ps envelope (send_to p envelope w)

  unfoldable pub broadcast_to_lobby : ChatEnvelope → Chat S → Chat S
  unfolding send_all
  broadcast_to_lobby envelope w = send_all w.lobby_members envelope w

  unfoldable pub broadcast_to_session : String → ChatEnvelope → Chat S → Chat S
  unfolding send_all
  broadcast_to_session session_id envelope w = elim (w.session_channels session_id) [
    | none ↦ w
    | some channel ↦ send_all channel.members envelope w
  ]

  -- Redis commands under one `try`: the first that throws ends the sequence.
  unfoldable pub try_all : List (S → Bool × S) → S → S
  try_all [] s = s
  try_all (command ∷ commands) s =
      let (done, s') = command s in let rest = try_all commands s' in if done then rest else s'

  -- `sc_it->second.members.erase(player_id)`, if the channel exists.
  unfoldable pub leave_channel : String → String → Chat S → Chat S
  leave_channel session_id player_id w = elim (w.session_channels session_id) [
    | none ↦ w
    | some channel ↦ record w {
      session_channels =
          put session_id (record channel { members = drop_member player_id channel.members })
            w.session_channels;
    }
  ]

  -- A known player leaves the lobby, the session channel and `players_`.
  unfoldable pub forget_player : String → PlayerState → Chat S → Chat S
  unfolding leave_channel drop_member
  forget_player player_id state w =
      let w1 = record w { lobby_members = drop_member player_id w.lobby_members } in
      let w2 = if state.session_id == "" then w1 else leave_channel state.session_id player_id w1 in
      record w2 { players = remove player_id w2.players }
