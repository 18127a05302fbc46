-- ===== src/RoomManager/State.antt =====
-- The state of src/room/room/RoomManager.h, and its helpers `sendTo`, `sendRejectTo`,
-- `broadcastToRoom`, `addLobbySession`, `removeLobbySession`, `notifyRoomListChanged` and the maps
-- of sessions. A `ClientSession` object is known by its address, a number; `clients` is the heap of
-- these objects, and a `weak_ptr` is an address whose object may be gone. What a handler hands to
-- the sockets, to Redis and to the chat server is `Io`.
use project_sos_backend.Common.SessionStore.{Store}
use project_sos_backend.Room.{Room}
use project_sos_backend.RoomManager.Proto.{Envelope, ChatNotice, RejectReason, reject}
use project_sos_backend.Base.{
  ℕ, String, Bool, true, false, Option, none, some, List, [], ◌∷◌, ◌++◌, eqb, ◌==◌, if◌then◌else◌,
}

-- `player_id_`, `remote_ip_` and `closed_` of src/room/server/ClientSession.h.
pub record Client : Type 0 where
  pub player_id : String
  pub remote_ip : String
  pub closed : Bool

pub record Io (S : Type 0) : Type 0 where
  -- what each session was given to send, in order
  pub sent : List (ℕ × Envelope)
  -- what the chat channel was given to send, in order
  pub notices : List ChatNotice
  pub redis : S
  -- the number of UUIDs drawn
  pub drawn : ℕ

pub record Config (S : Type 0) : Type 0 where
  pub max_rooms : ℕ
  pub max_players_per_room : ℕ
  pub game_server_host : String
  pub game_server_port : ℕ
  -- `none` is a null pointer
  pub session_store : Option (Store S)
  pub has_chat_channel : Bool
  -- `generateUuid`: the n-th UUID
  pub uuid : ℕ → String

pub record Server (S : Type 0) : Type 0 where
  pub rooms : List (String × Room)
  pub player_to_room : String → Option String
  pub sessions : String → Option ℕ
  pub lobby_sessions : List ℕ
  pub lobby_broadcast_pending : Bool
  pub clients : ℕ → Option Client
  pub io : Io S

-- `map[key] = value` and `map.erase(key)` for a map that is only looked up.
abbrev pub put {ℓ} : {V : Type ℓ} → String → V → (String → Option V) → String → Option V
put key value m k = if k == key then some value else m k

abbrev pub remove {ℓ} : {V : Type ℓ} → String → (String → Option V) → String → Option V
remove key m k = if k == key then none else m k

unfoldable pub has_address : ℕ → List ℕ → Bool
has_address a [] = false
has_address a (b ∷ bs) = if eqb a b then true else has_address a bs

unfoldable pub erase_address : ℕ → List ℕ → List ℕ
erase_address a [] = []
erase_address a (b ∷ bs) = let rest = erase_address a bs in if eqb a b then rest else b ∷ rest

-- A write to the session object at address `a`.
unfoldable pub set_client : ℕ → Client → (ℕ → Option Client) → ℕ → Option Client
set_client a c clients b = if eqb b a then some c else clients b

module _ {S : Type 0} where
  -- `weak.lock()`
  abbrev pub lock : Server S → ℕ → Option ℕ
  lock w a = elim (w.clients a) [ none ↦ none | some _ ↦ some a ]

  -- `sessions_.find(player_id)` and `lock()`
  abbrev pub find_session : Server S → String → Option ℕ
  find_session w player_id = elim (w.sessions player_id) [ none ↦ none | some a ↦ lock w a ]

  -- `ClientSession::send`: the message joins the session's write queue.
  abbrev pub send : ℕ → Envelope → Io S → Io S
  send a envelope io = record io { sent = io.sent ++ (a, envelope) ∷ [] }

  unfoldable pub send_to : Server S → String → Envelope → Io S → Io S
  send_to w player_id envelope io = elim (find_session w player_id) [
    | none ↦ io
    | some a ↦ send a envelope io
  ]

  unfoldable pub send_reject_to : ℕ → RejectReason → Server S → Server S
  send_reject_to a reason w = record w { io = send a (reject reason) w.io }

  -- `broadcastToRoom`, over the ids that `playerIds` returns
  unfoldable pub broadcast_to : Server S → List String → Envelope → Io S → Io S
  broadcast_to w [] envelope io = io
  broadcast_to w (id ∷ ids) envelope io = broadcast_to w ids envelope (send_to w id envelope io)

  unfoldable pub broadcast_except : Server S → List String → Envelope → String → Io S → Io S
  broadcast_except w [] envelope excluded io = io
  broadcast_except w (id ∷ ids) envelope excluded io =
      broadcast_except w ids envelope excluded
        (if id == excluded then io else send_to w id envelope io)

  unfoldable pub register_session : String → ℕ → Server S → Server S
  register_session player_id a w = record w { sessions = put player_id a w.sessions }

  unfoldable pub unregister_session : String → Server S → Server S
  unregister_session player_id w = record w { sessions = remove player_id w.sessions }

  unfoldable pub add_lobby_session : ℕ → Server S → Server S
  add_lobby_session a w = record w {
    lobby_sessions =
        if has_address a w.lobby_sessions then w.lobby_sessions else w.lobby_sessions ++ a ∷ [];
  }

  unfoldable pub remove_lobby_session : ℕ → Server S → Server S
  remove_lobby_session a w = record w { lobby_sessions = erase_address a w.lobby_sessions }

  -- The timer is set unless nobody would hear it or it is set already.
  unfoldable pub notify_room_list_changed : Server S → Server S
  notify_room_list_changed w = elim w.lobby_sessions [
    | [] ↦ w
    | _ ∷ _ ↦ if w.lobby_broadcast_pending then w else record w { lobby_broadcast_pending = true }
  ]

  -- `session->playerId()`
  abbrev pub player_id_of : Server S → ℕ → String
  player_id_of w a = elim (w.clients a) [ none ↦ "" | some c ↦ c.player_id ]

  -- `session->setPlayerId(player_id)`
  unfoldable pub set_player_id : ℕ → String → Server S → Server S
  unfolding set_client
  set_player_id a player_id w = elim (w.clients a) [
    | none ↦ w
    | some c ↦ record w { clients = set_client a (record c { player_id = player_id }) w.clients }
  ]
