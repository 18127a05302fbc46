-- ===== src/Sessions/Tickets.antt =====
-- The tokens that src/common/redis/SessionStore.cpp keeps, through the requests that a game server
-- sends to src/room/internal/GameServerSession.cpp.
mod Issue
mod Game
mod Tests
use Prim.Native.String.{◌++◌ as ◌+++◌, char_at}
use Prim.Native.Char.{code}
use Prim.Native.String.append.{cons}
use Prim.Native.String.char_at.{cons-zero}
use text.Mathlib.TextLemmas.{append_cancel_left}
use project_sos_backend.Common.Redis.{Redis}
use project_sos_backend.Common.SessionStore.{
  Store, TokenData, create_token, validate_token, update_game_server_heartbeat,
  register_game_session, unregister_game_session,
}
use project_sos_backend.Common.Tokens.{StoresTexts}
use project_sos_backend.Room.{
  Room, in_game, is_host, can_start, set_state, set_session_id, remove_player, player_ids,
}
use project_sos_backend.RoomManager.Proto.{Envelope}
use project_sos_backend.RoomManager.State.{
  Server, Config, Io, find_session, send_to, notify_room_list_changed,
}
use project_sos_backend.RoomManager.Leave.{return_to_lobby}
use project_sos_backend.RoomManager.Frames.{io-return_to_lobby}
use project_sos_backend.RoomManager.Game.{
  has_active_game, issue_token, game_start_message, send_game_starts, register_session_id,
  unregister_session_id, notify_session_ended, notify_session_created, start_accepted, start_found,
  handle_start_game, end_session, slot_found, handle_slot_released,
}
use project_sos_backend.Sessions.GameServer.{
  GameRequest, token_validate_request, slot_released, game_server_heartbeat, other, GameServer,
  invalid_token, token_reply, handle_token_validate, handle_game_server_heartbeat,
  process_game_message,
}
use project_sos_backend.Sessions.GameReads.{process_game_messages}
use project_sos_backend.Base.{
  ℕ, zero, suc, ◌+◌, ◌<◌, ◌≡◌, ◌≢◌, refl, sym, ap, ◌∙◌, String, Bool, true, false, ◌||◌, Option,
  none, some, List, [], ◌∷◌, ◌++◌, append-nil, append_assoc, lookup, insert, get_elem?,
  Option-cases, option_cases, inl, inr, arith, eqb, ◌==◌, if◌then◌else◌,
}

pub token_key_same : (s t : String) → (("token:" +++ s) == ("token:" +++ t)) ≡ (s == t)
token_key_same s t = ground (arith, append_cancel_left "token:" s t)

server_key_differs : (s t : String) → "token:" +++ t ≢ "game_server:" +++ s
server_key_differs s t e =
    let first : code "t" ≡ code "g" =
      ap code (sym (cons-zero "t" ("oken:" +++ t)))
      ∙ ap (λ u. code (char_at u 0)) (sym (cons "t" "oken:" t) ∙ e ∙ cons "g" "ame_server:" s)
      ∙ ap code (cons-zero "g" ("ame_server:" +++ s)) in
    absurd (omega (arith, first))

module _ {S : Type 0} (redis : Redis S) (read : S → String → Option String) where
  -- SREM changes no text.
  pub record KeepsTexts : Type 0 where
    pub srem_read : (k v j : String) (s : S) → read (redis.srem k v s).1 j ≡ read s j

module _ {S : Type 0} (read : S → String → Option String) where
  -- What is stored under a token.
  abbrev pub ticket : String → S → Option String
  ticket token s = read s ("token:" +++ token)

-- Whether the game server asks about a token.
abbrev pub presents : String → GameRequest → Bool
presents token (token_validate_request t) = token == t
presents token (slot_released player_id session_id) = false
presents token (game_server_heartbeat server_id) = false
presents token other = false

unfoldable pub presented : String → List GameRequest → Bool
presented token [] = false
presented token (request ∷ requests) = presents token request || presented token requests

module _ {S : Type 0} (store : Store S) (read : S → String → Option String)
    (laws : StoresTexts store.redis read) where
  pub validate_token-value :
      (t : String) (s : S)
      → (validate_token store t s).0
        ≡ some (elim (ticket read t s) [ none ↦ none | some value ↦ store.parse value ])
  unfolding validate_token
  validate_token-value t s =
      let k = "token:" +++ t in
      ground (arith, laws.get_value k s, laws.del_done k (store.redis.get k s).1)

  pub ticket-validate_token :
      (t u : String) (s : S)
      → ticket read t (validate_token store u s).1 ≡ (if t == u then none else ticket read t s)
  unfolding validate_token
  ticket-validate_token t u s =
      let k = "token:" +++ u in
      let j = "token:" +++ t in
      ground (
        arith,
        token_key_same t u,
        laws.get_value k s,
        laws.get_read k j s,
        laws.del_done k (store.redis.get k s).1,
        laws.del_read k j (store.redis.get k s).1,
      )

module _ {S : Type 0} (config : Config S) (store : Store S) (read : S → String → Option String)
    (laws : StoresTexts store.redis read) (sets : KeepsTexts store.redis read)
    (shared : config.session_store ≡ some store) where
  ticket-end_session :
      (t : String) (room : Room) (io : Io S)
      → ticket read t (end_session config room io).redis ≡ ticket read t io.redis
  unfolding end_session unregister_session_id notify_session_ended unregister_game_session
  ticket-end_session t room io =
      ground
        (arith, shared, sets.srem_read "active_sessions" room.session_id ("token:" +++ t) io.redis)

  ticket-slot_found :
      (t p sid r : String) (room : Room) (w : Server S)
      → ticket read t (slot_found config p sid r room w).io.redis ≡ ticket read t w.io.redis
  unfolding slot_found
  ticket-slot_found t p sid r room w =
      ground (arith, io-return_to_lobby p w, ticket-end_session t (remove_player room p).0 w.io)

  ticket-handle_slot_released :
      (t p sid : String) (w : Server S)
      → ticket read t (handle_slot_released config p sid w).io.redis ≡ ticket read t w.io.redis
  unfolding handle_slot_released
  ticket-handle_slot_released t p sid w =
      let Same : Server S → Type 0 = λ v. ticket read t v.io.redis ≡ ticket read t w.io.redis in
      option_cases Same (w.player_to_room p) _ _ (λ _. refl)
        λ r _.
          option_cases Same (lookup r w.rooms) _ _ (λ _. refl)
            λ room _. ticket-slot_found t p sid r room w

  ticket-process_game_message :
      (t : String) (request : GameRequest) (g : GameServer) (w : Server S)
      → ticket read t (process_game_message config store request g w).1.io.redis
        ≡ (if presents t request then none else ticket read t w.io.redis)
  unfolding process_game_message handle_token_validate handle_game_server_heartbeat
      update_game_server_heartbeat
  ticket-process_game_message t (token_validate_request u) g w =
      ticket-validate_token store read laws t u w.io.redis
  ticket-process_game_message t (slot_released p sid) g w = ticket-handle_slot_released t p sid w
  ticket-process_game_message t (game_server_heartbeat id) g w = ground (
    arith,
    laws.setex_read ("game_server:" +++ id) "alive" ("token:" +++ t) store.heartbeat_ttl w.io.redis,
    server_key_differs id t,
  )
  ticket-process_game_message t other g w = refl

  pub ticket-process_game_messages :
      (t : String) (requests : List GameRequest) (g : GameServer) (w : Server S)
      → ticket read t (process_game_messages config store requests g w).1.io.redis
        ≡ (if presented t requests then none else ticket read t w.io.redis)
  unfolding process_game_messages presented
  ticket-process_game_messages t [] g w = refl
  ticket-process_game_messages t (request ∷ requests) g w =
      let r = process_game_message config store request g w in
      ground (
        arith,
        ticket-process_game_message t request g w,
        ticket-process_game_messages t requests r.0 r.1,
      )
