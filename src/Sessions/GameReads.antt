-- ===== src/Sessions/GameReads.antt =====
-- The read loop of src/room/internal/GameServerSession.cpp, from the bytes of a game server to the
-- rooms.
use mathlib.Core.List.{foldl, foldl-append}
use project_sos_backend.Common.SessionStore.{Store}
use project_sos_backend.Codec.{receive, receive_all}
use project_sos_backend.Codec.Stream.{AllSendable, stream, joined, receive_all-stream}
use project_sos_backend.RoomManager.State.{Server, Config}
use project_sos_backend.Sessions.GameServer.{
  GameServer, GameRequest, process_game_message, close_game_server,
}
use project_sos_backend.Base.{
  ℕ, ◌≡◌, refl, sym, ap, ◌∙◌, append-nil, Option, none, some, List, [], ◌∷◌, ◌++◌, map,
}

-- `codec_`, and the other fields.
pub record GameConnection : Type 0 where
  pub buffer : List ℕ
  pub session : GameServer

module _ {S : Type 0} (config : Config S) (store : Store S) where
  -- The loop over the messages that the codec yields.
  unfoldable pub process_game_messages :
      List GameRequest → GameServer → Server S → GameServer × Server S
  unfolding process_game_message
  process_game_messages [] g w = (g, w)
  process_game_messages (request ∷ requests) g w =
      let (g1, w1) = process_game_message config store request g w in
      process_game_messages requests g1 w1

module _ {S : Type 0} (config : Config S) (store : Store S)
    (parse : List ℕ → Option GameRequest) where
  -- The handler of a read: `none` is an error or the end of the connection.
  unfoldable pub game_read_handler :
      Option (List ℕ) → GameConnection → Server S → GameConnection × Server S
  unfolding receive process_game_messages close_game_server
  game_read_handler none c w =
      let (g, w1) = close_game_server config store c.session w in (record c { session = g }, w1)
  game_read_handler (some bytes) c w =
      let (requests, rest) = receive parse c.buffer bytes in
      let (g, w1) = process_game_messages config store requests c.session w in
      (record { buffer = rest; session = g }, w1)

  -- The reads of a connection. After an error there is none.
  unfoldable pub game_run :
      List (Option (List ℕ)) → GameConnection → Server S → GameConnection × Server S
  unfolding game_read_handler
  game_run [] c w = (c, w)
  game_run (none ∷ reads) c w = game_read_handler none c w
  game_run (some bytes ∷ reads) c w =
      let (c1, w1) = game_read_handler (some bytes) c w in game_run reads c1 w1

module _ {S : Type 0} (config : Config S) (store : Store S) where
  -- The messages one after the other, each handled once.
  abbrev handled : List GameRequest → GameServer → Server S → GameServer × Server S
  handled requests g w =
      foldl
        (λ (p : GameServer × Server S) request. process_game_message config store request p.0 p.1)
        (g, w) requests

  process_game_messages-handled :
      (requests : List GameRequest) (g : GameServer) (w : Server S)
      → process_game_messages config store requests g w ≡ handled requests g w
  unfolding process_game_messages
  process_game_messages-handled [] g w = refl
  process_game_messages-handled (request ∷ requests) g w =
      let p = process_game_message config store request g w in
      process_game_messages-handled requests p.0 p.1

  -- The end of a connection after its messages.
  abbrev ended_after : GameServer × Server S → GameConnection × Server S
  ended_after p =
      let (g, w) = close_game_server config store p.0 p.1 in
      (record { buffer = []; session = g }, w)

  game_run-receive_all :
      (parse : List ℕ → Option GameRequest) (reads : List (List ℕ)) (later : List (Option (List ℕ)))
      (c : GameConnection) (w : Server S)
      → let p = handled (receive_all parse c.buffer reads).0 c.session w in
        game_run config store parse (map some reads ++ later) c w
        ≡ game_run config store parse later
            (record { buffer = (receive_all parse c.buffer reads).1; session = p.0 })
            p.1
  unfolding game_run game_read_handler receive_all
  game_run-receive_all parse [] later c w = refl
  game_run-receive_all parse (bytes ∷ reads) later c w =
      let r = receive parse c.buffer bytes in
      let p = process_game_messages config store r.0 c.session w in
      let whole =
        foldl-append
          (λ (p : GameServer × Server S) request. process_game_message config store request p.0 p.1)
          (c.session, w) r.0 (receive_all parse r.1 reads).0 in
      game_run-receive_all parse reads later (record { buffer = r.1; session = p.0 }) p.1
      ∙ rw (whole, process_game_messages-handled r.0 c.session w) refl

  -- However TCP cuts the bytes of sendable messages of a game server into reads: the messages are
  -- handled one after the other, each once, and nothing is left in the buffer. Where the connection
  -- then ends, or a read of it fails, it is closed in the state that these messages have left, once,
  -- whatever reads would follow.
  pub game_run-stream :
      (parse : List ℕ → Option GameRequest) (serialize : GameRequest → List ℕ)
      (requests : List GameRequest) (reads : List (List ℕ)) (later : List (Option (List ℕ)))
      (g : GameServer) (w : Server S)
      → AllSendable parse serialize requests
      → joined parse serialize reads ≡ stream parse serialize requests
      → let c : GameConnection = record { buffer = []; session = g } in
        let p = handled requests g w in
        (game_run config store parse (map some reads) c w
          ≡ (record { buffer = []; session = p.0 }, p.1))
        × (game_run config store parse (map some reads ++ none ∷ later) c w ≡ ended_after p)
  unfolding game_run game_read_handler
  game_run-stream parse serialize requests reads later g w sendable bytes =
      let c : GameConnection = record { buffer = []; session = g } in
      let all = receive_all-stream parse serialize requests reads sendable bytes in
      (
        ap (λ l. game_run config store parse l c w) (sym (append-nil (map some reads)))
            ∙ game_run-receive_all parse reads [] c w
            ∙ rw all refl,
        game_run-receive_all parse reads (none ∷ later) c w ∙ rw all refl,
      )
