-- ===== src/Chat/Internal.antt =====
-- src/chat/internal/InternalSession.cpp: the chat server's end of the room server's connection, from
-- the bytes that are read to the channels.
use project_sos_backend.Common.RateLimiter.{RateLimiter}
use project_sos_backend.Codec.{receive, receive_all}
use project_sos_backend.Codec.Stream.{AllSendable, stream, joined, receive_all-stream}
use project_sos_backend.Chat.Proto.{Notice}
use project_sos_backend.Chat.State.{Chat, Config}
use project_sos_backend.Chat.Machine.{process_notice, noticed, step, run}
use project_sos_backend.Base.{
  ℕ, ◌≡◌, refl, ◌∙◌, Bool, true, false, Option, none, some, List, [], ◌∷◌, ◌++◌, map, if◌then◌else◌,
}

-- `codec_` and `closed_`.
pub record InternalSession : Type 0 where
  pub buffer : List ℕ
  pub closed : Bool

abbrev pub new_internal_session : InternalSession
new_internal_session = record { buffer = []; closed = false }

unfoldable pub close_internal : InternalSession → InternalSession
close_internal i = if i.closed then i else record i { closed = true }

module _ {S : Type 0} (config : Config S) where
  -- The loop of `doRead` over the messages that the codec yields.
  unfoldable pub process_notices : List Notice → Chat S → Chat S
  unfolding process_notice
  process_notices [] w = w
  process_notices (n ∷ ns) w = process_notices ns (process_notice config n w)

module _ {S : Type 0} (config : Config S) (parse : List ℕ → Option Notice) where
  -- The handler of a read: `none` is an error or the end of the connection.
  unfoldable pub read_handler :
      Option (List ℕ) → InternalSession → Chat S → InternalSession × Chat S
  unfolding receive process_notices close_internal
  read_handler none i w = (close_internal i, w)
  read_handler (some bytes) i w =
      let (notices, rest) = receive parse i.buffer bytes in
      (record i { buffer = rest }, process_notices config notices w)

  -- The reads of a connection. After an error there is none.
  unfoldable pub internal_run :
      List (Option (List ℕ)) → InternalSession → Chat S → InternalSession × Chat S
  unfolding read_handler
  internal_run [] i w = (i, w)
  internal_run (none ∷ reads) i w = read_handler none i w
  internal_run (some bytes ∷ reads) i w =
      let (i1, w1) = read_handler (some bytes) i w in internal_run reads i1 w1

module _ {S : Type 0} (config : Config S) where
  process_notices-append :
      (ms ns : List Notice) (w : Chat S)
      → process_notices config (ms ++ ns) w
        ≡ process_notices config ns (process_notices config ms w)
  unfolding process_notices
  process_notices-append [] ns w = refl
  process_notices-append (m ∷ ms) ns w = process_notices-append ms ns (process_notice config m w)

  process_notices-run :
      (limiter : Option (RateLimiter S)) (ns : List Notice) (w : Chat S)
      → process_notices config ns w ≡ run config limiter (map noticed ns) w
  unfolding process_notices run step
  process_notices-run limiter [] w = refl
  process_notices-run limiter (n ∷ ns) w =
      process_notices-run limiter ns (process_notice config n w)

  internal_run-receive_all :
      (parse : List ℕ → Option Notice) (reads : List (List ℕ)) (i : InternalSession) (w : Chat S)
      → internal_run config parse (map some reads) i w ≡ (
        record i { buffer = (receive_all parse i.buffer reads).1 },
        process_notices config (receive_all parse i.buffer reads).0 w,
      )
  unfolding internal_run read_handler receive_all process_notices
  internal_run-receive_all parse [] i w = refl
  internal_run-receive_all parse (bytes ∷ reads) i w =
      let r = receive parse i.buffer bytes in
      internal_run-receive_all parse reads (record i { buffer = r.1 })
        (process_notices config r.0 w)
      ∙ rw (process_notices-append r.0 (receive_all parse r.1 reads).0 w) refl

  -- However TCP cuts the bytes of sendable notices into reads, the connection's session makes of the
  -- channels what the events of these notices, one after the other, make of them; it stays open, and
  -- nothing is left in its buffer.
  pub internal_run-stream :
      (limiter : Option (RateLimiter S)) (parse : List ℕ → Option Notice)
      (serialize : Notice → List ℕ) (notices : List Notice) (reads : List (List ℕ)) (w : Chat S)
      → AllSendable parse serialize notices
      → joined parse serialize reads ≡ stream parse serialize notices
      → internal_run config parse (map some reads) new_internal_session w
        ≡ (new_internal_session, run config limiter (map noticed notices) w)
  internal_run-stream limiter parse serialize notices reads w sendable bytes =
      internal_run-receive_all parse reads new_internal_session w
      ∙ rw
          (
            receive_all-stream parse serialize notices reads sendable bytes,
            process_notices-run limiter notices w,
          )
          refl
