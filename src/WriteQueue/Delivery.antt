-- ===== src/WriteQueue/Delivery.antt =====
-- From `send` on one side to the read loop on the other: the write queue of a session, the bytes of
-- its connection, and src/common/protocol/Codec.h at the peer.
use mathlib.Core.Path.{subst}
use project_sos_backend.Codec.{encode, receive_all}
use project_sos_backend.Codec.Stream.{AllSendable, stream, joined, receive_all-stream}
use project_sos_backend.WriteQueue.{
  Socket, new_socket, write_handler, WriteEvent, handled, write_step, write_run,
}
use project_sos_backend.WriteQueue.Order.{Runs, accepted, encoded, InOrder, write_run-InOrder_new}
use project_sos_backend.Base.{
  ℕ, zero, suc, ◌≡◌, refl, ap, ◌∙◌, Bool, false, Option, some, List, [], ◌∷◌, ◌++◌, map, length,
  take, append_assoc, append-nil, arith,
}

-- The bytes of some frames, one after the other.
abbrev pub flat : List (List ℕ) → List ℕ
flat [] = []
flat (f ∷ fs) = f ++ flat fs

module _ {M : Type 0} (parse : List ℕ → Option M) (serialize : M → List ℕ) where
  pub AllSendable-take :
      (n : ℕ) (ms : List M)
      → AllSendable parse serialize ms
      → AllSendable parse serialize (take n ms)
  AllSendable-take zero ms h = tt
  AllSendable-take (suc n) [] h = tt
  AllSendable-take (suc n) (m ∷ ms) h = (h.0, AllSendable-take n ms h.1)

  -- Frames that begin those of some messages are the stream of as many messages.
  pub flat-prefix :
      (written waiting : List (List ℕ)) (ms : List M)
      → written ++ waiting ≡ map (encode serialize) ms
      → flat written ≡ stream parse serialize (take (length written) ms)
  flat-prefix [] waiting ms e = refl
  flat-prefix (f ∷ fs) waiting [] e = cc
  flat-prefix (f ∷ fs) waiting (m ∷ ms) e =
      let rest = flat-prefix fs waiting ms (cc) in
      let first : f ≡ encode serialize m = cc in rw (first, rest) refl

  -- What a session has written of the messages it was given, when all of them are sendable: however the
  -- bytes are cut into reads, the peer's read loop hands on the first of the accepted messages, in
  -- order, as many as there are frames written, and nothing is left in its buffer.
  pub received-write_run :
      (drops : Bool) (events : List (WriteEvent M)) (reads : List (List ℕ)) (s : Socket)
      → write_run serialize drops events new_socket ≡ some s
      → AllSendable parse serialize (accepted serialize drops events new_socket)
      → joined parse serialize reads ≡ flat s.written
      → receive_all parse [] reads
        ≡ (take (length s.written) (accepted serialize drops events new_socket), [])
  received-write_run drops events reads s runs sendable bytes =
      let ms = accepted serialize drops events new_socket in
      let done : InOrder serialize drops ms [] s =
        subst (Runs (InOrder serialize drops ms [])) runs
          (write_run-InOrder_new serialize drops events) in
      receive_all-stream parse serialize (take (length s.written) ms) reads
        (AllSendable-take (length s.written) ms sendable)
        (bytes ∙ flat-prefix s.written s.write_queue ms done.all)

-- `n` writes in a row that succeed.
abbrev pub successes : {M : Type 0} → ℕ → List (WriteEvent M)
successes zero = []
successes (suc n) = handled false ∷ successes n

module _ {M : Type 0} (serialize : M → List ℕ) (drops : Bool) where
  drained :
      (closed : Bool) (queue written : List (List ℕ))
      → write_run serialize drops (successes (length queue)) (record {
        closed = closed;
        write_queue = queue;
        in_flight = take 1 queue;
        written = written;
      })
        ≡ some (record {
          closed = closed;
          write_queue = [];
          in_flight = [];
          written = written ++ queue;
        })
  unfolding write_run write_step write_handler
  drained closed [] written = rw (append-nil written) refl
  drained closed (f ∷ []) written = refl
  drained closed (f ∷ g ∷ queue) written =
      drained closed (g ∷ queue) (written ++ f ∷ [])
      ∙ rw (append_assoc written (f ∷ []) (g ∷ queue)) refl

  -- While a session is open, its queue drains: once as many writes have succeeded as there are frames
  -- in the queue, the frames of all the accepted messages are written, in order, and nothing waits.
  pub write_run-successes :
      (events : List (WriteEvent M)) (s : Socket)
      → write_run serialize drops events new_socket ≡ some s
      → s.closed ≡ false
      → write_run serialize drops (successes (length s.write_queue)) s
        ≡ some (record {
          closed = false;
          write_queue = [];
          in_flight = [];
          written = encoded serialize drops (accepted serialize drops events new_socket);
        })
  write_run-successes events s runs live =
      let ms = accepted serialize drops events new_socket in
      let done : InOrder serialize drops ms [] s =
        subst (Runs (InOrder serialize drops ms [])) runs
          (write_run-InOrder_new serialize drops events) in
      let now : s ≡ record {
        closed = false;
        write_queue = s.write_queue;
        in_flight = take 1 s.write_queue;
        written = s.written;
      } =
        ground (arith, done.orderly.busy live) in
      ap (write_run serialize drops (successes (length s.write_queue))) now
      ∙ drained false s.write_queue s.written
      ∙ ground (arith, done.all)
