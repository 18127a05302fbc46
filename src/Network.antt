-- ===== src/Network.antt =====
-- The network side of src/room/server/ClientSession.cpp and src/chat/server/ChatSession.cpp, which is
-- the same: reads, writes and the heartbeat timer of every session, around the state of the server.
-- `boost::asio` is not part of the repository: which operation ends next, and how, is an event. A
-- handler takes no time, and addresses of living objects are not given out again.
pub mod Lines
mod Room
pub mod Talk
mod Kept
mod Silence
mod Tests
use project_sos_backend.Codec.{encode, receive}
use project_sos_backend.WriteQueue.{Socket, new_socket, enqueue, shut, write_handler}
use project_sos_backend.Heartbeat as Heartbeat
use project_sos_backend.Base.{
  ℕ, zero, suc, Bool, true, false, not, ◌&&◌, Option, none, some, List, [], ◌∷◌, ◌++◌, eqb,
  if◌then◌else◌,
}

-- The rest of a server, of state `W`: requests `R`, messages `M` to the sessions, what `start` learns
-- of a connection `C`, and whatever else can happen to the server, `E`.
pub record Host (W R M C E : Type 0) : Type 0 where
  -- there is a session object at the address
  pub is_taken : W → ℕ → Bool
  -- `closed_`, and true where there is no object
  pub is_closed : W → ℕ → Bool
  pub connect : ℕ → C → W → W
  -- the loop of the read handler, at a time: messages in turn, until one leaves the session closed
  pub process : ℕ → ℕ → List R → W → W
  pub close : ℕ → W → W
  pub other : E → W → W
  -- what the sessions were given to send since it was last taken away
  pub out : W → List (ℕ × M)
  pub clear : W → W

-- What a session object has besides the fields that the server's handlers use.
pub record Line (M : Type 0) : Type 0 where
  pub buffer : List ℕ
  -- an `async_read_some` is under way
  pub reading : Bool
  pub socket : Socket
  pub timer : Heartbeat.Session
  -- what the session was given to send, in order
  pub given : List M

pub record Net (W M : Type 0) : Type 0 where
  pub host : W
  pub lines : ℕ → Line M

pub data NetEvent (C E : Type 0) : Type 0 where
  -- with the time
  connected : ℕ → C → ℕ → NetEvent C E
  -- `none` is an error or the end of the connection; with the time
  read_ended : ℕ → Option (List ℕ) → ℕ → NetEvent C E
  -- whether the write has failed
  write_ended : ℕ → Bool → NetEvent C E
  -- the clock of a timer goes on
  ticked : ℕ → ℕ → NetEvent C E
  timer_ended : ℕ → NetEvent C E
  happened : E → NetEvent C E

module _ {M : Type 0} where
  unfoldable pub set_line : ℕ → Line M → (ℕ → Line M) → ℕ → Line M
  set_line a l lines b = if eqb b a then l else lines b

  -- A session object when `start` has returned.
  unfoldable pub new_line : ℕ → ℕ → Line M
  new_line timeout now = record {
    buffer = [];
    reading = true;
    socket = new_socket;
    timer = Heartbeat.start timeout now;
    given = [];
  }

  -- `closed_` is one flag: what closes the session closes its socket and cancels its timer.
  unfoldable pub follow : Bool → Line M → Line M
  unfolding shut
  follow closed l =
      if closed then record l { socket = shut l.socket; timer = Heartbeat.close l.timer } else l

module _ {M : Type 0} (serialize : M → List ℕ) where
  -- `send`
  unfoldable pub give : M → Line M → Line M
  unfolding enqueue encode
  give m l = record l { socket = enqueue (encode serialize m) l.socket; given = l.given ++ m ∷ [] }

  unfoldable pub give_all : List (ℕ × M) → (ℕ → Line M) → ℕ → Line M
  unfolding set_line give
  give_all [] lines = lines
  give_all ((a, m) ∷ out) lines = give_all out (set_line a (give m (lines a)) lines)

module _ {W R M C E : Type 0} (host : Host W R M C E) (serialize : M → List ℕ) where
  -- A handler has run: what it gave to the sessions to send is theirs.
  unfoldable pub settle : W → (ℕ → Line M) → Net W M
  unfolding give_all follow
  settle w lines = record {
    host = host.clear w;
    lines = λ b. follow (host.is_closed w b) (give_all serialize (host.out w) lines b);
  }

module _ {W R M C E : Type 0} (host : Host W R M C E) (serialize : M → List ℕ)
    (parse : List ℕ → Option R) (timeout : ℕ) where
  -- A read has brought bytes. Where no message comes of them, `closed_` is not asked for. A session
  -- that one of the messages closes reads no more, so the model may decode the rest of the buffer.
  unfoldable pub read_bytes : ℕ → List ℕ → ℕ → Net W M → Net W M
  unfolding settle set_line receive
  read_bytes a bytes now n =
      let l = n.lines a in
      let (requests, rest) = receive parse l.buffer bytes in
      let w = host.process a now requests n.host in
      let returns : Bool = elim requests [ [] ↦ false | _ ∷ _ ↦ host.is_closed w a ] in
      settle host serialize w (
        set_line a
          (record l {
            buffer = rest;
            reading = not returns;
            timer = Heartbeat.read_handler timeout now returns l.timer;
          })
          n.lines)

  unfoldable pub read_failed : ℕ → Net W M → Net W M
  unfolding settle set_line
  read_failed a n =
      settle host serialize (host.close a n.host)
        (set_line a (record (n.lines a) { reading = false }) n.lines)

  -- The handler of the oldest write; `none` is undefined.
  unfoldable pub write_done : ℕ → Bool → Net W M → Option (Net W M)
  unfolding settle set_line write_handler
  write_done a failed n =
      let l = n.lines a in
      elim (write_handler failed l.socket) [
        | none ↦ none
        | some s ↦
            let lines = set_line a (record l { socket = s }) n.lines in
            elim l.socket.in_flight [
              | [] ↦ some n
              | _ ∷ _ ↦
                  some
                    (settle host serialize (if failed then host.close a n.host else n.host) lines)
            ]
      ]

  unfoldable pub wait_done : ℕ → Net W M → Net W M
  unfolding settle set_line
  wait_done a n =
      let l = n.lines a in
      elim l.timer.due [
        | zero ↦ n
        | suc k ↦
            settle host serialize (host.close a n.host)
              (set_line a (record l { timer = record l.timer { due = k } }) n.lines)
      ]

  unfoldable pub net_step : NetEvent C E → Net W M → Option (Net W M)
  unfolding settle set_line new_line read_bytes read_failed write_done wait_done
  net_step (connected a c now) n =
      if host.is_taken n.host a
      then some n
      else some (
          settle host serialize (host.connect a c n.host)
            (set_line a (new_line timeout now) n.lines))
  net_step (read_ended a none now) n =
      if (n.lines a).reading then some (read_failed a n) else some n
  net_step (read_ended a (some bytes) now) n =
      if (n.lines a).reading then some (read_bytes a bytes now n) else some n
  net_step (write_ended a failed) n = write_done a failed n
  net_step (ticked a now) n =
      let l = n.lines a in
      some
        (record n { lines = set_line a (record l { timer = Heartbeat.tick now l.timer }) n.lines })
  net_step (timer_ended a) n = some (wait_done a n)
  net_step (happened e) n = some (settle host serialize (host.other e n.host) n.lines)

  unfoldable pub net_run : List (NetEvent C E) → Net W M → Option (Net W M)
  net_run [] n = some n
  net_run (e ∷ events) n = elim (net_step e n) [ none ↦ none | some n1 ↦ net_run events n1 ]

-- No session yet.
abbrev pub no_lines : {M : Type 0} → ℕ → Line M
no_lines a = record {
  buffer = [];
  reading = false;
  socket = new_socket;
  timer = record { closed = false; armed = none; due = 0; active = 0 };
  given = [];
}
