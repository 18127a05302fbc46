-- ===== src/Network/Lines.antt =====
-- What the sockets of the sessions write, whatever the server does: src/room/server/ClientSession.cpp
-- and src/chat/server/ChatSession.cpp.
use mathlib.Core.Path.{subst}
use mathlib.Core.List.{map-append}
use project_sos_backend.Codec.{encode, receive_all}
use project_sos_backend.Codec.Stream.{AllSendable, joined, receive_all-stream}
use project_sos_backend.WriteQueue.{Socket, enqueue, shut, write_handler}
use project_sos_backend.WriteQueue.Order.{
  Runs, Handled, IsOrderly, frames, enqueue-IsOrderly, shut-IsOrderly, handler-Runs,
  new_socket-IsOrderly,
}
use project_sos_backend.WriteQueue.Delivery.{flat, flat-prefix, AllSendable-take}
use project_sos_backend.Heartbeat as Heartbeat
use project_sos_backend.Network.{
  Host, Line, Net, NetEvent, connected, read_ended, write_ended, ticked, timer_ended, happened,
  set_line, new_line, follow, give, give_all, settle, read_bytes, read_failed, write_done,
  wait_done, net_step, net_run, no_lines,
}
use project_sos_backend.Base.{
  ℕ, zero, suc, ◌≡◌, refl, ap, sym, ◌∙◌, Bool, true, false, Option, none, some, List, [], ◌∷◌, ◌++◌,
  map, append_assoc, length, take, eqb, option_cases, if_cases, arith, if◌then◌else◌,
}

frames-enqueue : (f : List ℕ) (s : Socket) → frames (enqueue f s) ≡ frames s ++ f ∷ []
unfolding enqueue
frames-enqueue f s = ground (arith, append_assoc s.written s.write_queue (f ∷ []))

module _ {M : Type 0} (serialize : M → List ℕ) where
  -- The socket writes one frame at a time, in the order in which the messages were given.
  pub record Faithful (l : Line M) : Type 0 where
    pub orderly : IsOrderly l.socket
    pub all : frames l.socket ≡ map (encode serialize) l.given

  abbrev pub AllFaithful : (ℕ → Line M) → Type 0
  AllFaithful lines = (a : ℕ) → Faithful (lines a)

  give-Faithful : (m : M) (l : Line M) → Faithful l → Faithful (give serialize m l)
  unfolding give enqueue
  give-Faithful m l h = record {
    orderly = enqueue-IsOrderly (encode serialize m) l.socket h.orderly;
    all =
        frames-enqueue (encode serialize m) l.socket
        ∙ ap (λ fs. fs ++ encode serialize m ∷ []) h.all
        ∙ sym (map-append (encode serialize) l.given (m ∷ []));
  }

  follow-Faithful : (closed : Bool) (l : Line M) → Faithful l → Faithful (follow closed l)
  unfolding follow shut
  follow-Faithful true l h = record { orderly = shut-IsOrderly l.socket h.orderly; all = h.all }
  follow-Faithful false l h = h

  set_line-Faithful :
      (a : ℕ) (l : Line M) (lines : ℕ → Line M)
      → Faithful l
      → AllFaithful lines
      → AllFaithful (set_line a l lines)
  unfolding set_line
  set_line-Faithful a l lines h all b = if_cases Faithful (eqb b a) _ _ (λ _. h) (λ _. all b)

  give_all-Faithful :
      (out : List (ℕ × M)) (lines : ℕ → Line M)
      → AllFaithful lines
      → AllFaithful (give_all serialize out lines)
  unfolding give_all
  give_all-Faithful [] lines all = all
  give_all-Faithful ((a, m) ∷ out) lines all =
      give_all-Faithful out (set_line a (give serialize m (lines a)) lines) (
        set_line-Faithful a (give serialize m (lines a)) lines (give-Faithful m (lines a) (all a))
          all)

module _ {W R M C E : Type 0} (host : Host W R M C E) (serialize : M → List ℕ) where
  settle-Faithful :
      (w : W) (lines : ℕ → Line M)
      → AllFaithful serialize lines
      → AllFaithful serialize (settle host serialize w lines).lines
  unfolding settle
  settle-Faithful w lines all a =
      follow-Faithful serialize (host.is_closed w a) (give_all serialize (host.out w) lines a)
        (give_all-Faithful serialize (host.out w) lines all a)

  -- A handler that leaves the socket of a session as it is.
  settle_line-Faithful :
      (w : W) (a : ℕ) (l : Line M) (lines : ℕ → Line M)
      → l.socket ≡ (lines a).socket
      → l.given ≡ (lines a).given
      → AllFaithful serialize lines
      → AllFaithful serialize (settle host serialize w (set_line a l lines)).lines
  settle_line-Faithful w a l lines same given all = settle-Faithful w (set_line a l lines) (
      set_line-Faithful serialize a l lines
        (record { orderly = rw same (all a).orderly; all = rw (same, given) (all a).all }) all)

-- The code is defined, and what it leaves has a property.
abbrev pub Does {ℓ} : {A : Type ℓ} → (A → Type 0) → Option A → Type 0
Does P none = ⊥
Does P (some x) = P x

module _ {W R M C E : Type 0} (host : Host W R M C E) (serialize : M → List ℕ)
    (parse : List ℕ → Option R) (timeout : ℕ) where
  abbrev pub NetFaithful : Net W M → Type 0
  NetFaithful n = AllFaithful serialize n.lines

  write_done-Faithful :
      (a : ℕ) (failed : Bool) (n : Net W M)
      → NetFaithful n
      → Does NetFaithful (write_done host serialize parse timeout a failed n)
  unfolding write_done
  write_done-Faithful a failed n all =
      let before = (n.lines a).socket in
      let runs = handler-Runs failed before (all a).orderly in
      option_cases (Does NetFaithful) (write_handler failed before) _ _
        (λ e. subst (Runs (Handled before)) e runs)
        λ s e.
          let h : Handled before s = subst (Runs (Handled before)) e runs in
          let w = if failed then host.close a n.host else n.host in
          let lines = set_line a (record (n.lines a) { socket = s }) n.lines in
          let settled = settle-Faithful host serialize w lines (
            set_line-Faithful serialize a (record (n.lines a) { socket = s }) n.lines
              (record { orderly = h.orderly; all = h.same ∙ (all a).all }) all) in
          elim before.in_flight
            as (λ q.
              Does NetFaithful
                (elim q [ [] ↦ some n | _ ∷ _ ↦ some (settle host serialize w lines) ])) [
                  | [] ↦ all
                  | _ ∷ _ ↦ settled
                ]

  wait_done-Faithful :
      (a : ℕ) (n : Net W M)
      → NetFaithful n
      → NetFaithful (wait_done host serialize parse timeout a n)
  unfolding wait_done
  wait_done-Faithful a n all =
      elim (n.lines a).timer.due
        as (λ k. NetFaithful (elim k [
          | zero ↦ n
          | suc j ↦ settle host serialize (host.close a n.host) (
              set_line a (record (n.lines a) { timer = record (n.lines a).timer { due = j } })
                n.lines)
        ])) [ zero ↦ all | suc j ↦ settle_line-Faithful host serialize _ a _ n.lines refl refl all ]

  net_step-Faithful :
      (e : NetEvent C E) (n : Net W M)
      → NetFaithful n
      → Does NetFaithful (net_step host serialize parse timeout e n)
  unfolding net_step read_bytes read_failed new_line
  net_step-Faithful (connected a c now) n all =
      if_cases (Does NetFaithful) (host.is_taken n.host a) _ _ (λ _. all)
        λ _.
          settle-Faithful host serialize (host.connect a c n.host)
            (set_line a (new_line timeout now) n.lines)
            (set_line-Faithful serialize a (new_line timeout now) n.lines
              (record { orderly = new_socket-IsOrderly serialize false; all = refl }) all)
  net_step-Faithful (read_ended a none now) n all =
      if_cases (Does NetFaithful) (n.lines a).reading _ _
        (λ _. settle_line-Faithful host serialize _ a _ n.lines refl refl all) (λ _. all)
  net_step-Faithful (read_ended a (some bytes) now) n all =
      if_cases (Does NetFaithful) (n.lines a).reading _ _
        (λ _. settle_line-Faithful host serialize _ a _ n.lines refl refl all) (λ _. all)
  net_step-Faithful (write_ended a failed) n all = write_done-Faithful a failed n all
  net_step-Faithful (ticked a now) n all =
      set_line-Faithful serialize a
        (record (n.lines a) { timer = Heartbeat.tick now (n.lines a).timer }) n.lines
        (record { orderly = (all a).orderly; all = (all a).all }) all
  net_step-Faithful (timer_ended a) n all = wait_done-Faithful a n all
  net_step-Faithful (happened e) n all =
      settle-Faithful host serialize (host.other e n.host) n.lines all

  net_run-Faithful :
      (events : List (NetEvent C E)) (n : Net W M)
      → NetFaithful n
      → Does NetFaithful (net_run host serialize parse timeout events n)
  unfolding net_run
  net_run-Faithful [] n all = all
  net_run-Faithful (e ∷ events) n all =
      let first = net_step-Faithful e n all in
      option_cases (Does NetFaithful) (net_step host serialize parse timeout e n) _ _
        (λ none_. subst (Does NetFaithful) none_ first)
        λ n1 some_. net_run-Faithful events n1 (subst (Does NetFaithful) some_ first)

  -- Whatever happens to a server and its sessions from the start: the code takes no frame from an
  -- empty queue, and of every session, at most the front of the queue is being written, it is while
  -- the socket is not closed, and the frames written and those that wait are those of the messages
  -- that the session was given to send, in their order.
  pub net_run-Faithful_new :
      (events : List (NetEvent C E)) (w : W)
      → Does NetFaithful
          (net_run host serialize parse timeout events (record { host = w; lines = no_lines }))
  net_run-Faithful_new events w =
      net_run-Faithful events (record { host = w; lines = no_lines })
        (λ a. record { orderly = new_socket-IsOrderly serialize false; all = refl })

  -- When all the messages that a session was given to send are sendable: however TCP cuts what was
  -- written to it into reads, its peer's read loop hands on the first of these messages, in order,
  -- as many as there are frames written, and nothing is left in its buffer.
  pub net_run-delivered :
      (peer : List ℕ → Option M) (events : List (NetEvent C E)) (w : W) (n : Net W M) (a : ℕ)
      (reads : List (List ℕ))
      → net_run host serialize parse timeout events (record { host = w; lines = no_lines }) ≡ some n
      → AllSendable peer serialize (n.lines a).given
      → joined peer serialize reads ≡ flat (n.lines a).socket.written
      → receive_all peer [] reads ≡ (take (length (n.lines a).socket.written) (n.lines a).given, [])
  net_run-delivered peer events w n a reads runs sendable bytes =
      let l = n.lines a in
      let h : Faithful serialize l =
        subst (Does NetFaithful) runs (net_run-Faithful_new events w) a in
      receive_all-stream peer serialize (take (length l.socket.written) l.given) reads
        (AllSendable-take peer serialize (length l.socket.written) l.given sendable)
        (bytes ∙ flat-prefix peer serialize l.socket.written l.socket.write_queue l.given h.all)
