-- ===== src/WriteQueue/Order.antt =====
-- The write queue of a session keeps the order of its messages, writes one frame at a time, and never
-- takes a frame from an empty queue.
use project_sos_backend.Codec.{encode}
use project_sos_backend.WriteQueue.{
  Socket, new_socket, enqueue, shut, write_handler, WriteEvent, sent, handled, shut_down,
  send_message, write_step, write_run,
}
use project_sos_backend.Base.{
  ℕ, ◌≡◌, ◌⊎◌, if_cases, refl, ap, sym, ◌∙◌, inl, Bool, true, false, ◌&&◌, Option, none, some, List,
  [], ◌∷◌, ◌++◌, map, take, append_assoc, append-nil, arith, if◌then◌else◌,
}

-- At most the front of the queue is being written; it is, while the session is open.
pub record IsOrderly (s : Socket) : Type 0 where
  pub one_write : (s.in_flight ≡ []) ⊎ (s.in_flight ≡ take 1 s.write_queue)
  pub busy : s.closed ≡ false → s.in_flight ≡ take 1 s.write_queue

-- What is written and what waits.
abbrev pub frames : Socket → List (List ℕ)
frames s = s.written ++ s.write_queue

pub enqueue-IsOrderly : (frame : List ℕ) (s : Socket) → IsOrderly s → IsOrderly (enqueue frame s)
unfolding enqueue
enqueue-IsOrderly frame s h = record {
  one_write = ground (arith, h.one_write);
  busy = ground (arith, h.busy);
}

pub shut-IsOrderly : (s : Socket) → IsOrderly s → IsOrderly (shut s)
unfolding shut
shut-IsOrderly s h = record { one_write = h.one_write; busy = λ e. cc }

-- What a handler that has run leaves: an orderly session, with the same frames.
pub record Handled (s s' : Socket) : Type 0 where
  pub orderly : IsOrderly s'
  pub same : frames s' ≡ frames s
  pub grows : (rest : List (List ℕ)) × (s'.written ≡ s.written ++ rest)

-- The code is defined, and what it leaves has a property.
abbrev pub Runs : (Socket → Type 0) → Option Socket → Type 0
Runs P none = ⊥
Runs P (some s) = P s

handler-Runs_at :
    (failed closed : Bool) (queue flight written : List (List ℕ))
    → let s : Socket = record {
      closed = closed;
      write_queue = queue;
      in_flight = flight;
      written = written;
    } in
      IsOrderly s → Runs (Handled s) (write_handler failed s)
unfolding write_handler
handler-Runs_at failed closed queue [] written h = record {
  orderly = h;
  same = refl;
  grows = ([], sym (append-nil written));
}
handler-Runs_at true closed queue (f ∷ fs) written h = record {
  orderly = record { one_write = ground (arith, h.one_write); busy = λ e. cc };
  same = refl;
  grows = ([], sym (append-nil written));
}
handler-Runs_at false closed [] (f ∷ fs) written h = ground (arith, h.one_write)
handler-Runs_at false closed (q ∷ []) (f ∷ fs) written h = record {
  orderly = record { one_write = ground (arith, h.one_write); busy = ground (arith, h.one_write) };
  same = append_assoc written (f ∷ []) [] ∙ ground (arith, h.one_write);
  grows = (f ∷ [], refl);
}
handler-Runs_at false closed (q ∷ r ∷ queue) (f ∷ fs) written h = record {
  orderly = record { one_write = ground (arith, h.one_write); busy = ground (arith, h.one_write) };
  same = append_assoc written (f ∷ []) (r ∷ queue) ∙ ground (arith, h.one_write);
  grows = (f ∷ [], refl);
}

pub handler-Runs :
    (failed : Bool) (s : Socket) → IsOrderly s → Runs (Handled s) (write_handler failed s)
handler-Runs failed s = handler-Runs_at failed s.closed s.write_queue s.in_flight s.written

module _ {M : Type 0} (serialize : M → List ℕ) (drops : Bool) where
  -- The messages that `send` has put into the queue.
  unfoldable pub accepted : List (WriteEvent M) → Socket → List M
  unfolding write_step
  accepted [] s = []
  accepted (e ∷ events) s = elim (write_step serialize drops e s) [
    | none ↦ []
    | some s1 ↦
        let later = accepted events s1 in
        elim e [ sent m ↦ if drops && s.closed then later else m ∷ later | _ ↦ later ]
  ]

  frames-send_message :
      (m : M) (s : Socket)
      → frames (send_message serialize drops m s)
        ≡ (if drops && s.closed then frames s else frames s ++ encode serialize m ∷ [])
  unfolding send_message enqueue
  frames-send_message m s =
      ground (arith, append_assoc s.written s.write_queue (encode serialize m ∷ []))

  send_message-IsOrderly :
      (m : M) (s : Socket) → IsOrderly s → IsOrderly (send_message serialize drops m s)
  unfolding send_message
  send_message-IsOrderly m s h =
      if_cases IsOrderly (drops && s.closed) _ _ (λ _. h)
        λ _. enqueue-IsOrderly (encode serialize m) s h

  abbrev pub encoded : List M → List (List ℕ)
  encoded ms = map (encode serialize) ms

  -- The session is orderly, and has the frames of some messages besides those of before.
  pub record InOrder (ms : List M) (old : List (List ℕ)) (s : Socket) : Type 0 where
    pub orderly : IsOrderly s
    pub all : frames s ≡ old ++ encoded ms

  after_send :
      (m : M) (ms : List M) (s : Socket) (o : Option Socket)
      → Runs (InOrder ms (frames (send_message serialize drops m s))) o
      → Runs (InOrder (if drops && s.closed then ms else m ∷ ms) (frames s)) o
  after_send m ms s none h = h
  after_send m ms s (some s') h =
      let sends = frames-send_message m s in
      if_cases (λ r. InOrder r (frames s) s') (drops && s.closed) _ _
        (λ e. record { orderly = h.orderly; all = h.all ∙ ground (arith, sends) })
        (λ e.
          let f : frames (send_message serialize drops m s) ≡ frames s ++ encode serialize m ∷ [] =
            ground (arith, sends) in
          record {
            orderly = h.orderly;
            all =
                h.all
                ∙ ap (λ (l : List (List ℕ)). l ++ encoded ms) f
                ∙ append_assoc (frames s) (encode serialize m ∷ []) (encoded ms);
          })

  after_handler :
      (events : List (WriteEvent M)) (s : Socket) (o : Option Socket)
      → Runs (Handled s) o
      → ((s1 : Socket)
          → IsOrderly s1
          → Runs (InOrder (accepted events s1) (frames s1)) (write_run serialize drops events s1))
      → Runs
          (InOrder (elim o [ none ↦ [] | some s1 ↦ accepted events s1 ]) (frames s))
          (elim o [ none ↦ none | some s1 ↦ write_run serialize drops events s1 ])
  after_handler events s none h next = h
  after_handler events s (some s1) h next = rw (← h.same) (next s1 h.orderly)

  write_run-InOrder :
      (events : List (WriteEvent M)) (s : Socket)
      → IsOrderly s
      → Runs (InOrder (accepted events s) (frames s)) (write_run serialize drops events s)
  unfolding write_run accepted write_step
  write_run-InOrder [] s h = record { orderly = h; all = sym (append-nil (frames s)) }
  write_run-InOrder (sent m ∷ events) s h =
      let s1 = send_message serialize drops m s in
      after_send m (accepted events s1) s (write_run serialize drops events s1)
        (write_run-InOrder events s1 (send_message-IsOrderly m s h))
  write_run-InOrder (handled failed ∷ events) s h =
      after_handler events s (write_handler failed s) (handler-Runs failed s h)
        (λ s1 orderly. write_run-InOrder events s1 orderly)
  write_run-InOrder (shut_down ∷ events) s h =
      write_run-InOrder events (shut s) (shut-IsOrderly s h)

  pub new_socket-IsOrderly : IsOrderly new_socket
  new_socket-IsOrderly = record { one_write = inl refl; busy = λ e. refl }

  -- Whatever is sent to a new session and in whatever order the writes end or fail and the session is
  -- closed: the code takes no frame from an empty queue, at most the front of the queue is being written,
  -- it is while the session is open, and the frames written and those that wait are those of the messages
  -- that were accepted, in their order.
  pub write_run-InOrder_new :
      (events : List (WriteEvent M))
      → Runs (InOrder (accepted events new_socket) []) (write_run serialize drops events new_socket)
  write_run-InOrder_new events = write_run-InOrder events new_socket new_socket-IsOrderly
