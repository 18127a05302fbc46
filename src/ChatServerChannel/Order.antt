-- ===== src/ChatServerChannel/Order.antt =====
-- The order of the notices on the connection to the chat server, and when the code of
-- src/room/internal/ChatServerChannel.cpp takes a frame from an empty queue.
use project_sos_backend.Codec.{encode}
use project_sos_backend.ChatServerChannel.{
  Channel, new_channel, do_resolve_and_connect, do_connect, schedule_reconnect, do_read, send,
  close, stop, resolve_handler, connect_handler, timer_handler, read_handler, write_handler,
  ChannelEvent, notified, stopped_by_signal, resolved, connection_made, timer_ended, read_ended,
  write_ended, notify, channel_step, channel_run, channel_started,
}
use project_sos_backend.Base.{
  ℕ, zero, suc, ◌≤◌, ◌≡◌, ◌⊎◌, refl, ◌∙◌, Bool, true, false, Option, none, some, List, [], ◌∷◌,
  ◌++◌, take, append_assoc, if_cases, arith,
}

-- The operations of a connection that is closed end, without success, before there is a new one; and a
-- wait ends early only where the timer was set anew or the channel is stopped.
abbrev pub IsPrompt : {M : Type 0} → ChannelEvent M → Channel → Type 0
IsPrompt (write_ended false) c = c.connected ≡ true
IsPrompt (read_ended false) c = c.connected ≡ true
IsPrompt (connection_made false) c = c.in_flight ≡ []
IsPrompt (timer_ended true) c = (2 ≤ c.waits) ⊎ (c.stopped ≡ true)
IsPrompt _ c = Unit

-- On a connection, the frames written and those that wait are those that were accepted, in order, and
-- the front of the queue is being written; without one, none waits.
pub record InOrder (c : Channel) : Type 0 where
  pub all : c.connected ≡ true → c.written ++ c.write_queue ≡ c.accepted
  pub one_write : c.connected ≡ true → c.in_flight ≡ take 1 c.write_queue
  pub dropped : c.connected ≡ false → c.write_queue ≡ []

abbrev pub Runs : (Channel → Type 0) → Option Channel → Type 0
Runs P none = ⊥
Runs P (some c) = P c

module _ {M : Type 0} (serialize : M → List ℕ) where
  -- Every event is prompt at the state in which it happens.
  unfoldable pub AllPrompt : List (ChannelEvent M) → Channel → Type 0
  unfolding channel_step
  AllPrompt [] c = Unit
  AllPrompt (e ∷ events) c = IsPrompt e c × (elim (channel_step serialize e c) as (λ _. Type 0) [
    | none ↦ Unit
    | some c1 ↦ AllPrompt events c1
  ])

  notify-InOrder : (m : M) (c : Channel) → InOrder c → InOrder (notify serialize m c)
  unfolding notify send
  notify-InOrder m c h = record {
    all = ground (arith, h.all, append_assoc c.written c.write_queue (encode serialize m ∷ []));
    one_write = ground (arith, h.one_write);
    dropped = ground (arith, h.dropped);
  }

  close-dropped : (c : Channel) → (c.connected ≡ false → c.write_queue ≡ []) → InOrder (close c)
  unfolding close
  close-dropped c h = record {
    all = ground arith;
    one_write = ground arith;
    dropped = ground (arith, h);
  }

  schedule_reconnect-InOrder : (c : Channel) → InOrder c → InOrder (schedule_reconnect c)
  unfolding schedule_reconnect
  schedule_reconnect-InOrder c h =
      if_cases InOrder c.stopped _ _ (λ _. h)
        λ _. record { all = h.all; one_write = h.one_write; dropped = h.dropped }

  resolve_handler-InOrder :
      (failed : Bool) (c : Channel) → InOrder c → InOrder (resolve_handler failed c)
  unfolding resolve_handler do_connect
  resolve_handler-InOrder true c h = schedule_reconnect-InOrder c h
  resolve_handler-InOrder false c h =
      if_cases InOrder c.stopped _ _ (λ _. h)
        λ _. record { all = h.all; one_write = h.one_write; dropped = h.dropped }

  connect_handler-InOrder :
      (failed : Bool) (n : ℕ) (c : Channel)
      → InOrder c
      → IsPrompt {M = M} (connection_made failed) c
      → InOrder (connect_handler failed (record c { connects = n }))
  unfolding connect_handler do_read
  connect_handler-InOrder true n c h p =
      schedule_reconnect-InOrder (record c { connects = n })
        (record { all = h.all; one_write = h.one_write; dropped = h.dropped })
  connect_handler-InOrder false n c h p = record {
    all = λ _. ground (arith, h.one_write, h.dropped);
    one_write = λ _. ground (arith, h.one_write, h.dropped);
    dropped = λ e. cc;
  }

  timer_handler-InOrder :
      (failed : Bool) (c : Channel) → InOrder c → InOrder (timer_handler failed c)
  unfolding timer_handler do_resolve_and_connect
  timer_handler-InOrder failed c h = record {
    all = ground (arith, h.all);
    one_write = ground (arith, h.one_write);
    dropped = ground (arith, h.dropped);
  }

  read_handler-InOrder : (failed : Bool) (c : Channel) → InOrder c → InOrder (read_handler failed c)
  unfolding read_handler do_read
  read_handler-InOrder true c h = schedule_reconnect-InOrder (close c) (close-dropped c h.dropped)
  read_handler-InOrder false c h = record {
    all = h.all;
    one_write = h.one_write;
    dropped = h.dropped;
  }

  write_ended_at :
      (failed connected : Bool) (queue flight : List (List ℕ)) (c0 : Channel)
      → let c : Channel = record c0 {
        connected = connected;
        write_queue = queue;
        in_flight = flight;
      } in
        InOrder c
        → IsPrompt {M = M} (write_ended failed) c
        → Runs InOrder (channel_step serialize (write_ended failed) c)
  unfolding channel_step write_handler
  write_ended_at failed connected queue [] c0 h p = h
  write_ended_at true connected queue (f ∷ fs) c0 h p =
      let c1 : Channel = record c0 { connected = connected; write_queue = queue; in_flight = fs } in
      schedule_reconnect-InOrder (close c1) (close-dropped c1 h.dropped)
  write_ended_at false false queue (f ∷ fs) c0 h p = cc
  write_ended_at false true [] (f ∷ fs) c0 h p = ground (arith, h.one_write refl)
  write_ended_at false true (q ∷ []) (f ∷ fs) c0 h p = record {
    all = λ _. append_assoc c0.written (f ∷ []) [] ∙ ground (arith, h.one_write refl, h.all refl);
    one_write = λ _. ground (arith, h.one_write refl);
    dropped = λ e. cc;
  }
  write_ended_at false true (q ∷ r ∷ queue) (f ∷ fs) c0 h p = record {
    all = λ _.
        append_assoc c0.written (f ∷ []) (r ∷ queue) ∙ ground (arith, h.one_write refl, h.all refl);
    one_write = λ _. ground (arith, h.one_write refl);
    dropped = λ e. cc;
  }

  counted :
      (n : ℕ) (c : Channel) (f : ℕ → Channel)
      → InOrder c
      → ((k : ℕ) → InOrder (f k))
      → Runs InOrder (elim n [ zero ↦ some c | suc k ↦ some (f k) ])
  counted zero c f h g = h
  counted (suc k) c f h g = g k

  step-InOrder :
      (e : ChannelEvent M) (c : Channel)
      → InOrder c
      → IsPrompt e c
      → Runs InOrder (channel_step serialize e c)
  unfolding channel_step stop
  step-InOrder (notified m) c h p = notify-InOrder m c h
  step-InOrder stopped_by_signal c h p = close-dropped (record c { stopped = true }) h.dropped
  step-InOrder (resolved failed) c h p =
      counted c.resolves c (λ n. resolve_handler failed (record c { resolves = n })) h
        (λ n.
          resolve_handler-InOrder failed (record c { resolves = n })
            (record { all = h.all; one_write = h.one_write; dropped = h.dropped }))
  step-InOrder (connection_made failed) c h p =
      counted c.connects c (λ n. connect_handler failed (record c { connects = n })) h
        (λ n. connect_handler-InOrder failed n c h p)
  step-InOrder (timer_ended failed) c h p =
      counted c.waits c (λ n. timer_handler failed (record c { waits = n })) h
        (λ n.
          timer_handler-InOrder failed (record c { waits = n })
            (record { all = h.all; one_write = h.one_write; dropped = h.dropped }))
  step-InOrder (read_ended failed) c h p =
      counted c.reads c (λ n. read_handler failed (record c { reads = n })) h
        (λ n.
          read_handler-InOrder failed (record c { reads = n })
            (record { all = h.all; one_write = h.one_write; dropped = h.dropped }))
  step-InOrder (write_ended failed) c h p =
      write_ended_at failed c.connected c.write_queue c.in_flight c h p

  next_run :
      (events : List (ChannelEvent M)) (o : Option Channel)
      → Runs InOrder o
      → (elim o as (λ _. Type 0) [ none ↦ Unit | some c1 ↦ AllPrompt events c1 ])
      → ((c1 : Channel)
          → InOrder c1
          → AllPrompt events c1
          → Runs InOrder (channel_run serialize events c1))
      → Runs InOrder (elim o [ none ↦ none | some c1 ↦ channel_run serialize events c1 ])
  next_run events none h p next = h
  next_run events (some c1) h p next = next c1 h p

  channel_run-InOrder :
      (events : List (ChannelEvent M)) (c : Channel)
      → InOrder c
      → AllPrompt events c
      → Runs InOrder (channel_run serialize events c)
  unfolding channel_run AllPrompt
  channel_run-InOrder [] c h p = h
  channel_run-InOrder (e ∷ events) c h p =
      next_run events (channel_step serialize e c) (step-InOrder e c h p.0) p.1
        (λ c1. channel_run-InOrder events c1)

  new_channel-InOrder : InOrder (do_resolve_and_connect new_channel)
  unfolding do_resolve_and_connect
  new_channel-InOrder = record { all = λ _. refl; one_write = λ _. refl; dropped = λ _. refl }

  -- Where the operations of a closed connection end, without success, before there is a new one, and a
  -- wait ends early only where the timer was set anew or the channel is stopped: whatever notices come, and however resolving, connecting, reading and writing end, the code takes no frame
  -- from an empty queue; on a connection the frames written and those that wait are those of the
  -- notices since it was made, in order, and the first that waits is being written; and without a
  -- connection none waits.
  pub channel_started-InOrder :
      (events : List (ChannelEvent M))
      → AllPrompt events (do_resolve_and_connect new_channel)
      → Runs InOrder (channel_started serialize events)
  unfolding channel_started
  channel_started-InOrder events =
      channel_run-InOrder events (do_resolve_and_connect new_channel) new_channel-InOrder

  -- When a read of a connection fails while a write is under way that has succeeded, the handler of the
  -- write takes a frame from the queue that `close` has emptied, which is undefined.
  pub channel_run-undefined :
      (f : List ℕ) (fs : List (List ℕ)) (n : ℕ) (events : List (ChannelEvent M)) (c : Channel)
      → c.connected ≡ true
      → c.in_flight ≡ f ∷ fs
      → c.reads ≡ suc n
      → channel_run serialize (read_ended true ∷ write_ended false ∷ events) c ≡ none
  unfolding channel_run channel_step read_handler close schedule_reconnect write_handler
  channel_run-undefined f fs n events c live flight reading = ground arith
