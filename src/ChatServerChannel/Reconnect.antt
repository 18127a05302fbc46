-- ===== src/ChatServerChannel/Reconnect.antt =====
-- The connection to the chat server is made again: src/room/internal/ChatServerChannel.cpp never runs
-- out of operations before it is stopped.
use mathlib.Core.Path.{subst}
use project_sos_backend.ChatServerChannel.{
  Channel, new_channel, do_resolve_and_connect, schedule_reconnect, send, close, stop,
  resolve_handler, connect_handler, timer_handler, read_handler, write_handler, ChannelEvent,
  notified, stopped_by_signal, resolved, connection_made, timer_ended, read_ended, write_ended,
  notify, channel_step, channel_run, channel_started,
}
use project_sos_backend.ChatServerChannel.Order.{IsPrompt, AllPrompt}
use project_sos_backend.Base.{
  ℕ, zero, suc, ◌+◌, ◌≤◌, ◌≡◌, refl, true, false, Option, none, some, List, [], ◌∷◌, ◌++◌, map,
  if_cases, arith, if◌then◌else◌,
}

-- A connection is being read, and without one a further attempt is under way.
pub record IsAlive (c : Channel) : Type 0 where
  pub reading : c.connected ≡ true → 1 ≤ c.reads
  pub trying : c.connected ≡ false → c.stopped ≡ false → 1 ≤ c.resolves + c.connects + c.waits

abbrev AliveIf : Option Channel → Type 0
AliveIf none = Unit
AliveIf (some c) = IsAlive c

module _ {M : Type 0} (serialize : M → List ℕ) where
  notify-IsAlive : (m : M) (c : Channel) → IsAlive c → IsAlive (notify serialize m c)
  unfolding notify send
  notify-IsAlive m c h = record {
    reading = ground (arith, h.reading);
    trying = ground (arith, h.trying);
  }

  step-IsAlive :
      (e : ChannelEvent M) (c : Channel)
      → IsAlive c
      → IsPrompt e c
      → AliveIf (channel_step serialize e c)
  unfolding channel_step stop close resolve_handler connect_handler timer_handler read_handler
      write_handler
  step-IsAlive (notified m) c h p = notify-IsAlive m c h
  step-IsAlive stopped_by_signal c h p = ground (arith, h.reading, h.trying)
  step-IsAlive (resolved failed) c h p = ground (arith, h.reading, h.trying)
  step-IsAlive (connection_made failed) c h p = ground (arith, h.reading, h.trying)
  step-IsAlive (timer_ended false) c h p = ground (arith, h.reading, h.trying)
  step-IsAlive (timer_ended true) c h p = ground (arith, h.reading, h.trying)
  step-IsAlive (read_ended failed) c h p = ground (arith, h.reading, h.trying)
  step-IsAlive (write_ended failed) c h p = ground (arith, h.reading, h.trying)

  next_alive :
      (events : List (ChannelEvent M)) (o : Option Channel)
      → AliveIf o
      → (elim o as (λ _. Type 0) [ none ↦ Unit | some c1 ↦ AllPrompt serialize events c1 ])
      → ((c1 : Channel)
          → IsAlive c1
          → AllPrompt serialize events c1
          → AliveIf (channel_run serialize events c1))
      → AliveIf (elim o [ none ↦ none | some c1 ↦ channel_run serialize events c1 ])
  next_alive events none h p next = tt
  next_alive events (some c1) h p next = next c1 h p

  channel_run-IsAlive :
      (events : List (ChannelEvent M)) (c : Channel)
      → IsAlive c
      → AllPrompt serialize events c
      → AliveIf (channel_run serialize events c)
  unfolding channel_run AllPrompt
  channel_run-IsAlive [] c h p = h
  channel_run-IsAlive (e ∷ events) c h p =
      next_alive events (channel_step serialize e c) (step-IsAlive e c h p.0) p.1
        (λ c1. channel_run-IsAlive events c1)

  -- What the environment has to do so that there is a connection: the writes of the last one fail, and
  -- the wait, the resolver and the connection succeed, as far as they are still to come.
  unfoldable pub attempt : Channel → List (ChannelEvent M)
  attempt c = elim c.connects [
    | suc _ ↦ connection_made false ∷ []
    | zero ↦ elim c.resolves [
      | suc _ ↦ resolved false ∷ connection_made false ∷ []
      | zero ↦ timer_ended false ∷ resolved false ∷ connection_made false ∷ []
    ]
  ]

  unfoldable pub recovery : Channel → List (ChannelEvent M)
  unfolding attempt
  recovery c =
      if c.connected then [] else map (λ (_ : List ℕ). write_ended true) c.in_flight ++ attempt c

  -- The events are prompt, and lead to a connection.
  pub record Connects (events : List (ChannelEvent M)) (c : Channel) : Type 0 where
    pub prompt : AllPrompt serialize events c
    pub last : Channel
    pub runs : channel_run serialize events c ≡ some last
    pub connected : last.connected ≡ true

  attempt_at :
      (connects resolves waits : ℕ) (c0 : Channel)
      → let c : Channel = record c0 {
        connected = false;
        stopped = false;
        in_flight = [];
        connects = connects;
        resolves = resolves;
        waits = waits;
      } in
        1 ≤ resolves + connects + waits → Connects (attempt c) c
  unfolding attempt channel_run AllPrompt channel_step connect_handler resolve_handler timer_handler
  attempt_at (suc n) resolves waits c0 h = record {
    prompt = (refl, tt);
    last = _;
    runs = refl;
    connected = refl;
  }
  attempt_at zero (suc n) waits c0 h = record {
    prompt = (tt, (refl, tt));
    last = _;
    runs = refl;
    connected = refl;
  }
  attempt_at zero zero (suc n) c0 h = record {
    prompt = (tt, (tt, (refl, tt)));
    last = _;
    runs = refl;
    connected = refl;
  }
  attempt_at zero zero zero c0 h = absurd (omega arith)

  attempt-Connects :
      (c : Channel)
      → IsAlive c
      → c.stopped ≡ false
      → c.connected ≡ false
      → c.in_flight ≡ []
      → Connects (attempt c) c
  attempt-Connects c h live idle flight =
      let now : record c { connected = false; stopped = false; in_flight = [] } ≡ c =
        ground arith in
      subst (λ (d : Channel). Connects (attempt d) d) now
        (attempt_at c.connects c.resolves c.waits c (h.trying idle live))

  Connects-cons :
      (e : ChannelEvent M) (events : List (ChannelEvent M)) (c c1 : Channel)
      → channel_step serialize e c ≡ some c1
      → IsPrompt e c
      → Connects events c1
      → Connects (e ∷ events) c
  unfolding channel_run AllPrompt
  Connects-cons e events c c1 step p k = record {
    prompt = (p, rw (step, AllPrompt) k.prompt);
    last = k.last;
    runs = rw (step, channel_run) k.runs;
    connected = k.connected;
  }

  flush-Connects :
      (flight : List (List ℕ)) (events : List (ChannelEvent M)) (c : Channel)
      → c.connected ≡ false
      → c.stopped ≡ false
      → ((n : ℕ) → c.waits ≤ n → Connects events (record c { in_flight = []; waits = n }))
      → Connects
          (map (λ (_ : List ℕ). write_ended true) flight ++ events)
          (record c { in_flight = flight })
  unfolding channel_step write_handler close schedule_reconnect
  flush-Connects [] events c idle live k = k c.waits (omega arith)
  flush-Connects (f ∷ flight) events c idle live k =
      let c1 : Channel = record c { waits = suc c.waits } in
      Connects-cons (write_ended true) (map (λ (_ : List ℕ). write_ended true) flight ++ events)
        (record c { in_flight = f ∷ flight }) (record c1 { in_flight = flight }) (ground arith) tt
        (flush-Connects flight events c1 idle live (λ n l. k n (omega arith)))

  recovery-Connects : (c : Channel) → IsAlive c → c.stopped ≡ false → Connects (recovery c) c
  unfolding recovery channel_run AllPrompt attempt
  recovery-Connects c h live =
      if_cases (λ events. Connects events c) c.connected _ _
        (λ up. record { prompt = tt; last = c; runs = refl; connected = up })
        λ down. flush-Connects c.in_flight (attempt c) c down live (λ n l.
          attempt-Connects (record c { in_flight = []; waits = n })
            (record { reading = λ e. cc; trying = λ _ _. omega (arith, h.trying down live) }) live
            down refl)

  started-IsAlive : IsAlive (do_resolve_and_connect new_channel)
  unfolding do_resolve_and_connect
  started-IsAlive = record { reading = λ e. cc; trying = λ _ _. omega arith }

  -- Where the operations of a closed connection end, without success, before there is a new one, and a
  -- wait ends early only where the timer was set anew or the channel is stopped: from every state that
  -- a started channel reaches and in which it is not stopped, there is a connection again as soon as
  -- the writes of the last one have failed, and after that the wait, the resolver and the connection
  -- have succeeded, each once at most.
  pub recovery-Connects_started :
      (events : List (ChannelEvent M)) (c : Channel)
      → AllPrompt serialize events (do_resolve_and_connect new_channel)
      → channel_started serialize events ≡ some c
      → c.stopped ≡ false
      → Connects (recovery c) c
  unfolding channel_started
  recovery-Connects_started events c prompt runs live =
      recovery-Connects c
        (subst AliveIf runs
          (channel_run-IsAlive events (do_resolve_and_connect new_channel) started-IsAlive prompt))
        live
