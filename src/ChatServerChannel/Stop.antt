-- ===== src/ChatServerChannel/Stop.antt =====
-- What `stop` of src/room/internal/ChatServerChannel.cpp stops: the operations under way run out, unless
-- a connection is just being made.
use project_sos_backend.ChatServerChannel.{
  Channel, do_connect, schedule_reconnect, do_read, close, stop, resolve_handler, connect_handler,
  timer_handler, read_handler, write_handler, ChannelEvent, notified, stopped_by_signal, resolved,
  connection_made, timer_ended, read_ended, write_ended, channel_step, channel_run,
}
use project_sos_backend.ChatServerChannel.Order.{IsPrompt, Runs}
use project_sos_backend.Base.{
  ℕ, suc, ◌+◌, ◌≤◌, ◌≡◌, true, false, Option, none, some, List, [], ◌∷◌, length, arith,
}

-- The handlers that are still to run.
unfoldable pub pending : Channel → ℕ
pending c = c.resolves + c.connects + c.waits + c.reads + length c.in_flight

-- The event is the end of an operation that is under way.
abbrev pub IsHandler : {M : Type 0} → ChannelEvent M → Channel → Type 0
IsHandler (notified m) c = ⊥
IsHandler stopped_by_signal c = ⊥
IsHandler (resolved failed) c = 1 ≤ c.resolves
IsHandler (connection_made failed) c = 1 ≤ c.connects
IsHandler (timer_ended failed) c = 1 ≤ c.waits
IsHandler (read_ended failed) c = 1 ≤ c.reads
IsHandler (write_ended failed) c = 1 ≤ length c.in_flight

-- Stopped, without a connection, and none is being made.
pub record IsHalting (c : Channel) : Type 0 where
  pub stopped : c.stopped ≡ true
  pub closed : c.connected ≡ false
  pub no_attempt : c.connects ≡ 0

module _ {M : Type 0} (serialize : M → List ℕ) where
  unfoldable pub AllHandlers : List (ChannelEvent M) → Channel → Type 0
  unfolding channel_step
  AllHandlers [] c = Unit
  AllHandlers (e ∷ events) c =
      IsHandler e c × IsPrompt e c × (elim (channel_step serialize e c) as (λ _. Type 0) [
        | none ↦ Unit
        | some c1 ↦ AllHandlers events c1
      ])

  -- One handler less, and halting as before.
  record Fewer (c c1 : Channel) : Type 0 where
    halting : IsHalting c1
    count : suc (pending c1) ≡ pending c

  step-Fewer :
      (e : ChannelEvent M) (c : Channel)
      → IsHalting c
      → IsHandler e c
      → IsPrompt e c
      → Runs (Fewer c) (channel_step serialize e c)
  unfolding channel_step close schedule_reconnect do_connect resolve_handler timer_handler
      read_handler write_handler pending
  step-Fewer (notified m) c h on p = absurd on
  step-Fewer stopped_by_signal c h on p = absurd on
  step-Fewer (resolved failed) c h on p = ground (arith, h.stopped, h.closed, h.no_attempt)
  step-Fewer (connection_made failed) c h on p = ground (arith, h.no_attempt)
  step-Fewer (timer_ended failed) c h on p = ground (arith, h.stopped, h.closed, h.no_attempt)
  step-Fewer (read_ended failed) c h on p = ground (arith, h.stopped, h.closed, h.no_attempt)
  step-Fewer (write_ended failed) c h on p = ground (arith, h.stopped, h.closed, h.no_attempt)

  -- The handlers that have run and those that are to run are as many as before.
  pub record Halts (n total : ℕ) (c : Channel) : Type 0 where
    pub halting : IsHalting c
    pub count : n + pending c ≡ total

  next-Halts :
      (events : List (ChannelEvent M)) (c : Channel) (o : Option Channel)
      → Runs (Fewer c) o
      → (elim o as (λ _. Type 0) [ none ↦ Unit | some c1 ↦ AllHandlers events c1 ])
      → ((c1 : Channel)
          → IsHalting c1
          → AllHandlers events c1
          → Runs (Halts (length events) (pending c1)) (channel_run serialize events c1))
      → Runs
          (Halts (suc (length events)) (pending c))
          (elim o [ none ↦ none | some c1 ↦ channel_run serialize events c1 ])
  next-Halts events c none h p next = h
  next-Halts events c (some c1) h p next =
      Runs-suc (channel_run serialize events c1) (length events) (pending c1) (pending c) h.count
        (next c1 h.halting p)
    where
      Runs-suc :
          (o : Option Channel) (n k l : ℕ)
          → suc k ≡ l
          → Runs (Halts n k) o
          → Runs (Halts (suc n) l) o
      Runs-suc none n k l e r = r
      Runs-suc (some d) n k l e r = record { halting = r.halting; count = omega (arith, r.count) }

  channel_run-Halts :
      (events : List (ChannelEvent M)) (c : Channel)
      → IsHalting c
      → AllHandlers events c
      → Runs (Halts (length events) (pending c)) (channel_run serialize events c)
  unfolding channel_run AllHandlers
  channel_run-Halts [] c h p = record { halting = h; count = omega arith }
  channel_run-Halts (e ∷ events) c h p =
      next-Halts events c (channel_step serialize e c) (step-Fewer e c h p.0 p.1) p.2
        (λ c1. channel_run-Halts events c1)

  -- When a channel that is making no connection has been stopped, and from then on there are only the
  -- handlers of the operations under way, where those of the closed connection end without success:
  -- none of them starts another, so that those that have run and those that are left are as many as
  -- were pending, and there is never a connection again.
  pub channel_run-stop :
      (events : List (ChannelEvent M)) (c : Channel)
      → c.connects ≡ 0
      → AllHandlers events (stop c)
      → Runs (Halts (length events) (pending (stop c))) (channel_run serialize events (stop c))
  channel_run-stop events c idle p =
      channel_run-Halts events (stop c)
        (unfold stop close in
          record { stopped = ground arith; closed = ground arith; no_attempt = ground arith })
        p

  -- A channel that is stopped while a connection is being made is connected, and reads, once that
  -- succeeds: it is stopped, and yet goes on until the chat server ends the connection.
  pub channel_run-stopped_late :
      (n : ℕ) (c : Channel)
      → c.connected ≡ false
      → c.connects ≡ suc n
      → Runs
          (λ d. (d.stopped ≡ true) × (d.connected ≡ true) × (1 ≤ d.reads))
          (channel_run serialize (stopped_by_signal ∷ connection_made false ∷ []) c)
  unfolding channel_run channel_step stop close connect_handler do_read
  channel_run-stopped_late n c idle trying = ground arith
