-- ===== src/ChatServerChannel.antt =====
-- src/room/internal/ChatServerChannel.cpp: the room server's connection to the chat server. What
-- `boost::asio` calls back is an event, and the operations that are under way are counted: a handler
-- runs once for each. `M` is `ChatEnvelope`.
pub mod Order
pub mod Reconnect
pub mod Stop
pub mod Tests
use project_sos_backend.Codec.{encode}
use project_sos_backend.WriteQueue.{is_empty}
use project_sos_backend.Base.{
  ℕ, zero, suc, Bool, true, false, not, ◌&&◌, ◌||◌, Option, none, some, List, [], ◌∷◌, ◌++◌,
  if◌then◌else◌,
}

pub record Channel : Type 0 where
  pub connected : Bool
  pub stopped : Bool
  pub write_queue : List (List ℕ)
  -- calls of `async_resolve`, `async_connect`, `async_wait` and `async_read_some` under way
  pub resolves : ℕ
  pub connects : ℕ
  pub waits : ℕ
  pub reads : ℕ
  -- the buffers of the writes under way, the oldest first
  pub in_flight : List (List ℕ)
  -- the frames that `send` was given and those that were written, since the last connection
  pub accepted : List (List ℕ)
  pub written : List (List ℕ)

abbrev pub new_channel : Channel
new_channel = record {
  connected = false;
  stopped = false;
  write_queue = [];
  resolves = 0;
  connects = 0;
  waits = 0;
  reads = 0;
  in_flight = [];
  accepted = [];
  written = [];
}

unfoldable pub do_resolve_and_connect : Channel → Channel
do_resolve_and_connect c = if c.stopped then c else record c { resolves = suc c.resolves }

unfoldable pub do_connect : Channel → Channel
do_connect c = if c.stopped then c else record c { connects = suc c.connects }

unfoldable pub schedule_reconnect : Channel → Channel
schedule_reconnect c = if c.stopped then c else record c { waits = suc c.waits }

unfoldable pub do_read : Channel → Channel
do_read c = record c { reads = suc c.reads }

unfoldable pub do_write : Channel → Channel
do_write c = elim c.write_queue [
  | [] ↦ c
  | front ∷ _ ↦ if c.connected then record c { in_flight = c.in_flight ++ front ∷ [] } else c
]

-- The private `send`, which the public ones call on a connected channel only.
unfoldable pub send : List ℕ → Channel → Channel
unfolding do_write
send frame c =
    let was_idle = is_empty c.write_queue in
    let c1 = record c {
      write_queue = c.write_queue ++ frame ∷ [];
      accepted = c.accepted ++ frame ∷ [];
    } in
    if was_idle then do_write c1 else c1

unfoldable pub close : Channel → Channel
close c = if c.connected then record c { connected = false; write_queue = [] } else c

unfoldable pub stop : Channel → Channel
unfolding close
stop c = close (record c { stopped = true })

-- The handlers. The first argument tells whether the operation has failed.
unfoldable pub resolve_handler : Bool → Channel → Channel
unfolding schedule_reconnect do_connect
resolve_handler failed c = if failed then schedule_reconnect c else do_connect c

unfoldable pub connect_handler : Bool → Channel → Channel
unfolding schedule_reconnect do_read
connect_handler failed c =
    if failed
    then schedule_reconnect c
    else do_read (record c { connected = true; accepted = []; written = [] })

-- The wait ends early where the timer was set anew or cancelled.
unfoldable pub timer_handler : Bool → Channel → Channel
unfolding do_resolve_and_connect
timer_handler failed c = if failed || c.stopped then c else do_resolve_and_connect c

unfoldable pub read_handler : Bool → Channel → Channel
unfolding close schedule_reconnect do_read
read_handler failed c = if failed then schedule_reconnect (close c) else do_read c

-- `none` is `pop_front` on an empty queue, which is undefined.
unfoldable pub write_handler : List ℕ → Bool → Channel → Option Channel
unfolding close schedule_reconnect do_write
write_handler frame failed c =
    if failed then some (schedule_reconnect (close c)) else elim c.write_queue [
      | [] ↦ none
      | _ ∷ queue ↦
          some (do_write (record c { write_queue = queue; written = c.written ++ frame ∷ [] }))
    ]

pub data ChannelEvent (M : Type 0) : Type 0 where
  -- `sendSessionCreated` or `sendSessionEnded`
  notified : M → ChannelEvent M
  stopped_by_signal : ChannelEvent M
  resolved connection_made timer_ended read_ended write_ended : Bool → ChannelEvent M

module _ {M : Type 0} (serialize : M → List ℕ) where
  -- A message is dropped, with a warning, while there is no connection.
  unfoldable pub notify : M → Channel → Channel
  unfolding send encode
  notify m c = if c.connected then send (encode serialize m) c else c

  -- With no operation under way there is no handler to run.
  unfoldable pub channel_step : ChannelEvent M → Channel → Option Channel
  unfolding notify stop resolve_handler connect_handler timer_handler read_handler write_handler
  channel_step (notified m) c = some (notify m c)
  channel_step stopped_by_signal c = some (stop c)
  channel_step (resolved failed) c = elim c.resolves [
    | zero ↦ some c
    | suc n ↦ some (resolve_handler failed (record c { resolves = n }))
  ]
  channel_step (connection_made failed) c = elim c.connects [
    | zero ↦ some c
    | suc n ↦ some (connect_handler failed (record c { connects = n }))
  ]
  channel_step (timer_ended failed) c = elim c.waits [
    | zero ↦ some c
    | suc n ↦ some (timer_handler failed (record c { waits = n }))
  ]
  channel_step (read_ended failed) c = elim c.reads [
    | zero ↦ some c
    | suc n ↦ some (read_handler failed (record c { reads = n }))
  ]
  channel_step (write_ended failed) c = elim c.in_flight [
    | [] ↦ some c
    | frame ∷ rest ↦ write_handler frame failed (record c { in_flight = rest })
  ]

  unfoldable pub channel_run : List (ChannelEvent M) → Channel → Option Channel
  channel_run [] c = some c
  channel_run (e ∷ events) c = elim (channel_step e c) [
    | none ↦ none
    | some c1 ↦ channel_run events c1
  ]

  -- `start`, then what happens.
  unfoldable pub channel_started : List (ChannelEvent M) → Option Channel
  unfolding channel_run do_resolve_and_connect
  channel_started events = channel_run events (do_resolve_and_connect new_channel)
