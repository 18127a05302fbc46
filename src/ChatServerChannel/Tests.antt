-- ===== src/ChatServerChannel/Tests.antt =====
-- The channel to the chat server at concrete events.
use project_sos_backend.Codec.{encode, header}
use project_sos_backend.Codec.Tests.{own_bytes}
use project_sos_backend.ChatServerChannel.{
  Channel, new_channel, do_resolve_and_connect, do_connect, schedule_reconnect, do_read, do_write,
  send, close, stop, resolve_handler, connect_handler, read_handler, write_handler, ChannelEvent,
  notified, resolved, connection_made, timer_ended, read_ended, write_ended, notify, channel_step,
  channel_run, channel_started,
}
use project_sos_backend.ChatServerChannel.Order.{
  InOrder, Runs, AllPrompt, channel_started-InOrder, channel_run-undefined,
}
use project_sos_backend.ChatServerChannel.Reconnect.{
  recovery, attempt, Connects, recovery-Connects_started,
}
use project_sos_backend.ChatServerChannel.Stop.{Halts, AllHandlers, pending, channel_run-stop}
use project_sos_backend.Base.{ℕ, ◌≡◌, refl, true, false, none, some, List, [], ◌∷◌, arith}

-- The channel connects, and takes two notices, of which the first is written.
abbrev pub first_events : List (ChannelEvent (List ℕ))
first_events =
    resolved false
    ∷ connection_made false
    ∷ notified (7 ∷ [])
    ∷ notified (9 ∷ [])
    ∷ write_ended false
    ∷ []

abbrev pub first_state : Channel
first_state = record {
  connected = true;
  stopped = false;
  write_queue = (1 ∷ 0 ∷ 0 ∷ 0 ∷ 9 ∷ []) ∷ [];
  resolves = 0;
  connects = 0;
  waits = 0;
  reads = 1;
  in_flight = (1 ∷ 0 ∷ 0 ∷ 0 ∷ 9 ∷ []) ∷ [];
  accepted = (1 ∷ 0 ∷ 0 ∷ 0 ∷ 7 ∷ []) ∷ (1 ∷ 0 ∷ 0 ∷ 0 ∷ 9 ∷ []) ∷ [];
  written = (1 ∷ 0 ∷ 0 ∷ 0 ∷ 7 ∷ []) ∷ [];
}

pub first_prompt : AllPrompt own_bytes first_events (do_resolve_and_connect new_channel)
unfolding AllPrompt channel_step resolve_handler connect_handler do_resolve_and_connect do_connect
    do_read notify send do_write encode header write_handler
first_prompt = (tt, (refl, (tt, (tt, (refl, tt)))))

pub first_started : channel_started own_bytes first_events ≡ some first_state
unfolding channel_started channel_run channel_step resolve_handler connect_handler
    do_resolve_and_connect do_connect do_read notify send do_write encode header write_handler
first_started = refl

channel_started-InOrder_example : Runs InOrder (channel_started own_bytes first_events)
channel_started-InOrder_example = channel_started-InOrder own_bytes first_events first_prompt

channel_run-undefined_example :
    channel_run own_bytes (read_ended true ∷ write_ended false ∷ []) first_state ≡ none
channel_run-undefined_example =
    channel_run-undefined own_bytes (1 ∷ 0 ∷ 0 ∷ 0 ∷ 9 ∷ []) [] 0 [] first_state refl refl refl

-- The chat server ends the connection, so that the notice that waits is lost.
abbrev lost_events : List (ChannelEvent (List ℕ))
lost_events = resolved false ∷ connection_made false ∷ notified (7 ∷ []) ∷ read_ended true ∷ []

abbrev lost_state : Channel
lost_state = record {
  connected = false;
  stopped = false;
  write_queue = [];
  resolves = 0;
  connects = 0;
  waits = 1;
  reads = 0;
  in_flight = (1 ∷ 0 ∷ 0 ∷ 0 ∷ 7 ∷ []) ∷ [];
  accepted = (1 ∷ 0 ∷ 0 ∷ 0 ∷ 7 ∷ []) ∷ [];
  written = [];
}

lost_prompt : AllPrompt own_bytes lost_events (do_resolve_and_connect new_channel)
unfolding AllPrompt channel_step resolve_handler connect_handler do_resolve_and_connect do_connect
    do_read notify send do_write encode header read_handler close schedule_reconnect
lost_prompt = (tt, (refl, (tt, (tt, tt))))

lost_started : channel_started own_bytes lost_events ≡ some lost_state
unfolding channel_started channel_run channel_step resolve_handler connect_handler
    do_resolve_and_connect do_connect do_read notify send do_write encode header read_handler close
    schedule_reconnect
lost_started = refl

recovery-Connects_started_example :
    Connects own_bytes
      (write_ended true ∷ timer_ended false ∷ resolved false ∷ connection_made false ∷ [])
      lost_state
unfolding recovery attempt
recovery-Connects_started_example =
    recovery-Connects_started own_bytes lost_events lost_state lost_prompt lost_started refl

-- The write and the read of the connection end without success after the channel has been stopped.
abbrev last_events : List (ChannelEvent (List ℕ))
last_events = write_ended true ∷ read_ended true ∷ []

last_handlers : AllHandlers own_bytes last_events (stop first_state)
unfolding AllHandlers channel_step stop close write_handler read_handler schedule_reconnect
last_handlers = (omega arith, tt, (omega arith, tt, tt))

channel_run-stop_example :
    Runs
      (Halts own_bytes 2 (pending (stop first_state)))
      (channel_run own_bytes last_events (stop first_state))
channel_run-stop_example = channel_run-stop own_bytes last_events first_state refl last_handlers

abbrev connecting : Channel
connecting = record new_channel { connects = 1 }
