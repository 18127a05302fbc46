-- ===== src/Network/Tests.antt =====
-- The room server on its connections, at concrete inputs.
use project_sos_backend.Common.Fixtures.{failing_redis, fixed_store, unary, differs}
use project_sos_backend.Room.{new_room, to_room_info}
use project_sos_backend.RoomManager.Proto.{
  Request, Envelope, create_room, heartbeat, create_room_response,
}
use project_sos_backend.RoomManager.State.{Server, erase_address, has_address}
use project_sos_backend.RoomManager.Connected.{is_connected, connected_in, Connected}
use project_sos_backend.Sessions.Client.{is_closed, process_message}
use project_sos_backend.Sessions.Machine.{new_server}
use project_sos_backend.Sessions.Tests.{config}
use project_sos_backend.Codec.{encode, header, receive_all, drain, try_decode, prefix_length, feed}
use project_sos_backend.Heartbeat as Heartbeat
use project_sos_backend.Network.{
  Net, NetEvent, connected, read_ended, write_ended, ticked, timer_ended, happened, set_line,
  give_all, settle, read_bytes, net_step, net_run, no_lines,
}
use project_sos_backend.Network.Kept.{AllReads}
use project_sos_backend.Network.Lines.{AllFaithful, net_run-Faithful_new, net_run-delivered}
use project_sos_backend.Network.Room.{Inside, released, room_host, room_run, room_run-Connected}
use project_sos_backend.Network.Room.Silent.{room_run-silent}
use project_sos_backend.Base.{
  ℕ, ◌≡◌, refl, String, true, false, Option, none, some, List, [], ◌∷◌, eqb, dec_str, if◌then◌else◌,
  arith,
}

-- One byte tells a request: Ann opens a room, or a heartbeat.
abbrev parse_request : List ℕ → Option Request
parse_request (b ∷ []) =
    if eqb b 1
    then some (
        create_room
          (record { player_id = "ann"; player_name = "Ann"; room_name = "duel"; max_players = 2 }))
    else some heartbeat
parse_request _ = none

abbrev envelope_bytes : Envelope → List ℕ
envelope_bytes e = 7 ∷ []

abbrev run_room : List (NetEvent String (Inside Unit)) → Option (Net (Server Unit) Envelope)
run_room events =
    room_run config (fixed_store failing_redis) none envelope_bytes parse_request 60 events tt

abbrev start : Net (Server Unit) Envelope
start = record { host = new_server tt; lines = no_lines }

abbrev after : List (NetEvent String (Inside Unit)) → Net (Server Unit) Envelope
after events = elim (run_room events) [ none ↦ start | some n ↦ n ]

-- Ann connects and opens a room; her request comes in two reads, and the answer is written.
abbrev opens_room : List (NetEvent String (Inside Unit))
opens_room =
    connected 1 "10.0.0.1" 0
    ∷ read_ended 1 (some (1 ∷ 0 ∷ [])) 5
    ∷ read_ended 1 (some (0 ∷ 0 ∷ 1 ∷ [])) 6
    ∷ write_ended 1 false
    ∷ []

opens_room_lem :
    (run_room opens_room ≡ some (after opens_room))
    × ((after opens_room).host.player_to_room "ann" ≡ some "u")
unfolding net_run net_step settle room_host read_bytes give_all set_line drain try_decode feed
    prefix_length process_message dec_str erase_address has_address unary
opens_room_lem = (refl, refl)

opens_room_prompt :
    AllReads
      (room_host config (fixed_store failing_redis) none)
      envelope_bytes
      parse_request
      60
      (λ w a. is_closed w a ≡ false)
      opens_room
      start
unfolding net_run net_step settle room_host read_bytes give_all set_line drain try_decode feed
    prefix_length process_message dec_str erase_address has_address unary AllReads
opens_room_prompt = (tt, ((λ _. refl), ((λ _. refl), (tt, tt))))

room_run-Connected_example : Connected (after opens_room).host
room_run-Connected_example =
    room_run-Connected config (fixed_store failing_redis) none envelope_bytes parse_request 60
      opens_room tt (after opens_room) opens_room_lem.0 opens_room_prompt

room_run-silent_example :
    (n' : Net (Server Unit) Envelope) × (net_run
        (room_host config (fixed_store failing_redis) none)
        envelope_bytes
        parse_request
        60
        (ticked 1 70 ∷ timer_ended 1 ∷ [])
        (after opens_room)
      ≡ some n')
    × (is_closed n'.host 1 ≡ true)
    × (n'.host.player_to_room "ann" ≡ none)
    × (n'.host.sessions "ann" ≡ none)
unfolding net_run net_step settle room_host read_bytes give_all set_line drain try_decode feed
    prefix_length process_message dec_str erase_address has_address unary Heartbeat.read_handler
room_run-silent_example =
    room_run-silent config (fixed_store failing_redis) none envelope_bytes parse_request 60
      opens_room tt (after opens_room) 1 70
      (record { player_id = "ann"; remote_ip = "10.0.0.1"; closed = false }) (omega arith)
      opens_room_lem.0 refl refl (differs "ann" "" refl) (omega arith)

abbrev answer : Envelope
answer = create_room_response true (to_room_info (new_room "u" "duel" "ann" "Ann" 2))

abbrev parse_envelope : List ℕ → Option Envelope
parse_envelope _ = some answer

net_run-Faithful_new_example : AllFaithful envelope_bytes (after opens_room).lines
unfolding net_run net_step settle room_host read_bytes give_all set_line drain try_decode feed
    prefix_length process_message dec_str erase_address has_address unary
net_run-Faithful_new_example =
    net_run-Faithful_new (room_host config (fixed_store failing_redis) none) envelope_bytes
      parse_request 60 opens_room (new_server tt)

net_run-delivered_example :
    receive_all parse_envelope [] ((1 ∷ 0 ∷ []) ∷ (0 ∷ 0 ∷ 7 ∷ []) ∷ []) ≡ (answer ∷ [], [])
unfolding net_run net_step settle room_host read_bytes give_all set_line drain try_decode feed
    prefix_length process_message dec_str erase_address has_address unary encode header
net_run-delivered_example =
    net_run-delivered (room_host config (fixed_store failing_redis) none) envelope_bytes
      parse_request 60 parse_envelope opens_room (new_server tt) (after opens_room) 1
      ((1 ∷ 0 ∷ []) ∷ (0 ∷ 0 ∷ 7 ∷ []) ∷ []) opens_room_lem.0 ((omega arith, refl), tt) refl

-- Ann's session has gone silent and is closed, and a request of hers that was read before is handled
-- afterwards: a room is left whose player is not connected, and the end of her session object leaves
-- it there.
abbrev opens_room_late : List (NetEvent String (Inside Unit))
opens_room_late =
    connected 1 "10.0.0.1" 0
    ∷ ticked 1 60
    ∷ timer_ended 1
    ∷ read_ended 1 (some (1 ∷ 0 ∷ 0 ∷ 0 ∷ 1 ∷ [])) 60
    ∷ happened (released 1)
    ∷ []

room_is_left :
    ((after opens_room_late).host.player_to_room "ann" ≡ some "u")
    × (is_connected (after opens_room_late).host "ann" ≡ false)
unfolding net_run net_step settle room_host read_bytes give_all set_line drain try_decode feed
    prefix_length process_message dec_str erase_address has_address unary Heartbeat.tick
    Heartbeat.start connected_in
room_is_left = (refl, refl)
