-- ===== src/Handover/Tests.antt =====
-- A game of Ann and Ben, through both servers.
use project_sos_backend.Common.Fixtures.{unary, differs}
use project_sos_backend.Room.Players.{any_player, all_ready, erase_player}
use project_sos_backend.Room.{has_player, is_host, can_start}
use project_sos_backend.RoomManager.Proto.{ChatNotice}
use project_sos_backend.RoomManager.Game.{has_active_game, handle_start_game, handle_slot_released}
use project_sos_backend.RoomManager.Tests.{
  config as room_config, server_with, ready_room, playing_room,
}
use project_sos_backend.Codec.{encode, header}
use project_sos_backend.ChatServerChannel.{
  Channel, new_channel, do_resolve_and_connect, do_connect, do_read, do_write, send,
  resolve_handler, connect_handler, write_handler, ChannelEvent, notified, resolved,
  connection_made, write_ended, notify, channel_step, channel_run, channel_started,
}
use project_sos_backend.ChatServerChannel.Order.{AllPrompt}
use project_sos_backend.Chat.Proto.{Notice, session_created, session_ended}
use project_sos_backend.Chat.State.{Chat, has_member, set_client}
use project_sos_backend.Chat.Machine.{accepted, accept, noticed, run, step, new_chat}
use project_sos_backend.Chat.Members.{lists, says_session}
use project_sos_backend.Chat.Safety.{run-new_chat-Holds}
use project_sos_backend.Chat.Games.{logins}
use project_sos_backend.Chat.Internal.{internal_run, new_internal_session}
use project_sos_backend.Chat.Tests.{config as chat_config, one_game, during_game}
use project_sos_backend.Handover.{
  notice_events, room_logins, handle_start_game-gathers, handle_slot_released-scatters,
}
use project_sos_backend.Handover.Connection.{channel_started-delivered}
use project_sos_backend.Base.{
  ℕ, ◌≡◌, refl, String, true, false, ◌||◌, Option, none, some, List, [], ◌∷◌, ◌++◌, lookup, dec_str,
  eqb, ◌==◌, if◌then◌else◌, arith,
}

abbrev two_clients : Chat Unit
two_clients = run chat_config none (accepted 1 ∷ accepted 2 ∷ []) (new_chat tt)

abbrev session_of : String → ℕ
session_of id = if id == "ann" then 1 else 2

handle_start_game-gathers_example :
    (notices : List ChatNotice) × ((handle_start_game room_config "ann"
        (server_with ready_room)).io.notices
      ≡ notices)
    × (let v' =
          run chat_config none
            (notice_events notices ++ logins "u" (room_logins session_of 10 ready_room.players))
            two_clients in
        (lists (v'.session_channels "u") "ben" ≡ has_player ready_room "ben")
        × (says_session (v'.players "ben") "u"
            ≡ (has_player ready_room "ben" || says_session (two_clients.players "ben") "u")))
unfolding unary has_active_game lookup dec_str is_host can_start all_ready run step accept
    set_client
handle_start_game-gathers_example =
    handle_start_game-gathers room_config chat_config none "ann" "r1" "ben" ready_room
      (server_with ready_room) session_of 10 two_clients refl refl refl refl refl refl
      (differs "u" "" refl)
      (
        differs "ann" "" refl,
        differs "ann" "" refl,
        refl,
        (differs "ben" "" refl, differs "ben" "" refl, refl, tt),
      )

handle_slot_released-scatters_example :
    (notices : List ChatNotice) × ((handle_slot_released room_config "ann" "g1"
        (server_with playing_room)).io.notices
      ≡ notices)
    × (let v' = run chat_config none (notice_events notices) during_game in
        (v'.session_channels "g1" ≡ none)
        × (has_member "ann" v'.lobby_members ≡ (
            lists (during_game.session_channels "g1") "ann"
            || has_member "ann" during_game.lobby_members)))
unfolding lookup dec_str has_player any_player erase_player
handle_slot_released-scatters_example =
    handle_slot_released-scatters room_config chat_config none "ann" "r1" "ann" playing_room
      (server_with playing_room) during_game refl refl refl refl (differs "g1" "" refl) refl
      (run-new_chat-Holds chat_config none one_game tt)

-- Two notices as one byte each.
abbrev notice_bytes : Notice → List ℕ
notice_bytes (session_created s players) = 2 ∷ []
notice_bytes (session_ended s) = 1 ∷ []
notice_bytes Notice.other = []

abbrev parse_notice : List ℕ → Option Notice
parse_notice (b ∷ []) =
    if eqb b 1
    then some (session_ended "g1")
    else if eqb b 2
    then some (session_created "g1" [])
    else none
parse_notice _ = none

abbrev two_notices : List (ChannelEvent Notice)
two_notices =
    resolved false
    ∷ connection_made false
    ∷ notified (session_created "g1" [])
    ∷ notified (session_ended "g1")
    ∷ write_ended false
    ∷ []

abbrev one_written : Channel
one_written = record {
  connected = true;
  stopped = false;
  write_queue = (1 ∷ 0 ∷ 0 ∷ 0 ∷ 1 ∷ []) ∷ [];
  resolves = 0;
  connects = 0;
  waits = 0;
  reads = 1;
  in_flight = (1 ∷ 0 ∷ 0 ∷ 0 ∷ 1 ∷ []) ∷ [];
  accepted = (1 ∷ 0 ∷ 0 ∷ 0 ∷ 2 ∷ []) ∷ (1 ∷ 0 ∷ 0 ∷ 0 ∷ 1 ∷ []) ∷ [];
  written = (1 ∷ 0 ∷ 0 ∷ 0 ∷ 2 ∷ []) ∷ [];
}

two_notices_prompt : AllPrompt notice_bytes two_notices (do_resolve_and_connect new_channel)
unfolding AllPrompt channel_step resolve_handler connect_handler do_resolve_and_connect do_connect
    do_read notify send do_write encode header write_handler
two_notices_prompt = (tt, (refl, (tt, (tt, (refl, tt)))))

two_notices_started : channel_started notice_bytes two_notices ≡ some one_written
unfolding channel_started channel_run channel_step resolve_handler connect_handler
    do_resolve_and_connect do_connect do_read notify send do_write encode header write_handler
two_notices_started = refl

channel_started-delivered_example :
    internal_run chat_config parse_notice
      (some (1 ∷ 0 ∷ []) ∷ some (0 ∷ 0 ∷ 2 ∷ []) ∷ [])
      new_internal_session
      two_clients
    ≡ (
      new_internal_session,
      run chat_config none (noticed (session_created "g1" []) ∷ []) two_clients,
    )
unfolding encode header
channel_started-delivered_example =
    channel_started-delivered chat_config none parse_notice notice_bytes two_notices one_written
      (session_created "g1" [] ∷ session_ended "g1" ∷ []) ((1 ∷ 0 ∷ []) ∷ (0 ∷ 0 ∷ 2 ∷ []) ∷ [])
      two_clients two_notices_prompt two_notices_started refl refl
      ((omega arith, refl), ((omega arith, refl), tt)) refl
