-- ===== src/Network/Talk/Tests.antt =====
-- The chat server on its connections, at concrete inputs.
use project_sos_backend.Common.Fixtures.{differs}
use project_sos_backend.Chat.Proto.{ChatRequest, auth, heartbeat, ChatEnvelope}
use project_sos_backend.Chat.State.{Chat, has_member, set_client}
use project_sos_backend.Chat.Machine.{is_closed, process_message, new_chat}
use project_sos_backend.Chat.Members.{lists}
use project_sos_backend.Chat.Tests.{config}
use project_sos_backend.Codec.{drain, try_decode, prefix_length, feed}
use project_sos_backend.Heartbeat as Heartbeat
use project_sos_backend.Network.{
  Net, NetEvent, connected, read_ended, write_ended, ticked, timer_ended, set_line, give_all,
  settle, read_bytes, net_step, net_run, no_lines,
}
use project_sos_backend.Network.Talk.{Beside, talk_host, talk_run}
use project_sos_backend.Network.Talk.Silent.{talk_run-silent}
use project_sos_backend.Base.{
  ℕ, ◌≡◌, refl, true, false, Option, none, some, List, [], ◌∷◌, eqb, dec_str, if◌then◌else◌, arith,
}

-- One byte tells a request: Ann enters the lobby, or a heartbeat.
abbrev parse_request : List ℕ → Option ChatRequest
parse_request (b ∷ []) =
    if eqb b 1
    then some (auth (record { player_id = "ann"; session_id = ""; player_name = "Ann" }))
    else some heartbeat
parse_request _ = none

abbrev envelope_bytes : ChatEnvelope → List ℕ
envelope_bytes e = 9 ∷ []

abbrev run_talk : List (NetEvent Unit (Beside Unit)) → Option (Net (Chat Unit) ChatEnvelope)
run_talk events = talk_run config none envelope_bytes parse_request 60 events tt

abbrev after : List (NetEvent Unit (Beside Unit)) → Net (Chat Unit) ChatEnvelope
after events = elim (run_talk events) [
  | none ↦ record { host = new_chat tt; lines = no_lines }
  | some n ↦ n
]

abbrev enters : List (NetEvent Unit (Beside Unit))
enters =
    connected 1 tt 0 ∷ read_ended 1 (some (1 ∷ 0 ∷ 0 ∷ 0 ∷ 1 ∷ [])) 5 ∷ write_ended 1 false ∷ []

enters_runs : run_talk enters ≡ some (after enters)
unfolding net_run net_step settle talk_host read_bytes give_all set_line drain try_decode feed
    prefix_length process_message dec_str
enters_runs = refl

talk_run-silent_example :
    (n' : Net (Chat Unit) ChatEnvelope) × (net_run
        (talk_host config none)
        envelope_bytes
        parse_request
        60
        (ticked 1 70 ∷ timer_ended 1 ∷ [])
        (after enters)
      ≡ some n')
    × (is_closed n'.host 1 ≡ true)
    × (n'.host.players "ann" ≡ none)
    × (has_member "ann" n'.host.lobby_members ≡ false)
    × (lists (n'.host.session_channels "g1") "ann" ≡ false)
unfolding net_run net_step settle talk_host read_bytes give_all set_line drain try_decode feed
    prefix_length process_message dec_str set_client Heartbeat.read_handler
talk_run-silent_example =
    talk_run-silent config none envelope_bytes parse_request 60 enters tt (after enters) 1 70
      (record { player_id = "ann"; authenticated = true; closed = false }) "g1" (omega arith)
      enters_runs refl refl (differs "ann" "" refl) (omega arith)

-- A request that was read before the session was closed, and is handled afterwards.
abbrev enters_late : List (NetEvent Unit (Beside Unit))
enters_late =
    connected 1 tt 0
    ∷ ticked 1 60
    ∷ timer_ended 1
    ∷ read_ended 1 (some (1 ∷ 0 ∷ 0 ∷ 0 ∷ 1 ∷ [])) 60
    ∷ []

player_is_left :
    (has_member "ann" (after enters_late).host.lobby_members ≡ true)
    × (is_closed (after enters_late).host 1 ≡ true)
unfolding net_run net_step settle talk_host read_bytes give_all set_line drain try_decode feed
    prefix_length process_message dec_str set_client Heartbeat.tick Heartbeat.start has_member
player_is_left = (refl, refl)
