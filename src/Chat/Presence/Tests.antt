-- ===== src/Chat/Presence/Tests.antt =====
-- A run of the chat server, and where it leaves the players.
use project_sos_backend.Chat.Proto.{auth, session_created, session_ended}
use project_sos_backend.Chat.State.{has_member, set_client}
use project_sos_backend.Chat.Machine.{
  Event, accepted, received, noticed, step, accept, process_all, process_message, run, new_chat,
}
use project_sos_backend.Chat.Tests.{config}
use project_sos_backend.Chat.Members.{lists}
use project_sos_backend.Chat.Games.Entering.{is_open}
use project_sos_backend.Chat.Presence.{nobody, spec, spec_all, lobby, nowhere}
use project_sos_backend.Chat.Presence.Runs.{calls_at, calls_in, run-spec_all}
use project_sos_backend.Base.{◌≡◌, refl, true, false, none, List, [], ◌∷◌, dec_str}

-- A game is announced and Ann and Ben enter its channel; Ann asks again, for a game that is not
-- there, and the game ends.
abbrev events : List (Event Unit)
events =
    accepted 1
    ∷ accepted 2
    ∷ noticed (session_created "g1" (("ann", "Ann") ∷ ("ben", "Ben") ∷ []))
    ∷ received 1
        ((auth (record { player_id = "ann"; session_id = "g1"; player_name = "Ann" }), 10) ∷ [])
    ∷ received 2
        ((auth (record { player_id = "ben"; session_id = "g1"; player_name = "Ben" }), 11) ∷ [])
    ∷ received 1
        ((auth (record { player_id = "ann"; session_id = "g2"; player_name = "Ann" }), 12) ∷ [])
    ∷ noticed (session_ended "g1")
    ∷ []

places :
    let v = spec_all (calls_in config none events (new_chat tt)) nobody in
    (v.place "ben" ≡ lobby) × (v.place "ann" ≡ nowhere)
unfolding spec_all spec calls_in calls_at run step accept process_message process_all set_client
    dec_str
places = (refl, refl)

run-spec_all_example :
    let w = run config none events (new_chat tt) in
    (has_member "ben" w.lobby_members ≡ true)
    × (lists (w.session_channels "g1") "ben" ≡ false)
    × (is_open (w.session_channels "g1") ≡ false)
unfolding spec_all spec calls_in calls_at run step accept process_message process_all set_client
    dec_str
run-spec_all_example = run-spec_all config none events tt "ben" "g1"
