-- ===== src/Chat/Presence/Refine.antt =====
-- src/chat/channel/ChannelManager.cpp against what src/chat/channel/ChannelManager.h promises.
use project_sos_backend.Chat.State.{Chat, Config, has_member}
use project_sos_backend.Chat.Auth.{handle_auth}
use project_sos_backend.Chat.Proto.{ChatAuth, auth_result}
use project_sos_backend.Chat.Machine.{run, new_chat}
use project_sos_backend.Chat.Members.{lists, Holds, send-SameMaps}
use project_sos_backend.Chat.Members.Steps.{handle_chat_send-SameMaps}
use project_sos_backend.Chat.Safety.{run-new_chat-Holds}
use project_sos_backend.Chat.Presence.{
  Presence, Place, is_lobby, is_session, Call, auth, chat_send, disconnect, session_created,
  session_ended, spec, presence, call,
}
use project_sos_backend.Chat.Presence.Moves.{
  Shows, Shows-SameMaps, handle_auth-Shows, handle_disconnect-Shows, handle_session_created-Shows,
  handle_session_ended-Shows,
}
use project_sos_backend.Base.{
  ℕ, ◌≡◌, ap, fun_ext, String, Bool, true, false, none, ◌||◌, [], ◌==◌, Option-cases, inl, inr,
  if_cases, arith,
}

module _ {S : Type 0} where
  pub Shows-presence : (v : Presence) (w : Chat S) → Shows v w → presence w ≡ v
  Shows-presence v w h =
      ap (λ (m : (String → Place) × (String → Bool)). record { place = m.0; opened = m.1 })
        (λ i. (fun_ext h.place i, fun_ext h.opened i))

  -- Where the invariant of the channels holds, they list the players by their places.
  pub lists-presence :
      (w : Chat S) (q s : String)
      → Holds w
      → (has_member q w.lobby_members ≡ is_lobby ((presence w).place q))
        × (lists (w.session_channels s) q ≡ is_session s ((presence w).place q))
  lists-presence w q s h = elim (Option-cases (w.players q)) [
    | inl gone ↦ (ground (arith, h.in_lobby q), ground (arith, h.in_session q s))
    | inr (state, known) ↦
        (ground (arith, h.in_lobby q), ground (arith, h.in_session q s, h.one q, h.unlisted q))
  ]

module _ {S : Type 0} (config : Config S) where
  handle_auth-refused :
      (request : ChatAuth) (a : ℕ) (w : Chat S)
      → (request.player_id == "" || request.player_name == "") ≡ true
      → Shows (presence w) (handle_auth config request a w)
  unfolding handle_auth
  handle_auth-refused request a w e =
      rw (e, handle_auth) (Shows-SameMaps (send-SameMaps a (auth_result false) w))

  handle_auth-spec :
      (request : ChatAuth) (a : ℕ) (w : Chat S)
      → Shows (spec (auth request a) (presence w)) (handle_auth config request a w)
  unfolding spec
  handle_auth-spec request a w =
      let P : Presence → Type 0 = λ v. Shows v (handle_auth config request a w) in
      if_cases P (request.player_id == "" || request.player_name == "") _ _
        (λ e. handle_auth-refused request a w e)
        λ e. handle_auth-Shows config request a w (ground arith) (ground arith)

  pub call-Shows : (c : Call) (w : Chat S) → Holds w → Shows (spec c (presence w)) (call config c w)
  unfolding call spec
  call-Shows (auth request a) w h = handle_auth-spec request a w
  call-Shows (chat_send p request now) w h =
      Shows-SameMaps (handle_chat_send-SameMaps config p request now w)
  call-Shows (disconnect p) w h = handle_disconnect-Shows p w
  call-Shows (session_created s players) w h = handle_session_created-Shows config s players w
  call-Shows (session_ended s) w h = handle_session_ended-Shows config s w h

  pub new_chat-Holds : (s : S) → Holds (new_chat s)
  unfolding run
  new_chat-Holds s = run-new_chat-Holds config none [] s
