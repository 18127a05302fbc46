-- ===== src/Chat/Presence/Moves.antt =====
-- Where the handlers of src/chat/channel/ChannelManager.cpp leave the players.
use project_sos_backend.Chat.Proto.{ChatAuth, auth_result}
use project_sos_backend.Chat.State.{
  Chat, Config, PlayerState, SessionChannel, has_member, add_member, forget_player,
}
use project_sos_backend.Chat.Auth.{
  replace_connection, enter_lobby, enter_session, authenticate, handle_auth,
}
use project_sos_backend.Chat.Channels.{
  move_to_lobby, move_all, handle_disconnect, handle_session_created, handle_session_ended,
}
use project_sos_backend.Chat.Members.{
  Holds, SameMaps, send-SameMaps, has_member-add_member, players-forget_player, lists-forget_player,
}
use project_sos_backend.Chat.Members.Kept.{
  kick_session-SameMaps, register_player-SameMaps, replace_connection-gone, enter_session-SameMaps,
}
use project_sos_backend.Chat.Members.Steps.{move_all-channels}
use project_sos_backend.Chat.Games.Entering.{handle_auth-authenticate, open-forget_player}
use project_sos_backend.Chat.Presence.{
  lobby, session, Presence, presence, without, seated, announced, closed,
}
use project_sos_backend.Base.{
  ℕ, ◌≡◌, ◌≢◌, refl, ◌∙◌, String, true, false, Option, none, some, List, [], ◌∷◌, ◌==◌,
  if◌then◌else◌, Option-cases, inl, inr, option_cases, if_cases, arith,
}

module _ {S : Type 0} where
  -- The presence after a step, player by player and session by session.
  pub record Shows (v : Presence) (w : Chat S) : Type 0 where
    pub place : (q : String) → (presence w).place q ≡ v.place q
    pub opened : (s : String) → (presence w).opened s ≡ v.opened s

  pub Shows-SameMaps : {v w : Chat S} → SameMaps v w → Shows (presence v) w
  Shows-SameMaps s = record {
    place = λ q. rw (s.players, s.channels) refl;
    opened = λ t. rw s.channels refl;
  }

  forget_player-Shows :
      (p : String) (state : PlayerState) (w : Chat S)
      → Shows (without p (presence w)) (forget_player p state w)
  forget_player-Shows p state w = record {
    place = λ q. elim (Option-cases (w.players q)) [
      | inl gone ↦ ground (arith, players-forget_player p state w q)
      | inr (other, found) ↦ ground (
        arith,
        players-forget_player p state w q,
        lists-forget_player p state w q other.session_id,
      )
    ];
    opened = λ s. open-forget_player p s state w;
  }

  -- Who is not known is nowhere already.
  unknown-Shows : (p : String) (w : Chat S) → w.players p ≡ none → Shows (without p (presence w)) w
  unknown-Shows p w gone = record { place = λ q. ground arith; opened = λ s. refl }

  pub handle_disconnect-Shows :
      (p : String) (w : Chat S) → Shows (without p (presence w)) (handle_disconnect p w)
  unfolding handle_disconnect
  handle_disconnect-Shows p w =
      option_cases (Shows (without p (presence w))) (w.players p) _ _
        (λ gone. unknown-Shows p w gone) λ state found. forget_player-Shows p state w

  pub replace_connection-Shows :
      (p : String) (a : ℕ) (w : Chat S) → Shows (without p (presence w)) (replace_connection p a w)
  unfolding replace_connection
  replace_connection-Shows p a w =
      option_cases (Shows (without p (presence w))) (w.players p) _ _
        (λ gone. unknown-Shows p w gone)
        λ state found.
          let v = forget_player p state w in
          let same = Shows-SameMaps (kick_session-SameMaps state.session a v) in
          let h = forget_player-Shows p state w in
          record { place = λ q. same.place q ∙ h.place q; opened = λ s. same.opened s ∙ h.opened s }

  -- A place for one player, in a presence.
  enter_lobby-Shows :
      (request : ChatAuth) (a : ℕ) (w : Chat S)
      → Shows
          (record (presence w) {
            place = λ q. if q == request.player_id then lobby else (presence w).place q;
          })
          (enter_lobby request a w)
  unfolding enter_lobby
  enter_lobby-Shows request a w =
      let w1 : Chat S = record w { lobby_members = add_member request.player_id w.lobby_members } in
      let same = register_player-SameMaps request true a w1 in
      record {
        place = λ q. rw (same.players, same.channels) (ground arith);
        opened = λ s. rw same.channels refl;
      }

module _ {S : Type 0} (config : Config S) where
  enter_session-Shows :
      (request : ChatAuth) (channel : SessionChannel) (a : ℕ) (w : Chat S)
      → w.session_channels request.session_id ≡ some channel
      → Shows
          (record (presence w) {
            place = λ q.
                if q == request.player_id then session request.session_id else (presence w).place q;
          })
          (enter_session config request channel a w)
  enter_session-Shows request channel a w found =
      let same = enter_session-SameMaps config request channel a w in
      record {
        place = λ q.
            rw (same.players, same.channels)
              (elim (Option-cases (w.players q)) [
                | inl gone ↦
                    ground (arith, has_member-add_member q request.player_id channel.members)
                | inr (other, known) ↦
                    ground (arith, has_member-add_member q request.player_id channel.members)
              ]);
        opened = λ s. rw same.channels (ground arith);
      }

  authenticate-Shows :
      (request : ChatAuth) (a : ℕ) (w : Chat S)
      → w.players request.player_id ≡ none
      → Shows (seated request (presence w)) (authenticate config request a w)
  unfolding authenticate
  authenticate-Shows request a w gone =
      let P : Chat S → Type 0 = Shows (seated request (presence w)) in
      if_cases P (request.session_id == "") _ _
        (λ e.
          let h = enter_lobby-Shows request a w in
          record { place = λ q. ground (arith, h.place q); opened = h.opened })
        λ sid.
          option_cases P (w.session_channels request.session_id) _ _
            (λ absent.
              let h = Shows-SameMaps (send-SameMaps a (auth_result false) w) in
              record { place = λ q. ground (arith, h.place q); opened = h.opened })
            λ channel found.
              let h = enter_session-Shows request channel a w found in
              record { place = λ q. ground (arith, h.place q); opened = h.opened }

  pub handle_auth-Shows :
      (request : ChatAuth) (a : ℕ) (w : Chat S)
      → request.player_id ≢ ""
      → request.player_name ≢ ""
      → Shows (seated request (presence w)) (handle_auth config request a w)
  handle_auth-Shows request a w id name =
      let v = replace_connection request.player_id a w in
      let gone = replace_connection-gone request.player_id a w in
      let before = replace_connection-Shows request.player_id a w in
      let h = authenticate-Shows request a v gone in
      rw (handle_auth-authenticate config request a w id name) (record {
        place = λ q. ground (arith, h.place q, before.place q, before.opened request.session_id);
        opened = λ s. h.opened s ∙ before.opened s;
      })

  pub handle_session_created-Shows :
      (s : String) (players : List (String × String)) (w : Chat S)
      → Shows (announced s (presence w)) (handle_session_created config s players w)
  unfolding handle_session_created has_member
  handle_session_created-Shows s players w = record {
    place = λ q. elim (Option-cases (w.players q)) [
      | inl gone ↦ ground arith
      | inr (state, known) ↦ ground arith
    ];
    opened = λ t. ground arith;
  }

-- The state of a player who has moved to the lobby.
abbrev moved : Option PlayerState → Option PlayerState
moved none = none
moved (some state) = some (record state { session_id = ""; in_lobby = true })

module _ {S : Type 0} where
  players-move_all :
      (ps : List String) (w : Chat S) (q : String)
      → (move_all ps w).players q ≡ (if has_member q ps then moved (w.players q) else w.players q)
  unfolding move_all move_to_lobby has_member
  players-move_all [] w q = refl
  players-move_all (p ∷ ps) w q = ground (arith, players-move_all ps (move_to_lobby p w) q)

module _ {S : Type 0} (config : Config S) where
  pub handle_session_ended-Shows :
      (s : String) (w : Chat S)
      → Holds w
      → Shows (closed s (presence w)) (handle_session_ended config s w)
  unfolding handle_session_ended
  handle_session_ended-Shows s w h =
      option_cases (Shows (closed s (presence w))) (w.session_channels s) _ _
        (λ absent. record {
          place = λ q. elim (Option-cases (w.players q)) [
            | inl gone ↦ ground arith
            | inr (state, known) ↦ ground arith
          ];
          opened = λ t. ground arith;
        })
        λ channel found. record {
          place = λ q. elim (Option-cases (w.players q)) [
            | inl gone ↦ ground (arith, players-move_all channel.members w q)
            | inr (state, known) ↦ ground (
              arith,
              players-move_all channel.members w q,
              move_all-channels channel.members w,
              h.in_session q s,
              h.one q,
              h.unlisted q,
            )
          ];
          opened = λ t. rw (move_all-channels channel.members w) (ground arith);
        }
