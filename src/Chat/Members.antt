-- ===== src/Chat/Members.antt =====
-- The channels of src/chat/channel/ChannelManager.h: the lobby lists exactly the players in the
-- lobby, and whoever a session channel lists is a player of that session.
pub mod Kept
pub mod Steps
use project_sos_backend.RoomManager.State.{put, remove}
use project_sos_backend.Chat.Proto.{ChatEnvelope}
use project_sos_backend.Chat.State.{
  Chat, PlayerState, SessionChannel, has_member, add_member, drop_member, send, send_to, send_all,
  leave_channel, forget_player,
}
use project_sos_backend.Base.{
  ℕ, ◌≡◌, refl, ap, ◌∙◌, String, Bool, true, false, not, ◌&&◌, ◌||◌, Option, none, some, List, [],
  ◌∷◌, ◌++◌, inl, inr, Option-cases, arith, ◌==◌, if◌then◌else◌,
}

pub has_member-append :
    (p q : String) (ps : List String) → has_member p (ps ++ q ∷ []) ≡ (has_member p ps || p == q)
unfolding has_member
has_member-append p q [] = ground arith
has_member-append p q (x ∷ ps) = ground (arith, has_member-append p q ps)

pub has_member-add_member :
    (p q : String) (ps : List String) → has_member p (add_member q ps) ≡ (has_member p ps || p == q)
unfolding add_member
has_member-add_member p q ps = ground (arith, has_member-append p q ps)

pub has_member-drop_member :
    (p q : String) (ps : List String)
    → has_member p (drop_member q ps) ≡ (if p == q then false else has_member p ps)
unfolding has_member drop_member
has_member-drop_member p q [] = ground arith
has_member-drop_member p q (x ∷ ps) = ground (arith, has_member-drop_member p q ps)

-- Where a player's state says that the player is.
abbrev pub says_lobby : Option PlayerState → Bool
says_lobby none = false
says_lobby (some state) = state.in_lobby

abbrev pub says_session : Option PlayerState → String → Bool
says_session none s = false
says_session (some state) s = state.session_id == s

abbrev pub says_one : Option PlayerState → Bool
says_one none = true
says_one (some state) = if state.in_lobby then state.session_id == "" else true

abbrev pub lists : Option SessionChannel → String → Bool
lists none p = false
lists (some channel) p = has_member p channel.members

-- The maps, apart from the rest of the state. No channel stands under the empty id.
pub record Inv (players : String → Option PlayerState) (lobby : List String)
    (channels : String → Option SessionChannel) : Type 0 where
  pub in_lobby : (p : String) → has_member p lobby ≡ says_lobby (players p)
  pub in_session : (p s : String) → lists (channels s) p ≡ true → says_session (players p) s ≡ true
  pub one : (p : String) → says_one (players p) ≡ true
  pub unlisted : (p : String) → lists (channels "") p ≡ false

module _ {S : Type 0} where
  abbrev pub Holds : Chat S → Type 0
  Holds w = Inv w.players w.lobby_members w.session_channels

  -- Nothing but messages, session objects and Redis has changed.
  pub record SameMaps (v w : Chat S) : Type 0 where
    pub players : w.players ≡ v.players
    pub lobby : w.lobby_members ≡ v.lobby_members
    pub channels : w.session_channels ≡ v.session_channels

  pub SameMaps-refl : (w : Chat S) → SameMaps w w
  SameMaps-refl w = record { players = refl; lobby = refl; channels = refl }

  pub SameMaps-trans : {u v w : Chat S} → SameMaps u v → SameMaps v w → SameMaps u w
  SameMaps-trans h k = record {
    players = k.players ∙ h.players;
    lobby = k.lobby ∙ h.lobby;
    channels = k.channels ∙ h.channels;
  }

  pub Holds-SameMaps : {v w : Chat S} → SameMaps v w → Holds v → Holds w
  Holds-SameMaps s h = rw (s.players, s.lobby, s.channels) h

  pub send-SameMaps : (a : ℕ) (e : ChatEnvelope) (w : Chat S) → SameMaps w (send a e w)
  unfolding send
  send-SameMaps a e w = ground arith

  pub send_to-SameMaps : (p : String) (e : ChatEnvelope) (w : Chat S) → SameMaps w (send_to p e w)
  unfolding send_to
  send_to-SameMaps p e w = ground arith

  pub send_all-SameMaps :
      (ps : List String) (e : ChatEnvelope) (w : Chat S) → SameMaps w (send_all ps e w)
  unfolding send_all
  send_all-SameMaps [] e w = SameMaps-refl w
  send_all-SameMaps (p ∷ ps) e w =
      SameMaps-trans (send_to-SameMaps p e w) (send_all-SameMaps ps e (send_to p e w))

  lists-leave_channel :
      (sid p q s : String) (w : Chat S)
      → lists ((leave_channel sid p w).session_channels s) q
        ≡ (if s == sid && q == p then false else lists (w.session_channels s) q)
  unfolding leave_channel
  lists-leave_channel sid p q s w = elim (Option-cases (w.session_channels sid)) [
    | inl none_ ↦ ground arith
    | inr (channel, found) ↦ ground (arith, has_member-drop_member q p channel.members)
  ]

  -- `forget_player`, map by map.
  pub players-forget_player :
      (p : String) (state : PlayerState) (w : Chat S) (q : String)
      → (forget_player p state w).players q ≡ remove p w.players q
  unfolding forget_player leave_channel
  players-forget_player p state w q = ground arith

  pub lobby-forget_player :
      (p : String) (state : PlayerState) (w : Chat S) (q : String)
      → has_member q (forget_player p state w).lobby_members
        ≡ (if q == p then false else has_member q w.lobby_members)
  unfolding forget_player leave_channel
  lobby-forget_player p state w q = ground (arith, has_member-drop_member q p w.lobby_members)

  pub lists-forget_player :
      (p : String) (state : PlayerState) (w : Chat S) (q s : String)
      → lists ((forget_player p state w).session_channels s) q ≡ (
          if not (state.session_id == "") && (s == state.session_id && q == p)
          then false
          else lists (w.session_channels s) q)
  unfolding forget_player
  lists-forget_player p state w q s = ground (
    arith,
    lists-leave_channel state.session_id p q s
        (record w { lobby_members = drop_member p w.lobby_members }),
  )

  -- A player who is forgotten is in no channel.
  pub forget_player-Holds :
      (p : String) (state : PlayerState) (w : Chat S)
      → Holds w
      → w.players p ≡ some state
      → Holds (forget_player p state w)
  forget_player-Holds p state w h found = record {
    in_lobby = λ q.
        ground
          (arith, h.in_lobby q, lobby-forget_player p state w q, players-forget_player p state w q);
    in_session = λ q s l. ground (
      arith,
      h.in_session q s,
      h.unlisted q,
      lists-forget_player p state w q s,
      players-forget_player p state w q,
    );
    one = λ q. ground (arith, h.one q, players-forget_player p state w q);
    unlisted = λ q. ground (arith, h.unlisted q, lists-forget_player p state w q "");
  }
