-- ===== src/Chat/Games/Entering.antt =====
-- `handleAuth` of src/chat/channel/ChannelManager.cpp for a session that is there, map by map.
use project_sos_backend.RoomManager.State.{put}
use project_sos_backend.Chat.Proto.{ChatAuth, receive}
use project_sos_backend.Chat.State.{
  Chat, Config, PlayerState, SessionChannel, set_client, forget_player, send, send_to,
  leave_channel, add_member,
}
use project_sos_backend.Chat.Auth.{
  save_membership, history_key, player_state, mark_authenticated, kick_session, replace_connection,
  register_player, send_messages, send_history, enter_session, authenticate, handle_auth,
}
use project_sos_backend.Chat.Machine.{is_closed}
use project_sos_backend.Chat.Members.{
  lists, lists-forget_player, players-forget_player, has_member-add_member,
}
use project_sos_backend.Chat.Members.Kept.{kick_session-SameMaps, enter_session-SameMaps}
use mathlib.Core.List.{reverse}
use project_sos_backend.Base.{
  ℕ, ◌≡◌, ◌≢◌, refl, ap, ◌∙◌, String, Bool, true, false, ◌||◌, Option, none, some, List, [], ◌∷◌,
  inl, inr, Option-cases, option_cases, Bool-cases, arith, ◌==◌, if◌then◌else◌,
}

abbrev pub is_open : Option SessionChannel → Bool
is_open none = false
is_open (some channel) = true

module _ {S : Type 0} where
  -- What is kept of the channel `s` and of the players when `p` is forgotten.
  pub record Forgot (p s : String) (v w : Chat S) : Type 0 where
    others : (q : String) → w.players q ≡ (if q == p then none else v.players q)
    kept :
        (q : String)
        → (if q == p then true else lists (w.session_channels s) q)
          ≡ (if q == p then true else lists (v.session_channels s) q)
    opened : is_open (w.session_channels s) ≡ is_open (v.session_channels s)
    pub closed : (b : ℕ) → is_closed w b ≡ is_closed v b

  pub kick_session-closed :
      (e a : ℕ) (w : Chat S) (b : ℕ) → is_closed (kick_session e a w) b ≡ is_closed w b
  unfolding kick_session set_client send
  kick_session-closed e a w b = ground arith

  pub open-forget_player :
      (p s : String) (state : PlayerState) (w : Chat S)
      → is_open ((forget_player p state w).session_channels s) ≡ is_open (w.session_channels s)
  unfolding forget_player leave_channel
  open-forget_player p s state w = ground arith

  pub clients-forget_player :
      (p : String) (state : PlayerState) (w : Chat S)
      → (forget_player p state w).clients ≡ w.clients
  unfolding forget_player leave_channel
  clients-forget_player p state w = ground arith

  pub replace_connection-Forgot :
      (p s : String) (a : ℕ) (w : Chat S) → Forgot p s w (replace_connection p a w)
  unfolding replace_connection
  replace_connection-Forgot p s a w =
      option_cases (Forgot p s w) (w.players p) _ _
        (λ gone. record {
          others = λ q. ground arith;
          kept = λ q. refl;
          opened = refl;
          closed = λ b. refl;
        })
        λ state found.
          let v = forget_player p state w in
          let same = kick_session-SameMaps state.session a v in
          record {
            others =
                λ q. ap (λ f. f q) same.players ∙ ground (arith, players-forget_player p state w q);
            kept = λ q. rw same.channels (ground (arith, lists-forget_player p state w q s));
            opened = ap (λ f. is_open (f s)) same.channels ∙ open-forget_player p s state w;
            closed = λ b.
                kick_session-closed state.session a v b
                ∙ ap (λ f. elim (f b) [ none ↦ true | some c ↦ c.closed ])
                    (clients-forget_player p state w);
          }

-- The channel `s` and the players, before and after `request` has entered it from session `a`.
pub record Entered {S : Type 0} (request : ChatAuth) (a : ℕ) (v w : Chat S) : Type 0 where
  pub players :
      (q : String)
      → w.players q
        ≡ (if q == request.player_id then some (player_state request false a) else v.players q)
  pub members :
      (q : String)
      → lists (w.session_channels request.session_id) q
        ≡ (if q == request.player_id then true else lists (v.session_channels request.session_id) q)
  pub opened : is_open (w.session_channels request.session_id) ≡ true
  pub closed : (b : ℕ) → is_closed w b ≡ is_closed v b

module _ {S : Type 0} (config : Config S) where
  clients-send_messages :
      (p : String) (ms : List String) (w : Chat S)
      → (send_messages config p ms w).clients ≡ w.clients
  unfolding send_messages send_to send
  clients-send_messages p [] w = refl
  clients-send_messages p (m ∷ ms) w =
      clients-send_messages p ms
        (elim (config.parse m) [ none ↦ w | some r ↦ send_to p (receive r) w ])
      ∙ ground arith

  pub clients-send_history :
      (p s : String) (w : Chat S) → (send_history config p s w).clients ≡ w.clients
  unfolding send_history
  clients-send_history p s w =
      option_cases (λ (v : Chat S). v.clients ≡ w.clients) config.redis _ _ (λ _. refl)
        λ redis _.
          let (result, r) = redis.lrange (history_key s) config.history_size w.redis in
          let w1 = record w { redis = r } in
          option_cases (λ (v : Chat S). v.clients ≡ w.clients) result w1
            (λ ms. send_messages config p (reverse ms) w1) (λ _. refl)
            λ ms _. clients-send_messages p (reverse ms) w1

  pub closed-register_player :
      (request : ChatAuth) (in_lobby : Bool) (a : ℕ) (w : Chat S) (b : ℕ)
      → is_closed (register_player request in_lobby a w) b ≡ is_closed w b
  unfolding register_player mark_authenticated send set_client
  closed-register_player request in_lobby a w b = ground arith

  pub closed-enter_session :
      (request : ChatAuth) (channel : SessionChannel) (a : ℕ) (w : Chat S) (b : ℕ)
      → is_closed (enter_session config request channel a w) b ≡ is_closed w b
  unfolding enter_session
  closed-enter_session request channel a w b =
      let w1 : Chat S = record w {
        session_channels =
            put request.session_id
              (record channel { members = add_member request.player_id channel.members })
              w.session_channels;
        redis = save_membership config request w.redis;
      } in
      ap (λ f. elim (f b) [ none ↦ true | some c ↦ c.closed ])
        (clients-send_history request.player_id request.session_id
          (register_player request false a w1))
      ∙ closed-register_player request false a w1 b

  enter_session-Entered :
      (request : ChatAuth) (channel : SessionChannel) (a : ℕ) (w : Chat S)
      → w.session_channels request.session_id ≡ some channel
      → Entered request a w (enter_session config request channel a w)
  enter_session-Entered request channel a w found =
      let same = enter_session-SameMaps config request channel a w in
      record {
        players = λ q. ap (λ f. f q) same.players;
        members = λ q.
            rw same.channels
              (ground (arith, has_member-add_member q request.player_id channel.members));
        opened = rw same.channels (ground arith);
        closed = closed-enter_session request channel a w;
      }

  authenticate-session :
      (request : ChatAuth) (channel : SessionChannel) (a : ℕ) (w : Chat S)
      → request.session_id ≢ ""
      → w.session_channels request.session_id ≡ some channel
      → authenticate config request a w ≡ enter_session config request channel a w
  unfolding authenticate
  authenticate-session request channel a w sid found =
      elim (Bool-cases (request.session_id == "")) [
        | inl e ↦ absurd (sid (ground arith))
        | inr e ↦ rw (e, found, authenticate) refl
      ]

  pub handle_auth-authenticate :
      (request : ChatAuth) (a : ℕ) (w : Chat S)
      → request.player_id ≢ ""
      → request.player_name ≢ ""
      → handle_auth config request a w
        ≡ authenticate config request a (replace_connection request.player_id a w)
  unfolding handle_auth
  handle_auth-authenticate request a w id name =
      elim (Bool-cases (request.player_id == "" || request.player_name == "")) [
        | inl e ↦ ground arith
        | inr e ↦ rw (e, handle_auth) refl
      ]

  pub handle_auth-Entered :
      (request : ChatAuth) (a : ℕ) (w : Chat S)
      → request.player_id ≢ ""
      → request.player_name ≢ ""
      → request.session_id ≢ ""
      → is_open (w.session_channels request.session_id) ≡ true
      → Entered request a w (handle_auth config request a w)
  handle_auth-Entered request a w id name sid there =
      let v = replace_connection request.player_id a w in
      let f = replace_connection-Forgot request.player_id request.session_id a w in
      elim (Option-cases (v.session_channels request.session_id)) [
        | inl e ↦ ground arith
        | inr (channel, e) ↦
            let h = enter_session-Entered request channel a v e in
            let same : handle_auth config request a w ≡ enter_session config request channel a v =
              handle_auth-authenticate request a w id name
              ∙ authenticate-session request channel a v sid e in
            rw same (record {
              players = λ q. ground (arith, h.players q, f.others q);
              members = λ q. ground (arith, h.members q, f.kept q);
              opened = h.opened;
              closed = λ b. h.closed b ∙ f.closed b;
            })
      ]
