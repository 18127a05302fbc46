-- ===== src/Chat/Games.antt =====
-- The channel of a game, from `handleSessionCreated` through the `handleAuth` of its players to
-- `handleSessionEnded` of src/chat/channel/ChannelManager.cpp.
pub mod Entering
use project_sos_backend.Common.RateLimiter.{RateLimiter}
use project_sos_backend.Chat.Proto.{ChatAuth, auth, session_created, session_ended}
use project_sos_backend.Chat.State.{Chat, Config, PlayerState, SessionChannel, has_member}
use project_sos_backend.Chat.Auth.{handle_auth}
use project_sos_backend.Chat.Channels.{
  move_to_lobby, move_all, handle_session_created, handle_session_ended,
}
use project_sos_backend.Chat.Machine.{
  is_closed, process_message, process_all, process_notice, Event, received, noticed, step, run,
}
use project_sos_backend.Chat.Members.{lists, Holds, says_lobby, says_session}
use project_sos_backend.Chat.Members.Steps.{handle_session_ended-Holds}
use project_sos_backend.Chat.Games.Entering.{is_open, Entered, handle_auth-Entered}
use project_sos_backend.Base.{
  not, ◌&&◌, ℕ, ◌≡◌, ◌≢◌, refl, sym, ap, ◌∙◌, String, Bool, true, false, ◌||◌, Option, none, some,
  List, [], ◌∷◌, ◌++◌, map, inl, inr, Option-cases, if_cases, option_cases, Bool-cases, eqb, arith,
  ◌==◌, if◌then◌else◌,
}

-- A client that asks, from a session of the chat server, to enter the channel of a game.
pub record Login : Type 0 where
  pub player_id : String
  pub player_name : String
  pub session : ℕ
  pub now : ℕ

abbrev pub login_request : String → Login → ChatAuth
login_request s l = record { player_id = l.player_id; session_id = s; player_name = l.player_name }

abbrev pub logins : {S : Type 0} → String → List Login → List (Event S)
logins s [] = []
logins s (l ∷ ls) = received l.session ((auth (login_request s l), l.now) ∷ []) ∷ logins s ls

unfoldable pub logs_in : String → List Login → Bool
logs_in q [] = false
logs_in q (l ∷ ls) = q == l.player_id || logs_in q ls

module _ {S : Type 0} where
  -- No id and no name is empty, and no session is closed.
  abbrev pub AllAble : Chat S → List Login → Type 0
  AllAble w [] = Unit
  AllAble w (l ∷ ls) =
      (l.player_id ≢ "") × (l.player_name ≢ "") × (is_closed w l.session ≡ false) × AllAble w ls

  AllAble-closed :
      (v w : Chat S) (ls : List Login)
      → ((b : ℕ) → is_closed w b ≡ is_closed v b)
      → AllAble v ls
      → AllAble w ls
  AllAble-closed v w [] same a = tt
  AllAble-closed v w (l ∷ ls) same (id, name, up, rest) =
      (id, name, same l.session ∙ up, AllAble-closed v w ls same rest)

abbrev is_known : Option PlayerState → Bool
is_known none = false
is_known (some state) = true

-- The members of a game's channel, and what the state of each says.
record Gathered {S : Type 0} (s : String) (ls : List Login) (v w : Chat S) : Type 0 where
  members :
      (q : String)
      → lists (w.session_channels s) q ≡ (logs_in q ls || lists (v.session_channels s) q)
  players :
      (q : String) → says_session (w.players q) s ≡ (logs_in q ls || says_session (v.players q) s)
  opened : is_open (w.session_channels s) ≡ true

module _ {S : Type 0} (config : Config S) (limiter : Option (RateLimiter S)) where
  step-auth :
      (request : ChatAuth) (a now : ℕ) (w : Chat S)
      → is_closed w a ≡ false
      → step config limiter (received a ((auth request, now) ∷ [])) w
        ≡ handle_auth config request a w
  unfolding step process_all process_message
  step-auth request a now w up =
      let w1 = handle_auth config request a w in
      elim (Option-cases (w.clients a)) [
        | inl gone ↦ ground arith
        | inr (c, found) ↦ ground (arith, found)
      ]

  run-logins :
      (s : String) (ls : List Login) (w : Chat S)
      → s ≢ ""
      → is_open (w.session_channels s) ≡ true
      → AllAble w ls
      → Gathered s ls w (run config limiter (logins s ls) w)
  unfolding run logs_in
  run-logins s [] w named there able = record {
    members = λ q. refl;
    players = λ q. refl;
    opened = there;
  }
  run-logins s (l ∷ ls) w named there (id, name, up, able) =
      let w1 = handle_auth config (login_request s l) l.session w in
      let e = handle_auth-Entered config (login_request s l) l.session w id name named there in
      let g = run-logins s ls w1 named e.opened (AllAble-closed w w1 ls e.closed able) in
      rw (step-auth (login_request s l) l.session l.now w up, run)
        (record {
          members = λ q. ground (arith, g.members q, e.members q);
          players = λ q. ground (arith, g.players q, e.players q);
          opened = g.opened;
        })

  -- From the announcement of a session on: its channel lists those who have asked to enter it.
  pub session_created-Gathered :
      (s : String) (expected : List (String × String)) (ls : List Login) (w : Chat S) (q : String)
      → s ≢ ""
      → AllAble w ls
      → let w' = run config limiter (noticed (session_created s expected) ∷ logins s ls) w in
        (lists (w'.session_channels s) q ≡ logs_in q ls)
        × (says_session (w'.players q) s ≡ (logs_in q ls || says_session (w.players q) s))
  unfolding run step process_notice handle_session_created has_member
  session_created-Gathered s expected ls w q named able =
      let w1 = handle_session_created config s expected w in
      let g = run-logins s ls w1 named (ground arith) (AllAble-closed w w1 ls (λ b. refl) able) in
      (ground (arith, g.members q), ground (arith, g.players q))

module _ {S : Type 0} where
  move_all-says_lobby :
      (ps : List String) (w : Chat S) (q : String)
      → says_lobby ((move_all ps w).players q)
        ≡ (says_lobby (w.players q) || has_member q ps && is_known (w.players q))
  unfolding move_all move_to_lobby has_member
  move_all-says_lobby [] w q = ground arith
  move_all-says_lobby (p ∷ ps) w q = ground (arith, move_all-says_lobby ps (move_to_lobby p w) q)

module _ {S : Type 0} (config : Config S) where
  players-session_ended :
      (s : String) (channel : SessionChannel) (w : Chat S) (q : String)
      → w.session_channels s ≡ some channel
      → (handle_session_ended config s w).players q ≡ (move_all channel.members w).players q
  unfolding handle_session_ended
  players-session_ended s channel w q e = rw (e, handle_session_ended) refl

  -- The end of a session moves the members of its channel to the lobby, and nobody else.
  pub session_ended-lobby :
      (s : String) (w : Chat S) (q : String)
      → Holds w
      → let w' = handle_session_ended config s w in
        (w'.session_channels s ≡ none)
        × (has_member q w'.lobby_members
            ≡ (lists (w.session_channels s) q || has_member q w.lobby_members))
  unfolding handle_session_ended
  session_ended-lobby s w q h =
      let h' = handle_session_ended-Holds config s w h in
      elim (Option-cases (w.session_channels s)) [
        | inl e ↦ rw (e, handle_session_ended) (e, refl)
        | inr (channel, e) ↦ (
          rw (e, handle_session_ended) (ground arith),
          ground (
            arith,
            h'.in_lobby q,
            h.in_lobby q,
            h.in_session q s,
            players-session_ended s channel w q e,
            move_all-says_lobby channel.members w q,
          ),
        )
      ]
