-- ===== src/Chat/Presence/Runs.antt =====
-- The whole chat server, with the sessions of src/chat/server/ChatSession.cpp, against what
-- src/chat/channel/ChannelManager.h promises.
use project_sos_backend.Common.RateLimiter.{RateLimiter}
use project_sos_backend.Chat.Proto.{ChatRequest, Notice}
use project_sos_backend.Chat.Proto as Proto
use project_sos_backend.Chat.State.{Chat, Config, set_client, has_member}
use project_sos_backend.Chat.Channels.{handle_disconnect}
use project_sos_backend.Chat.Machine.{
  Event, accepted, received, ended, noticed, redis_changed, close, is_closed, send_checked,
  process_message, process_all, process_notice, step, run, new_chat,
}
use project_sos_backend.Chat.Members.{lists, Holds}
use project_sos_backend.Chat.Games.Entering.{is_open}
use project_sos_backend.Chat.Safety.{
  send_checked-SameMaps, process_message-Holds, step-Holds, run-Holds,
}
use project_sos_backend.Chat.Presence.{
  Presence, is_lobby, is_session, Call, auth, disconnect, session_created, session_ended, nobody,
  spec, spec_all, without, presence, call,
}
use project_sos_backend.Chat.Presence.Moves.{Shows-SameMaps, handle_disconnect-Shows}
use project_sos_backend.Chat.Presence.Refine.{
  Shows-presence, lists-presence, call-Shows, new_chat-Holds,
}
use project_sos_backend.Network.Talk.Closed.{process_message-SameClosed}
use project_sos_backend.Base.{
  ℕ, ◌≡◌, refl, sym, ap, ◌∙◌, String, true, false, ◌||◌, Option, none, some, List, [], ◌∷◌, ◌++◌,
  arith, option_cases, if_cases, Bool-cases, Option-cases, inl, inr, ◌==◌, if◌then◌else◌,
}

spec_all-append :
    (first second : List Call) (v : Presence)
    → spec_all (first ++ second) v ≡ spec_all second (spec_all first v)
unfolding spec_all
spec_all-append [] second v = refl
spec_all-append (c ∷ first) second v = spec_all-append first second (spec c v)

-- The call of the manager for a message, if it moves a player.
abbrev call_for : ℕ → ChatRequest → List Call
call_for a (Proto.auth request) = auth request a ∷ []
call_for a (Proto.chat_send request) = []
call_for a Proto.heartbeat = []
call_for a Proto.other = []

abbrev calls_for : ℕ → List (ChatRequest × ℕ) → List Call
calls_for a [] = []
calls_for a ((request, now) ∷ requests) = call_for a request ++ calls_for a requests

-- A session that is closed handles the first message of a late read.
abbrev calls_for_late : ℕ → List (ChatRequest × ℕ) → List Call
calls_for_late a [] = []
calls_for_late a ((request, now) ∷ requests) = call_for a request

module _ {S : Type 0} where
  -- For what happens in a state.
  unfoldable pub calls_at : Event S → Chat S → List Call
  calls_at (accepted a) w = []
  calls_at (received a requests) w = elim (w.clients a) [
    | none ↦ []
    | some c ↦ if c.closed then calls_for_late a requests else calls_for a requests
  ]
  calls_at (ended a) w = elim (w.clients a) [
    | none ↦ []
    | some c ↦ if c.closed || c.player_id == "" then [] else disconnect c.player_id ∷ []
  ]
  calls_at (noticed (Notice.session_created s players)) w = session_created s players ∷ []
  calls_at (noticed (Notice.session_ended s)) w = session_ended s ∷ []
  calls_at (noticed Notice.other) w = []
  calls_at (redis_changed s) w = []

module _ {S : Type 0} (config : Config S) (limiter : Option (RateLimiter S)) where
  -- Through a run.
  unfoldable pub calls_in : List (Event S) → Chat S → List Call
  calls_in [] w = []
  calls_in (e ∷ events) w = calls_at e w ++ calls_in events (step config limiter e w)

  call-presence :
      (c : Call) (w : Chat S) → Holds w → presence (call config c w) ≡ spec c (presence w)
  call-presence c w h =
      Shows-presence (spec c (presence w)) (call config c w) (call-Shows config c w h)

  process_message-presence :
      (a : ℕ) (request : ChatRequest) (now : ℕ) (w : Chat S)
      → Holds w
      → presence (process_message config limiter a request now w)
        ≡ spec_all (call_for a request) (presence w)
  unfolding process_message spec_all call
  process_message-presence a (Proto.auth request) now w h = call-presence (auth request a) w h
  process_message-presence a (Proto.chat_send request) now w h =
      option_cases (λ (v : Chat S). presence v ≡ presence w) (w.clients a) _ _ (λ _. refl)
        λ c _.
          Shows-presence (presence w)
            (send_checked config limiter a c (Proto.chat_send request) now w)
            (Shows-SameMaps
              (send_checked-SameMaps config limiter a c (Proto.chat_send request) now w))
  process_message-presence a Proto.heartbeat now w h =
      option_cases (λ (v : Chat S). presence v ≡ presence w) (w.clients a) _ _ (λ _. refl)
        λ _ _. refl
  process_message-presence a Proto.other now w h =
      option_cases (λ (v : Chat S). presence v ≡ presence w) (w.clients a) _ _ (λ _. refl)
        λ _ _. refl

  process_all-presence :
      (a : ℕ) (requests : List (ChatRequest × ℕ)) (w : Chat S)
      → Holds w
      → is_closed w a ≡ false
      → presence (process_all config limiter a requests w)
        ≡ spec_all (calls_for a requests) (presence w)
  unfolding process_all spec_all
  process_all-presence a [] w h live = refl
  process_all-presence a ((request, now) ∷ requests) w h live =
      let w1 = process_message config limiter a request now w in
      let live1 : is_closed w1 a ≡ false =
        process_message-SameClosed config limiter a request now w a ∙ live in
      let rest =
        process_all-presence a requests w1 (process_message-Holds config limiter a request now w h)
          live1 in
      let all : presence (process_all config limiter a requests w1)
          ≡ spec_all (call_for a request ++ calls_for a requests) (presence w) =
        rest
        ∙ ap (spec_all (calls_for a requests)) (process_message-presence a request now w h)
        ∙ sym (spec_all-append (call_for a request) (calls_for a requests) (presence w)) in
      if_cases
        (λ (v : Chat S).
          presence v ≡ spec_all (call_for a request ++ calls_for a requests) (presence w))
        (is_closed w1 a) _ _ (λ down. cc) (λ _. all)

  process_all-late :
      (a : ℕ) (requests : List (ChatRequest × ℕ)) (w : Chat S)
      → Holds w
      → is_closed w a ≡ true
      → presence (process_all config limiter a requests w)
        ≡ spec_all (calls_for_late a requests) (presence w)
  unfolding process_all spec_all
  process_all-late a [] w h down = refl
  process_all-late a ((request, now) ∷ requests) w h down =
      let down1 = process_message-SameClosed config limiter a request now w a ∙ down in
      rw (down1, process_all) (process_message-presence a request now w h)

  close-presence :
      (a : ℕ) (w : Chat S) → presence (close a w) ≡ spec_all (calls_at (ended a) w) (presence w)
  unfolding close calls_at spec_all spec
  close-presence a w = elim (Option-cases (w.clients a)) [
    | inl none_ ↦ rw (none_, close, calls_at) refl
    | inr (c, found) ↦ elim (Bool-cases c.closed) [
      | inl done ↦ rw (found, done, close, calls_at) refl
      | inr up ↦ elim (Bool-cases (c.player_id == "")) [
        | inl unnamed ↦ rw (found, up, unnamed, close, calls_at) refl
        | inr named ↦
            let w1 : Chat S = record w {
              clients = set_client a (record c { closed = true }) w.clients;
            } in
            let gone =
              Shows-presence (without c.player_id (presence w)) (handle_disconnect c.player_id w1)
                (handle_disconnect-Shows c.player_id w1) in
            rw (found, up, named, close, calls_at) gone
      ]
    ]
  ]

  step-presence :
      (e : Event S) (w : Chat S)
      → Holds w
      → presence (step config limiter e w) ≡ spec_all (calls_at e w) (presence w)
  unfolding step calls_at spec_all call process_notice
  step-presence (accepted a) w h =
      option_cases (λ (v : Chat S). presence v ≡ presence w) (w.clients a) _ _ (λ _. refl)
        λ _ _. refl
  step-presence (received a requests) w h = elim (Option-cases (w.clients a)) [
    | inl none_ ↦ rw (none_, step, calls_at) refl
    | inr (c, found) ↦ elim (Bool-cases c.closed) [
      | inl down ↦
          rw (found, down, step, calls_at) (process_all-late a requests w h (ground (arith, found)))
      | inr live ↦
          rw (found, live, step, calls_at)
            (process_all-presence a requests w h (ground (arith, found)))
    ]
  ]
  step-presence (ended a) w h = close-presence a w
  step-presence (noticed (Notice.session_created s players)) w h =
      call-presence (session_created s players) w h
  step-presence (noticed (Notice.session_ended s)) w h = call-presence (session_ended s) w h
  step-presence (noticed Notice.other) w h = refl
  step-presence (redis_changed s) w h = refl

  run-presence :
      (events : List (Event S)) (w : Chat S)
      → Holds w
      → presence (run config limiter events w) ≡ spec_all (calls_in events w) (presence w)
  unfolding run calls_in spec_all
  run-presence [] w h = refl
  run-presence (e ∷ events) w h =
      let w1 = step config limiter e w in
      run-presence events w1 (step-Holds config limiter e w h)
      ∙ ap (spec_all (calls_in events w1)) (step-presence e w h)
      ∙ sym (spec_all-append (calls_at e w) (calls_in events w1) (presence w))

  -- In every state that a new chat server reaches, the lobby lists exactly the players whom the
  -- requests, closings and notices of the run, as moves of players between places, leave in the
  -- lobby, the channel of a session exactly those whom they leave in the session, and a session has a
  -- channel exactly where they leave it open.
  pub run-spec_all :
      (events : List (Event S)) (s : S) (q t : String)
      → let w = run config limiter events (new_chat s) in
        let v = spec_all (calls_in events (new_chat s)) nobody in
        (has_member q w.lobby_members ≡ is_lobby (v.place q))
        × (lists (w.session_channels t) q ≡ is_session t (v.place q))
        × (is_open (w.session_channels t) ≡ v.opened t)
  run-spec_all events s q t =
      let w = run config limiter events (new_chat s) in
      let start = new_chat-Holds config s in
      let e = run-presence events (new_chat s) start in
      let l = lists-presence w q t (run-Holds config limiter events (new_chat s) start) in
      (
        l.0 ∙ ap (λ v. is_lobby (v.place q)) e,
        l.1 ∙ ap (λ v. is_session t (v.place q)) e,
        ap (λ v. v.opened t) e,
      )
