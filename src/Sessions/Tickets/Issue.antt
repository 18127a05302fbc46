-- ===== src/Sessions/Tickets/Issue.antt =====
-- What `handleStartGame` of src/room/room/RoomManager.cpp hands out with a game, and what
-- src/room/internal/GameServerSession.cpp answers where it is presented.
use Prim.Native.String.{◌++◌ as ◌+++◌}
use project_sos_backend.Common.SessionStore.{Store, create_token}
use project_sos_backend.Common.Tokens.{StoresTexts}
use project_sos_backend.RoomManager.Proto.{Envelope}
use project_sos_backend.RoomManager.State.{Server, Config, Io, find_session, send_to}
use project_sos_backend.RoomManager.Game.{issue_token, game_start_message, send_game_starts}
use project_sos_backend.Base.{
  ℕ, zero, suc, ◌+◌, ◌<◌, ◌≡◌, refl, sym, ap, ◌∙◌, String, Option, some, List, [], ◌∷◌, ◌++◌,
  append-nil, append_assoc, get_elem?, Option-cases, inl, inr, arith, ◌==◌, if◌then◌else◌,
}
use project_sos_backend.Sessions.Tickets.{KeepsTexts, ticket, token_key_same}

module _ {S : Type 0} (read : S → String → Option String) where
  -- The player at a place has been sent a message with a token, which is stored.
  pub record Ticketed (a : ℕ) (message : Envelope) (token value : String)
      (sent : List (ℕ × Envelope)) (io : Io S) : Type 0 where
    pub before : List (ℕ × Envelope)
    pub after : List (ℕ × Envelope)
    pub told : io.sent ≡ sent ++ (before ++ (a, message) ∷ after)
    pub stored : ticket read token io.redis ≡ some value

module _ {S : Type 0} (config : Config S) (store : Store S) (read : S → String → Option String)
    (laws : StoresTexts store.redis read) (sets : KeepsTexts store.redis read)
    (shared : config.session_store ≡ some store) where
  issue_token_lem :
      (id sid : String) (io : Io S)
      → let r = issue_token config id sid io in
        (r.0 ≡ store.uuid io.drawn)
        × (r.1.drawn ≡ suc io.drawn)
        × (r.1.sent ≡ io.sent)
        × ((t : String)
            → ticket read t r.1.redis ≡ (
                if t == store.uuid io.drawn
                then some (store.dump (record { player_id = id; session_id = sid }))
                else ticket read t io.redis))
  unfolding issue_token create_token
  issue_token_lem id sid io =
      let key = "token:" +++ store.uuid io.drawn in
      let value = store.dump (record { player_id = id; session_id = sid }) in
      let done = laws.setex_done key value store.token_ttl io.redis in
      (
        ground (arith, shared, done),
        ground (arith, shared, done),
        ground (arith, shared, done),
        λ t. ground (
          arith,
          shared,
          done,
          token_key_same t (store.uuid io.drawn),
          laws.setex_read key value ("token:" +++ t) store.token_ttl io.redis,
        ),
      )

  sent-send_to :
      (w : Server S) (id : String) (e : Envelope) (io : Io S)
      → (more : List (ℕ × Envelope)) × ((send_to w id e io).sent ≡ io.sent ++ more)
  unfolding send_to
  sent-send_to w id e io = elim (Option-cases (find_session w id)) [
    | inl gone ↦ ([], rw (gone, send_to) (sym (append-nil io.sent)))
    | inr (a, found) ↦ ((a, e) ∷ [], rw (found, send_to) refl)
  ]

  redis-send_to :
      (w : Server S) (id : String) (e : Envelope) (io : Io S)
      → ((send_to w id e io).redis ≡ io.redis) × ((send_to w id e io).drawn ≡ io.drawn)
  unfolding send_to
  redis-send_to w id e io = ground arith

  send_game_starts-sent :
      (w : Server S) (sid : String) (ids : List String) (io : Io S)
      → (more : List (ℕ × Envelope)) × ((send_game_starts config w sid ids io).sent
          ≡ io.sent ++ more)
  unfolding send_game_starts
  send_game_starts-sent w sid [] io = ([], sym (append-nil io.sent))
  send_game_starts-sent w sid (id ∷ ids) io =
      let step = issue_token config id sid io in
      let message = game_start_message config sid step.0 in
      let (here, e) = sent-send_to w id message step.1 in
      let (rest, f) = send_game_starts-sent w sid ids (send_to w id message step.1) in
      (
        here ++ rest,
        f
            ∙ ap (λ xs. xs ++ rest) (e ∙ ap (λ xs. xs ++ here) (issue_token_lem id sid io).2)
            ∙ append_assoc io.sent here rest,
      )

  -- UUIDs differ.
  module _ (distinct : (m n : ℕ) → store.uuid m ≡ store.uuid n → m ≡ n) where
    ticket-send_game_starts :
        (w : Server S) (sid : String) (n : ℕ) (ids : List String) (io : Io S)
        → n < io.drawn
        → ticket read (store.uuid n) (send_game_starts config w sid ids io).redis
          ≡ ticket read (store.uuid n) io.redis
    unfolding send_game_starts
    ticket-send_game_starts w sid n [] io later = refl
    ticket-send_game_starts w sid n (id ∷ ids) io later =
        let step = issue_token config id sid io in
        let (token, drawn, sent, kept) = issue_token_lem id sid io in
        let message = game_start_message config sid step.0 in
        let e = redis-send_to w id message step.1 in
        ticket-send_game_starts w sid n ids (send_to w id message step.1)
          (omega (arith, drawn, e.1))
        ∙ ap (ticket read (store.uuid n)) e.0
        ∙ ground (arith, kept (store.uuid n), distinct n io.drawn)

    pub send_game_starts-Ticketed :
        (w : Server S) (sid id : String) (a i n : ℕ) (ids : List String) (io : Io S)
        → n ≡ i + io.drawn
        → get_elem? ids i ≡ some id
        → find_session w id ≡ some a
        → Ticketed read a
            (game_start_message config sid (store.uuid n))
            (store.uuid n)
            (store.dump (record { player_id = id; session_id = sid }))
            io.sent
            (send_game_starts config w sid ids io)
    unfolding send_game_starts send_to
    send_game_starts-Ticketed w sid id a i n [] io at there found = cc
    send_game_starts-Ticketed w sid id a zero n (x ∷ ids) io at there found =
        let step = issue_token config x sid io in
        let (token, drawn, sent, kept) = issue_token_lem x sid io in
        let message = game_start_message config sid step.0 in
        let next = send_to w x message step.1 in
        let (rest, e) = send_game_starts-sent w sid ids next in
        let same : n ≡ io.drawn = omega (arith, at) in
        let who : x ≡ id = ground (arith, there) in
        let looked : find_session w x ≡ some a = rw who found in
        let given : next.sent ≡ io.sent ++ (a, message) ∷ [] =
          rw (looked, send_to) (ap (λ xs. xs ++ (a, message) ∷ []) sent) in
        let named : message ≡ game_start_message config sid (store.uuid n) =
          ap (game_start_message config sid) (rw same token) in
        record {
          before = [];
          after = rest;
          told =
              e
              ∙ ap (λ xs. xs ++ rest) given
              ∙ append_assoc io.sent ((a, message) ∷ []) rest
              ∙ ap (λ m. io.sent ++ (a, m) ∷ rest) named;
          stored =
              ticket-send_game_starts w sid n ids next
                (omega (arith, same, drawn, (redis-send_to w x message step.1).1))
              ∙ ap (ticket read (store.uuid n)) (redis-send_to w x message step.1).0
              ∙ ground (arith, kept (store.uuid n));
        }
    send_game_starts-Ticketed w sid id a (suc i) n (x ∷ ids) io at there found =
        let step = issue_token config x sid io in
        let (token, drawn, sent, kept) = issue_token_lem x sid io in
        let message = game_start_message config sid step.0 in
        let next = send_to w x message step.1 in
        let (here, e) = sent-send_to w x message step.1 in
        let rest =
          send_game_starts-Ticketed w sid id a i n ids next
            (omega (arith, at, drawn, (redis-send_to w x message step.1).1)) there found in
        let tail = rest.before ++ (a, game_start_message config sid (store.uuid n)) ∷ rest.after in
        record {
          before = here ++ rest.before;
          after = rest.after;
          told =
              rest.told
              ∙ ap (λ xs. xs ++ tail) (e ∙ ap (λ xs. xs ++ here) sent)
              ∙ append_assoc io.sent here tail
              ∙ ap (λ xs. io.sent ++ xs) (sym (append_assoc here rest.before _));
          stored = rest.stored;
        }
