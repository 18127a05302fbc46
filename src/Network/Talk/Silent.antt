-- ===== src/Network/Talk/Silent.antt =====
-- What becomes of a client of the chat server that has gone silent: the timer of
-- src/chat/server/ChatSession.cpp, and src/chat/channel/ChannelManager.cpp.
use mathlib.Core.Path.{subst}
use project_sos_backend.Common.RateLimiter.{RateLimiter}
use project_sos_backend.Chat.Proto.{ChatRequest, ChatEnvelope}
use project_sos_backend.Chat.State.{Chat, Config, Client, has_member, set_client}
use project_sos_backend.Chat.Machine.{close, is_closed, new_chat}
use project_sos_backend.Chat.Members.{lists}
use project_sos_backend.Chat.Members.Steps.{close-Holds}
use project_sos_backend.Chat.Safety.{players-handle_disconnect}
use project_sos_backend.Network.{Net, NetEvent, ticked, timer_ended, settle, net_run, no_lines}
use project_sos_backend.Network.Kept.{OnSome}
use project_sos_backend.Network.Silence.{Watched}
use project_sos_backend.Network.Silence.Runs.{net_run-Watched, tick-closes}
use project_sos_backend.Network.Talk.{Beside, talk_host, talk_run, talk_run-Holds}
use project_sos_backend.Network.Talk.Closed.{talk_host-Closes, close-closed}
use project_sos_backend.Base.{
  ℕ, ◌+◌, ◌≤◌, ◌≡◌, ◌≢◌, String, true, false, Option, none, some, List, [], ◌∷◌, arith,
}

module _ {S : Type 0} where
  close-players :
      (a : ℕ) (c : Client) (w : Chat S)
      → w.clients a ≡ some c
      → c.closed ≡ false
      → c.player_id ≢ ""
      → (close a w).players c.player_id ≡ none
  unfolding close
  close-players a c w found live named =
      let w1 : Chat S = record w {
        clients = set_client a (record c { closed = true }) w.clients;
      } in
      ground (arith, players-handle_disconnect c.player_id w1)

module _ {S : Type 0} (config : Config S) (limiter : Option (RateLimiter S))
    (serialize : ChatEnvelope → List ℕ) (parse : List ℕ → Option ChatRequest) (timeout : ℕ) where
  -- Where the timeout is not zero: in every state that a new chat server reaches, once `timeout` has
  -- passed since the last read of an open session that speaks for a player, or since its start, the
  -- clock and the handler of its wait leave the session closed and the player unknown, and neither
  -- the lobby nor any session channel lists the player.
  pub talk_run-silent :
      (events : List (NetEvent Unit (Beside S))) (s : S) (n : Net (Chat S) ChatEnvelope) (a now : ℕ)
      (c : Client) (t : String)
      → 1 ≤ timeout
      → talk_run config limiter serialize parse timeout events s ≡ some n
      → n.host.clients a ≡ some c
      → c.closed ≡ false
      → c.player_id ≢ ""
      → (n.lines a).timer.active + timeout ≤ now
      → (n' : Net (Chat S) ChatEnvelope) × (net_run
            (talk_host config limiter)
            serialize
            parse
            timeout
            (ticked a now ∷ timer_ended a ∷ [])
            n
          ≡ some n')
        × (is_closed n'.host a ≡ true)
        × (n'.host.players c.player_id ≡ none)
        × (has_member c.player_id n'.host.lobby_members ≡ false)
        × (lists (n'.host.session_channels t) c.player_id ≡ false)
  unfolding talk_host settle
  talk_run-silent events s n a now c t positive runs found live named late =
      let host = talk_host config limiter in
      let closes = talk_host-Closes config limiter in
      let watched : Watched host closes serialize parse timeout n =
        subst (OnSome (Watched host closes serialize parse timeout)) runs (
          net_run-Watched host closes serialize parse timeout events
            (record { host = new_chat s; lines = no_lines }) positive (λ b up. cc up)) in
      let up : is_closed n.host a ≡ false = ground (arith, found, live) in
      let (lines, e) = tick-closes host closes serialize parse timeout a now n watched up late in
      let h =
        close-Holds a n.host
          (talk_run-Holds config limiter serialize parse timeout events s n runs) in
      let gone = close-players a c n.host found live named in
      (
        settle host serialize (close a n.host) lines,
        e,
        ground (arith, close-closed a a n.host),
        gone,
        ground (arith, h.in_lobby c.player_id),
        ground (arith, h.in_session c.player_id t),
      )
