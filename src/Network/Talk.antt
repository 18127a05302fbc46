-- ===== src/Network/Talk.antt =====
-- The chat server on its connections: src/chat/server/ChatSession.cpp from the bytes of the clients to
-- the bytes for them, over src/chat/channel/ChannelManager.cpp.
pub mod Closed
pub mod Silent
mod Tests
use project_sos_backend.Common.RateLimiter.{RateLimiter}
use project_sos_backend.Chat.Proto.{ChatRequest, ChatEnvelope, Notice}
use project_sos_backend.Chat.State.{Chat, Config}
use project_sos_backend.Chat.Machine.{
  Event, noticed, redis_changed, accept, close, is_closed, process_all, step, run, new_chat,
}
use project_sos_backend.Chat.Members.{Holds}
use project_sos_backend.Chat.Members.Steps.{close-Holds}
use project_sos_backend.Chat.Safety.{process_all-Holds, step-Holds, run-new_chat-Holds}
use project_sos_backend.Network.{Host, Net, NetEvent, net_run, no_lines}
use project_sos_backend.Network.Kept.{Keeps, AllReads-any, net_run-keeps}
use project_sos_backend.Base.{
  ℕ, ◌≡◌, refl, Bool, true, false, Option, none, some, List, [], ◌∷◌, map,
}

-- What happens besides the reads, writes and timers of clients.
pub data Beside (S : Type 0) : Type 0 where
  -- from the room server
  notice_came : Notice → Beside S
  redis_set : S → Beside S

abbrev pub event_of : {S : Type 0} → Beside S → Event S
event_of (notice_came notice) = noticed notice
event_of (redis_set s) = redis_changed s

module _ {S : Type 0} (config : Config S) (limiter : Option (RateLimiter S)) where
  unfoldable pub talk_host : Host (Chat S) ChatRequest ChatEnvelope Unit (Beside S)
  unfolding accept close process_all step
  talk_host = record {
    is_taken = λ w a. elim (w.clients a) [ none ↦ false | some _ ↦ true ];
    is_closed = is_closed;
    connect = λ a c w. accept a w;
    process = λ a now requests w. process_all config limiter a (map (λ r. (r, now)) requests) w;
    close = close;
    other = λ e w. step config limiter (event_of e) w;
    out = λ w. w.sent;
    clear = λ w. record w { sent = [] };
  }

module _ {S : Type 0} (config : Config S) (limiter : Option (RateLimiter S))
    (serialize : ChatEnvelope → List ℕ) (parse : List ℕ → Option ChatRequest) (timeout : ℕ) where
  abbrev pub talk_run : List (NetEvent Unit (Beside S)) → S → Option (Net (Chat S) ChatEnvelope)
  talk_run events s =
      net_run (talk_host config limiter) serialize parse timeout events
        (record { host = new_chat s; lines = no_lines })

  Holds-kept : Keeps (talk_host config limiter) (λ _ _. Unit) Holds
  unfolding talk_host
  Holds-kept = record {
    connect = λ a c w free h. h;
    process = λ a now requests w may h.
        process_all-Holds config limiter a (map (λ r. (r, now)) requests) w h;
    close = λ a w h. close-Holds a w h;
    other = λ e w h. step-Holds config limiter (event_of e) w h;
    clear = λ w h. h;
  }

  pub talk_run-Holds :
      (events : List (NetEvent Unit (Beside S))) (s : S) (n : Net (Chat S) ChatEnvelope)
      → talk_run events s ≡ some n
      → Holds n.host
  unfolding run
  talk_run-Holds events s n runs =
      net_run-keeps (talk_host config limiter) serialize parse timeout (λ _ _. Unit) Holds
        Holds-kept events (record { host = new_chat s; lines = no_lines }) n runs
        (AllReads-any (talk_host config limiter) serialize parse timeout events
          (record { host = new_chat s; lines = no_lines }))
        (run-new_chat-Holds config limiter [] s)
