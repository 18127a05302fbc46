-- ===== src/Handover/Connection.antt =====
-- The connection between the servers: src/room/internal/ChatServerChannel.cpp writes what
-- src/chat/internal/InternalSession.cpp reads.
use mathlib.Core.Path.{subst}
use project_sos_backend.Common.RateLimiter.{RateLimiter}
use project_sos_backend.Codec.{encode}
use project_sos_backend.Codec.Stream.{AllSendable, joined}
use project_sos_backend.WriteQueue.Delivery.{flat, flat-prefix, AllSendable-take}
use project_sos_backend.ChatServerChannel.{
  Channel, new_channel, do_resolve_and_connect, ChannelEvent, channel_started,
}
use project_sos_backend.ChatServerChannel.Order.{InOrder, Runs, AllPrompt, channel_started-InOrder}
use project_sos_backend.Chat.Proto.{Notice}
use project_sos_backend.Chat.State.{Chat, Config}
use project_sos_backend.Chat.Machine.{noticed, run}
use project_sos_backend.Chat.Internal.{internal_run, new_internal_session, internal_run-stream}
use project_sos_backend.Base.{ℕ, ◌≡◌, ◌∙◌, true, Option, some, List, map, length, take}

module _ {S : Type 0} (config : Config S) (limiter : Option (RateLimiter S))
    (parse : List ℕ → Option Notice) (serialize : Notice → List ℕ) where
  -- A connection of the room server, where the operations of an earlier one end, without success,
  -- before it is made, and a wait ends early only where the timer was set anew or the channel is
  -- stopped: when the frames accepted on it are those of sendable notices, then however
  -- TCP cuts what was written into reads, the chat server processes the first of these notices, in
  -- order, as many as there are frames written.
  pub channel_started-delivered :
      (events : List (ChannelEvent Notice)) (c : Channel) (notices : List Notice)
      (reads : List (List ℕ)) (w : Chat S)
      → AllPrompt serialize events (do_resolve_and_connect new_channel)
      → channel_started serialize events ≡ some c
      → c.connected ≡ true
      → c.accepted ≡ map (encode serialize) notices
      → AllSendable parse serialize notices
      → joined parse serialize reads ≡ flat c.written
      → internal_run config parse (map some reads) new_internal_session w ≡ (
        new_internal_session,
        run config limiter (map noticed (take (length c.written) notices)) w,
      )
  channel_started-delivered events c notices reads w prompt runs live frames sendable bytes =
      let order : InOrder c =
        subst (Runs InOrder) runs (channel_started-InOrder serialize events prompt) in
      internal_run-stream config limiter parse serialize (take (length c.written) notices) reads w
        (AllSendable-take parse serialize (length c.written) notices sendable)
        (bytes
          ∙ flat-prefix parse serialize c.written c.write_queue notices (order.all live ∙ frames))
