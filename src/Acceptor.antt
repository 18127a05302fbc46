-- ===== src/Acceptor.antt =====
-- src/room/server/RoomServer.cpp, and src/room/internal/GameServerChannel.cpp,
-- src/chat/server/ChatServer.cpp and src/chat/internal/InternalChannel.cpp, which accept in the same
-- way. `A` is the type of sockets; the session that is made of each is started at once.
pub mod Laws
pub mod Tests
use project_sos_backend.Base.{
  ℕ, zero, suc, Bool, true, false, Option, none, some, List, [], ◌∷◌, ◌++◌, if◌then◌else◌,
}

pub record Acceptor (A : Type 0) : Type 0 where
  pub closed : Bool
  -- calls of `async_accept` under way
  pub accepts : ℕ
  -- the sockets of the sessions that were started
  pub started : List A

-- The result of an accept.
pub data Accepted (A : Type 0) : Type 0 where
  socket : A → Accepted A
  -- `operation_aborted`, or another error, which is logged
  aborted failed : Accepted A

pub data AcceptorEvent (A : Type 0) : Type 0 where
  accept_ended : Accepted A → AcceptorEvent A
  stopped : AcceptorEvent A

module _ {A : Type 0} where
  unfoldable pub do_accept : Acceptor A → Acceptor A
  do_accept a = record a { accepts = suc a.accepts }

  unfoldable pub start : Acceptor A
  unfolding do_accept
  start = do_accept (record { closed = false; accepts = 0; started = [] })

  unfoldable pub stop : Acceptor A → Acceptor A
  stop a = record a { closed = true }

  unfoldable pub accept_handler : Accepted A → Acceptor A → Acceptor A
  unfolding do_accept
  accept_handler (socket s) a = do_accept (record a { started = a.started ++ s ∷ [] })
  accept_handler aborted a = a
  accept_handler failed a = a

  -- With no accept under way there is no handler to run.
  unfoldable pub acceptor_step : AcceptorEvent A → Acceptor A → Acceptor A
  unfolding accept_handler stop
  acceptor_step (accept_ended r) a = elim a.accepts [
    | zero ↦ a
    | suc n ↦ accept_handler r (record a { accepts = n })
  ]
  acceptor_step stopped a = stop a

  unfoldable pub acceptor_run : List (AcceptorEvent A) → Acceptor A → Acceptor A
  acceptor_run [] a = a
  acceptor_run (e ∷ events) a = acceptor_run events (acceptor_step e a)
