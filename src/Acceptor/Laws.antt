-- ===== src/Acceptor/Laws.antt =====
-- Which sockets src/room/server/RoomServer.cpp makes sessions of.
use project_sos_backend.Acceptor.{
  Acceptor, socket, aborted, failed, AcceptorEvent, accept_ended, stopped, do_accept, start, stop,
  accept_handler, acceptor_step, acceptor_run,
}
use project_sos_backend.Base.{
  ◌≡◌, refl, sym, append-nil, ◌∙◌, List, [], ◌∷◌, ◌++◌, append_assoc, arith,
}

-- The sockets before the first accept that fails.
unfoldable pub served : {A : Type 0} → List (AcceptorEvent A) → List A
served [] = []
served (accept_ended (socket s) ∷ events) = s ∷ served events
served (accept_ended aborted ∷ events) = []
served (accept_ended failed ∷ events) = []
served (stopped ∷ events) = served events

module _ {A : Type 0} where
  acceptor_run-idle :
      (events : List (AcceptorEvent A)) (a : Acceptor A)
      → a.accepts ≡ 0
      → (acceptor_run events a).started ≡ a.started
  unfolding acceptor_run acceptor_step stop
  acceptor_run-idle [] a idle = refl
  acceptor_run-idle (accept_ended r ∷ events) a idle =
      let e : acceptor_step (accept_ended r) a ≡ a = ground arith in
      rw (e, acceptor_run) (acceptor_run-idle events a idle)
  acceptor_run-idle (stopped ∷ events) a idle = acceptor_run-idle events (stop a) idle

  -- The accept under way has failed.
  ended :
      (events : List (AcceptorEvent A)) (b : Acceptor A) (e : AcceptorEvent A) (a : Acceptor A)
      → b.accepts ≡ 0
      → b.started ≡ a.started
      → acceptor_step e a ≡ b
      → (acceptor_run (e ∷ events) a).started ≡ a.started ++ []
  unfolding acceptor_run
  ended events b e a idle same next =
      rw (next, acceptor_run) (acceptor_run-idle events b idle ∙ same ∙ sym (append-nil a.started))

  acceptor_run-served :
      (events : List (AcceptorEvent A)) (a : Acceptor A)
      → a.accepts ≡ 1
      → (acceptor_run events a).started ≡ a.started ++ served events
  unfolding acceptor_run served acceptor_step stop accept_handler do_accept
  acceptor_run-served [] a one = sym (append-nil a.started)
  acceptor_run-served (accept_ended (socket s) ∷ events) a one =
      let a1 : Acceptor A = record a { started = a.started ++ s ∷ [] } in
      let e : acceptor_step (accept_ended (socket s)) a ≡ a1 = ground arith in
      rw (e, acceptor_run)
        (acceptor_run-served events a1 one ∙ append_assoc a.started (s ∷ []) (served events))
  acceptor_run-served (accept_ended aborted ∷ events) a one =
      ended events (record a { accepts = 0 }) (accept_ended aborted) a refl refl (ground arith)
  acceptor_run-served (accept_ended failed ∷ events) a one =
      ended events (record a { accepts = 0 }) (accept_ended failed) a refl refl (ground arith)
  acceptor_run-served (stopped ∷ events) a one = acceptor_run-served events (stop a) one

  -- An acceptor that was started makes a session of each socket that it accepts, in order, up to the
  -- first accept that fails for whatever reason, and of none after it.
  pub acceptor_run-start :
      (events : List (AcceptorEvent A)) → (acceptor_run events start).started ≡ served events
  unfolding start do_accept
  acceptor_run-start events = acceptor_run-served events start refl
