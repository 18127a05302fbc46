-- ===== src/Acceptor/Tests.antt =====
-- An acceptor at concrete events.
use project_sos_backend.Acceptor.{AcceptorEvent, socket, failed, accept_ended, start, acceptor_run}
use project_sos_backend.Acceptor.Laws.{served, acceptor_run-start}
use project_sos_backend.Base.{ℕ, ◌≡◌, List, [], ◌∷◌}

-- Two clients connect, an accept fails, and a third client comes.
abbrev three_clients : List (AcceptorEvent ℕ)
three_clients =
    accept_ended (socket 1)
    ∷ accept_ended (socket 2)
    ∷ accept_ended failed
    ∷ accept_ended (socket 3)
    ∷ []

acceptor_run-start_example : (acceptor_run three_clients start).started ≡ 1 ∷ 2 ∷ []
unfolding served
acceptor_run-start_example = acceptor_run-start three_clients
