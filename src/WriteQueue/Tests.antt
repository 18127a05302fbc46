-- ===== src/WriteQueue/Tests.antt =====
-- A session's write queue at concrete events.
use project_sos_backend.Codec.{encode, header}
use project_sos_backend.Codec.Tests.{own_bytes}
use project_sos_backend.WriteQueue.{
  Socket, new_socket, do_write, enqueue, WriteEvent, sent, handled, send_message, write_handler,
  write_step, write_run,
}
use project_sos_backend.WriteQueue.Order.{accepted, encoded}
use project_sos_backend.WriteQueue.Delivery.{successes, write_run-successes}
use project_sos_backend.Base.{ℕ, ◌≡◌, refl, false, some, List, [], ◌∷◌}

-- Two messages are sent, and the first has been written.
abbrev two_sent : List (WriteEvent (List ℕ))
two_sent = sent (7 ∷ 8 ∷ []) ∷ sent (9 ∷ []) ∷ handled false ∷ []

abbrev one_left : Socket
one_left = record {
  closed = false;
  write_queue = (1 ∷ 0 ∷ 0 ∷ 0 ∷ 9 ∷ []) ∷ [];
  in_flight = (1 ∷ 0 ∷ 0 ∷ 0 ∷ 9 ∷ []) ∷ [];
  written = (2 ∷ 0 ∷ 0 ∷ 0 ∷ 7 ∷ 8 ∷ []) ∷ [];
}

runs_two_sent : write_run own_bytes false two_sent new_socket ≡ some one_left
unfolding write_run write_step send_message write_handler enqueue do_write encode header
runs_two_sent = refl

write_run-successes_example :
    write_run own_bytes false (successes 1) one_left
    ≡ some (record {
      closed = false;
      write_queue = [];
      in_flight = [];
      written = encoded own_bytes false (accepted own_bytes false two_sent new_socket);
    })
write_run-successes_example =
    write_run-successes own_bytes false two_sent one_left runs_two_sent refl
