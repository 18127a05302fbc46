-- ===== src/WriteQueue.antt =====
-- `write_queue_`, `send`, `doWrite` and `close` of src/room/server/ClientSession.cpp,
-- src/room/internal/GameServerSession.cpp and src/chat/server/ChatSession.cpp, which are the same but
-- for the first line of `ChatSession::send`. What the operating system does with the bytes of an
-- `async_write`, and when its handler runs, is an event.
pub mod Order
pub mod Delivery
pub mod Tests
use project_sos_backend.Codec.{encode}
use project_sos_backend.Base.{
  ℕ, Bool, true, false, ◌&&◌, Option, none, some, List, [], ◌∷◌, ◌++◌, if◌then◌else◌,
}

pub record Socket : Type 0 where
  pub closed : Bool
  pub write_queue : List (List ℕ)
  -- the buffers of the writes whose handler has not run yet, the oldest first
  pub in_flight : List (List ℕ)
  -- the frames that have been written, in order
  pub written : List (List ℕ)

abbrev pub new_socket : Socket
new_socket = record { closed = false; write_queue = []; in_flight = []; written = [] }

abbrev pub is_empty : List (List ℕ) → Bool
is_empty [] = true
is_empty (_ ∷ _) = false

-- `async_write` of the front of the queue.
unfoldable pub do_write : Socket → Socket
do_write s = elim s.write_queue [
  | [] ↦ s
  | front ∷ _ ↦ record s { in_flight = s.in_flight ++ front ∷ [] }
]

unfoldable pub enqueue : List ℕ → Socket → Socket
unfolding do_write
enqueue frame s =
    let was_idle = is_empty s.write_queue in
    let s1 = record s { write_queue = s.write_queue ++ frame ∷ [] } in
    if was_idle then do_write s1 else s1

-- `if (closed_) return; closed_ = true;` and the end of the socket. The queue stays.
unfoldable pub shut : Socket → Socket
shut s = record s { closed = true }

-- The handler of the oldest write. `none` is `pop_front` on an empty queue, which is undefined; with no
-- write under way there is no handler.
unfoldable pub write_handler : Bool → Socket → Option Socket
unfolding do_write shut
write_handler failed s = elim s.in_flight [
  | [] ↦ some s
  | frame ∷ rest ↦
      let s1 = record s { in_flight = rest } in
      if failed then some (shut s1) else elim s1.write_queue [
        | [] ↦ none
        | _ ∷ queue ↦
            some (do_write (record s1 { write_queue = queue; written = s1.written ++ frame ∷ [] }))
      ]
]

pub data WriteEvent (M : Type 0) : Type 0 where
  sent : M → WriteEvent M
  -- whether the write has failed
  handled : Bool → WriteEvent M
  shut_down : WriteEvent M

-- `drops` tells a `ChatSession`, whose `send` drops what comes after `close`.
module _ {M : Type 0} (serialize : M → List ℕ) (drops : Bool) where
  unfoldable pub send_message : M → Socket → Socket
  unfolding enqueue encode
  send_message m s = if drops && s.closed then s else enqueue (encode serialize m) s

  unfoldable pub write_step : WriteEvent M → Socket → Option Socket
  unfolding send_message write_handler shut
  write_step (sent m) s = some (send_message m s)
  write_step (handled failed) s = write_handler failed s
  write_step shut_down s = some (shut s)

  unfoldable pub write_run : List (WriteEvent M) → Socket → Option Socket
  write_run [] s = some s
  write_run (e ∷ events) s = elim (write_step e s) [ none ↦ none | some s1 ↦ write_run events s1 ]
