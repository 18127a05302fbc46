-- ===== src/Codec/Stream.antt =====
-- Streams of frames: the read loops of ClientSession, ChatSession, GameServerSession and
-- InternalSession over src/common/protocol/Codec.h.
use project_sos_backend.Base.{
  ℕ, zero, suc, ◌+◌, ◌%◌, ◌^◌, ◌≤◌, ◌<◌, ◌≡◌, refl, sym, ap, ◌∙◌, inl, inr, Option, none, some,
  List, [], ◌∷◌, ◌++◌, length, take, arith, length-append, le_or_lt, append_split, take_all,
  append-nil, append_assoc,
}
use project_sos_backend.Codec.{
  prefix_length, header, max_message_size, try_decode, encode, feed, drain, receive, receive_all,
}
use project_sos_backend.Codec.Frames.{
  decoded, prefix_length-header, prefix_length-append, try_decode-frame, try_decode-short,
  try_decode-cut,
}

-- The bytes of a frame around a body.
abbrev pub frame : List ℕ → List ℕ
frame body = header (length body) ++ body

length-frame : (body : List ℕ) → length (frame body) ≡ 4 + length body
unfolding header
length-frame body = omega arith

module _ {M : Type 0} (parse : List ℕ → Option M) (serialize : M → List ℕ) where
  encode-frame :
      (m : M) → length (serialize m) ≤ max_message_size → encode serialize m ≡ frame (serialize m)
  unfolding encode
  encode-frame m h =
      let e : length (serialize m) % 2 ^ 32 ≡ length (serialize m) = omega arith in
      rw e (ap (◌++◌ (header (length (serialize m)))) (take_all (serialize m)))

  -- The message is small enough for the receiver, and parses to itself.
  abbrev pub IsSendable : M → Type 0
  IsSendable m = (length (serialize m) ≤ max_message_size) × (parse (serialize m) ≡ some m)

  abbrev pub AllSendable : List M → Type 0
  AllSendable [] = Unit
  AllSendable (m ∷ ms) = IsSendable m × AllSendable ms

  -- The bytes that the peer writes for a sequence of messages.
  abbrev pub stream : List M → List ℕ
  stream [] = []
  stream (m ∷ ms) = encode serialize m ++ stream ms

  -- Decoding an encoded message that is sendable, which is at most a megabyte and parses to
  -- itself, gives it back, and leaves what follows it in the buffer.
  pub try_decode-encode :
      (m : M) (rest : List ℕ)
      → IsSendable m
      → try_decode parse (encode serialize m ++ rest) ≡ (some m, rest)
  try_decode-encode m rest h =
      rw (encode-frame m h.0)
        (try_decode-frame parse (serialize m) rest h.0 ∙ ap (λ r. decoded parse r rest) h.1)

  length-encode : (m : M) → IsSendable m → length (encode serialize m) ≡ 4 + length (serialize m)
  length-encode m h = rw (encode-frame m h.0) (length-frame (serialize m))

  -- A proper beginning of a frame is left in the buffer.
  try_decode-part :
      (m : M) (part missing rest : List ℕ)
      → IsSendable m
      → part ++ missing ≡ encode serialize m ++ rest
      → length part < length (encode serialize m)
      → try_decode parse part ≡ (none, part)
  try_decode-part m part missing rest h e short = elim (le_or_lt 4 (length part)) [
    | inr few ↦ try_decode-short parse part few
    | inl enough ↦
        let size = part_prefix enough in
        try_decode-cut parse part enough (rw size h.0) (rw size (omega (arith, length-encode m h)))
  ]
    where
      part_prefix : 4 ≤ length part → prefix_length part ≡ length (serialize m)
      part_prefix enough =
          sym (prefix_length-append part missing enough)
          ∙ rw (e, encode-frame m h.0, append_assoc)
              (prefix_length-header (length (serialize m)) (serialize m ++ rest) (omega arith))

  -- What is left in the buffer while the messages `later` are still to come.
  abbrev Waits : List M → List ℕ → Type 0
  Waits [] left = left ≡ []
  Waits (m ∷ later) left = length left < length (encode serialize m)

  record Resumes (ms : List M) (q : List ℕ) (got : List M × List ℕ) : Type 0 where
    later : List M
    splits : ms ≡ got.0 ++ later
    resumes : got.1 ++ q ≡ stream later
    sendable : AllSendable later
    waits : Waits later got.1

  drain-none :
      (fuel : ℕ) (p : List ℕ) → try_decode parse p ≡ (none, p) → drain parse (suc fuel) p ≡ ([], p)
  unfolding drain
  drain-none fuel p e = ground arith

  drain-some :
      (fuel : ℕ) (p rest : List ℕ) (m : M)
      → try_decode parse p ≡ (some m, rest)
      → drain parse (suc fuel) p ≡ (m ∷ (drain parse fuel rest).0, (drain parse fuel rest).1)
  unfolding drain
  drain-some fuel p rest m e = ground arith

  -- However far into a stream the bytes reach, the loop returns the messages that are whole.
  drain-Resumes :
      (fuel : ℕ) (ms : List M) (p q : List ℕ)
      → AllSendable ms
      → length p < fuel
      → p ++ q ≡ stream ms
      → Resumes ms q (drain parse fuel p)
  drain-Resumes zero ms p q h l e = elim l [ ]
  drain-Resumes (suc fuel) [] [] q h l e =
      rw (drain-none fuel [] (try_decode-short parse [] (omega arith)))
        (record { later = []; splits = refl; resumes = e; sendable = tt; waits = refl })
  drain-Resumes (suc fuel) [] (x ∷ p) q h l e = cc
  drain-Resumes (suc fuel) (m ∷ ms) p q h l e =
      elim (le_or_lt (length (encode serialize m)) (length p)) [
        | inr short ↦
            rw (drain-none fuel p (try_decode-part m p q (stream ms) h.0 e short))
              (record { later = m ∷ ms; splits = refl; resumes = e; sendable = h; waits = short })
        | inl long ↦
            let (r, split, tail) = append_split (encode serialize m) (stream ms) p q long e in
            let rec =
              drain-Resumes fuel ms r q h.1
                (omega (
                  arith,
                  length-encode m h.0,
                  ap length split,
                  length-append (encode serialize m) r,
                ))
                tail in
            rw (drain-some fuel p r m (rw split (try_decode-encode m r h.0))) (record {
              later = rec.later;
              splits = ap (◌∷◌ m) rec.splits;
              resumes = rec.resumes;
              sendable = rec.sendable;
              waits = rec.waits;
            })
      ]

  -- At the end of the stream no message is missing and nothing is left.
  Resumes-all : (ms : List M) (got : List M × List ℕ) → Resumes ms [] got → got ≡ (ms, [])
  Resumes-all ms got r = finish r.later r.sendable r.splits r.resumes r.waits
    where
      finish :
          (later : List M)
          → AllSendable later
          → ms ≡ got.0 ++ later
          → got.1 ++ [] ≡ stream later
          → Waits later got.1
          → got ≡ (ms, [])
      finish [] s e f w = cc (append-nil got.0)
      finish (m ∷ later) s e f w = absurd (
          omega (
            arith,
            ap length f,
            length-append got.1 [],
            length-append (encode serialize m) (stream later),
          ))

  -- The concatenation of the reads of a connection.
  abbrev pub joined : List (List ℕ) → List ℕ
  joined [] = []
  joined (bytes ∷ reads) = bytes ++ joined reads

  receive_all-resumed :
      (reads : List (List ℕ)) (buffer : List ℕ) (ms : List M)
      → AllSendable ms
      → Waits ms buffer
      → buffer ++ joined reads ≡ stream ms
      → receive_all parse buffer reads ≡ (ms, [])
  unfolding receive_all receive feed
  receive_all-resumed [] buffer ms h w e =
      Resumes-all ms ([], buffer)
        (record { later = ms; splits = refl; resumes = e; sendable = h; waits = w })
  receive_all-resumed (bytes ∷ reads) buffer ms h w e =
      let r =
        drain-Resumes (suc (length (buffer ++ bytes))) ms (buffer ++ bytes) (joined reads) h
          (omega arith) (append_assoc buffer bytes (joined reads) ∙ e) in
      let later =
        receive_all-resumed reads (drain parse (suc (length (buffer ++ bytes))) (buffer ++ bytes)).1
          r.later r.sendable r.waits r.resumes in
      rw later (cc r.splits)

  -- However TCP cuts the bytes of a sequence of sendable messages into reads, the read loop hands
  -- on these messages, in their order, and nothing is left in the buffer.
  pub receive_all-stream :
      (ms : List M) (reads : List (List ℕ))
      → AllSendable ms
      → joined reads ≡ stream ms
      → receive_all parse [] reads ≡ (ms, [])
  receive_all-stream [] reads h e = receive_all-resumed reads [] [] h refl e
  receive_all-stream (m ∷ ms) reads h e =
      receive_all-resumed reads [] (m ∷ ms) h (omega (arith, length-encode m h.0)) e

  -- A frame of more than a megabyte empties the buffer: all that came with it is lost.
  pub try_decode-oversized :
      (buffer : List ℕ)
      → 4 ≤ length buffer
      → max_message_size < prefix_length buffer
      → try_decode parse buffer ≡ (none, [])
  unfolding try_decode
  try_decode-oversized buffer h l = ground arith

  -- A whole frame of at most a megabyte that does not parse, read into an empty buffer together
  -- with sendable messages behind it, ends the loop with no message: the whole messages behind it
  -- stay in the buffer.
  pub receive-malformed :
      (body : List ℕ) (ms : List M)
      → length body ≤ max_message_size
      → parse body ≡ none
      → AllSendable ms
      → receive parse [] (frame body ++ stream ms) ≡ ([], stream ms)
  unfolding receive feed drain
  receive-malformed body ms h bad s =
      let e : try_decode parse (frame body ++ stream ms) ≡ (none, stream ms) =
        try_decode-frame parse body (stream ms) h ∙ ap (λ r. decoded parse r (stream ms)) bad in
      ground (arith, e)

  -- A message of more than a megabyte and less than 2 ^ 32 bytes is encoded all the same, and a
  -- receiver with an empty buffer drops it together with everything that arrived behind it in the
  -- same read.
  pub receive-encode_oversized :
      (m : M) (rest : List ℕ)
      → max_message_size < length (serialize m)
      → length (serialize m) < 2 ^ 32
      → receive parse [] (encode serialize m ++ rest) ≡ ([], [])
  unfolding receive feed drain encode header
  receive-encode_oversized m rest large word =
      let n = length (serialize m) in
      let small : n % 2 ^ 32 ≡ n = omega arith in
      let body = take n (serialize m) in
      let size : prefix_length (header n ++ body ++ rest) ≡ n =
        prefix_length-header n (body ++ rest) word in
      let e : try_decode parse (header n ++ body ++ rest) ≡ (none, []) =
        try_decode-oversized (header n ++ body ++ rest) (omega arith) (omega (arith, size)) in
      ground (arith, small, e)
