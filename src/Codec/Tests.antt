-- ===== src/Codec/Tests.antt =====
-- The codec at concrete messages: a message is a list of bytes and is its own serialization, but
-- for one that starts with the byte 255.
use project_sos_backend.Codec.{max_message_size, encode, header, receive, receive_all}
use project_sos_backend.Codec.Stream.{
  frame, stream, receive_all-stream, receive-malformed, receive-encode_oversized,
}
use project_sos_backend.Base.{
  ℕ, zero, suc, ◌+◌, ◌≡◌, refl, ap, Option, none, some, List, [], ◌∷◌, ◌++◌, length, eqb,
  if◌then◌else◌, arith,
}

abbrev pub parse_bytes : List ℕ → Option (List ℕ)
parse_bytes [] = some []
parse_bytes (b ∷ bytes) = if eqb b 255 then none else some (b ∷ bytes)

abbrev pub own_bytes : List ℕ → List ℕ
own_bytes bytes = bytes

-- Two messages whose bytes come in three reads, none of which ends at the end of a frame.
receive_all-stream_example :
    receive_all parse_bytes [] ((2 ∷ []) ∷ (0 ∷ 0 ∷ 0 ∷ 7 ∷ 8 ∷ 1 ∷ 0 ∷ []) ∷ (0 ∷ 0 ∷ 9 ∷ []) ∷ [])
    ≡ ((7 ∷ 8 ∷ []) ∷ (9 ∷ []) ∷ [], [])
unfolding encode header
receive_all-stream_example =
    receive_all-stream parse_bytes own_bytes ((7 ∷ 8 ∷ []) ∷ (9 ∷ []) ∷ [])
      ((2 ∷ []) ∷ (0 ∷ 0 ∷ 0 ∷ 7 ∷ 8 ∷ 1 ∷ 0 ∷ []) ∷ (0 ∷ 0 ∷ 9 ∷ []) ∷ [])
      ((omega arith, refl), ((omega arith, refl), tt)) refl

receive-malformed_example :
    receive parse_bytes [] (frame (255 ∷ []) ++ stream parse_bytes own_bytes ((9 ∷ []) ∷ []))
    ≡ ([], stream parse_bytes own_bytes ((9 ∷ []) ∷ []))
receive-malformed_example =
    receive-malformed parse_bytes own_bytes (255 ∷ []) ((9 ∷ []) ∷ []) (omega arith) refl
      ((omega arith, refl), tt)

-- A message that is serialized as `n` zeros.
unfoldable zeros : ℕ → List ℕ
zeros zero = []
zeros (suc n) = 0 ∷ zeros n

length-zeros : (n : ℕ) → length (zeros n) ≡ n
unfolding zeros
length-zeros zero = refl
length-zeros (suc n) = ap suc (length-zeros n)

abbrev never : List ℕ → Option ℕ
never _ = none

receive-encode_oversized_example :
    receive never [] (encode zeros (max_message_size + 1) ++ 1 ∷ 0 ∷ []) ≡ ([], [])
receive-encode_oversized_example =
    receive-encode_oversized never zeros (max_message_size + 1) (1 ∷ 0 ∷ [])
      (omega (arith, length-zeros (max_message_size + 1)))
      (omega (arith, length-zeros (max_message_size + 1)))
