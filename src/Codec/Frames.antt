-- ===== src/Codec/Frames.antt =====
-- One frame of src/common/protocol/Codec.h: the length prefix, and what a call of `tryDecode` does
-- with a frame that is whole, cut off, too long or not parsed.
use Prim.Native.Nat.{bit_or}
use project_sos_backend.Base.Bits.{bit_or_shifted}
use project_sos_backend.Base.{
  ℕ, ◌+◌, ◌*◌, ◌/◌, ◌%◌, ◌^◌, ◌≤◌, ◌<◌, ◌≡◌, ◌∙◌, Option, none, some, List, ◌++◌, length, take,
  drop, arith, length-append, take_prefix, drop_prefix, get_or-append, drop-drop, append_assoc,
}
use project_sos_backend.Codec.{prefix_length, header, max_message_size, try_decode}

or_bytes :
    (a b c d : ℕ)
    → a < 256
    → b < 256
    → c < 256
    → bit_or (bit_or (bit_or a (b * 2 ^ 8)) (c * 2 ^ 16)) (d * 2 ^ 24)
      ≡ a + b * 2 ^ 8 + c * 2 ^ 16 + d * 2 ^ 24
or_bytes a b c d ha hb hc = omega (arith, bit_or_shifted 8 b a (omega arith), two, three)
  where
    two : bit_or (bit_or a (b * 2 ^ 8)) (c * 2 ^ 16) ≡ a + b * 2 ^ 8 + c * 2 ^ 16
    two =
        rw (bit_or_shifted 8 b a (omega arith)) (bit_or_shifted 16 c (a + b * 2 ^ 8) (omega arith))

    three :
        bit_or (bit_or (bit_or a (b * 2 ^ 8)) (c * 2 ^ 16)) (d * 2 ^ 24)
        ≡ a + b * 2 ^ 8 + c * 2 ^ 16 + d * 2 ^ 24
    three = rw two (bit_or_shifted 24 d (a + b * 2 ^ 8 + c * 2 ^ 16) (omega arith))

pub prefix_length-header :
    (n : ℕ) (rest : List ℕ) → n < 2 ^ 32 → prefix_length (header n ++ rest) ≡ n
unfolding prefix_length header
prefix_length-header n rest h =
    or_bytes (n % 256) (n / 2 ^ 8 % 256) (n / 2 ^ 16 % 256) (n / 2 ^ 24 % 256) (omega arith)
      (omega arith) (omega arith)
    ∙ omega arith

pub prefix_length-append :
    (part rest : List ℕ) → 4 ≤ length part → prefix_length (part ++ rest) ≡ prefix_length part
unfolding prefix_length
prefix_length-append part rest h = rw (
  get_or-append part rest 0 0 (omega arith),
  get_or-append part rest 1 0 (omega arith),
  get_or-append part rest 2 0 (omega arith),
  get_or-append part rest 3 0 (omega arith),
)

module _ {M : Type 0} (parse : List ℕ → Option M) where
  -- What `tryDecode` makes of a parsed body, with what follows the frame.
  abbrev pub decoded : Option M → List ℕ → Option M × List ℕ
  decoded none rest = (none, rest)
  decoded (some message) rest = (some message, rest)

  try_decode-split :
      (buffer body rest : List ℕ)
      → prefix_length buffer ≤ max_message_size
      → 4 + prefix_length buffer ≤ length buffer
      → take (prefix_length buffer) (drop 4 buffer) ≡ body
      → drop (4 + prefix_length buffer) buffer ≡ rest
      → try_decode parse buffer ≡ decoded (parse body) rest
  unfolding try_decode
  try_decode-split buffer body rest small whole e e' = ground arith

  pub try_decode-frame :
      (body rest : List ℕ)
      → length body ≤ max_message_size
      → try_decode parse (header (length body) ++ body ++ rest) ≡ decoded (parse body) rest
  try_decode-frame body rest h =
      try_decode-split (header n ++ body ++ rest) body rest (rw size h)
        (rw size (unfold header in omega (arith, length-append body rest)))
        (rw size (unfold header in take_prefix body rest))
        (rw size (unfold header in rw drop-drop (drop_prefix body rest)))
    where
      n : ℕ
      n = length body

      size : prefix_length (header n ++ body ++ rest) ≡ n
      size = rw append_assoc (prefix_length-header n (body ++ rest) (omega arith))

  pub try_decode-short :
      (buffer : List ℕ) → length buffer < 4 → try_decode parse buffer ≡ (none, buffer)
  unfolding try_decode
  try_decode-short buffer h = ground arith

  pub try_decode-cut :
      (buffer : List ℕ)
      → 4 ≤ length buffer
      → prefix_length buffer ≤ max_message_size
      → length buffer < 4 + prefix_length buffer
      → try_decode parse buffer ≡ (none, buffer)
  unfolding try_decode
  try_decode-cut buffer h k l = ground arith
