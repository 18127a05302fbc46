-- ===== src/Codec.antt =====
-- src/common/protocol/Codec.h: frames of a four byte little-endian length and a serialized message.
-- A byte is a number below 256 and `buffer_` is a list of bytes. Protocol Buffers are not part of
-- the repository: `ParseFromArray` and `SerializeAsString` are the parameters `parse` and
-- `serialize`.
pub mod Frames
pub mod Stream
pub mod Tests
use Prim.Native.Nat.{bit_or}
use project_sos_backend.Base.{
  ℕ, zero, suc, ◌+◌, ◌*◌, ◌/◌, ◌%◌, ◌^◌, Option, none, some, List, [], ◌∷◌, ◌++◌, length, take,
  drop, get_or, ltb, if◌then◌else◌,
}

abbrev pub max_message_size : ℕ
max_message_size = 1024 * 1024

-- The length prefix, read from the first four bytes.
unfoldable pub prefix_length : List ℕ → ℕ
prefix_length buffer =
    bit_or
      (bit_or (bit_or (get_or buffer 0 0) (get_or buffer 1 0 * 2 ^ 8)) (get_or buffer 2 0 * 2 ^ 16))
      (get_or buffer 3 0 * 2 ^ 24)

unfoldable pub feed : List ℕ → List ℕ → List ℕ
feed buffer bytes = buffer ++ bytes

-- `static_cast<uint8_t>(length >> 8 * i)` for the four bytes of a `uint32_t`.
unfoldable pub header : ℕ → List ℕ
header n = n % 256 ∷ n / 2 ^ 8 % 256 ∷ n / 2 ^ 16 % 256 ∷ n / 2 ^ 24 % 256 ∷ []

module _ {M : Type 0} (parse : List ℕ → Option M) where
  -- The result and the buffer that is left.
  unfoldable pub try_decode : List ℕ → Option M × List ℕ
  try_decode buffer =
      let n = prefix_length buffer in
      if ltb (length buffer) 4
      then (none, buffer)
      else if ltb max_message_size n
      then (none, [])
      else if ltb (length buffer) (4 + n)
      then (none, buffer)
      else elim (parse (take n (drop 4 buffer))) [
        | none ↦ (none, drop (4 + n) buffer)
        | some message ↦ (some message, drop (4 + n) buffer)
      ]

  -- `while (auto envelope = codec_.tryDecode())`, the messages in the order of the calls. The
  -- loop of the sessions runs as long as a message comes, at most once for each four bytes.
  unfoldable pub drain : ℕ → List ℕ → List M × List ℕ
  drain zero buffer = ([], buffer)
  drain (suc fuel) buffer =
      let (r, rest) = try_decode buffer in
      elim r [
        | none ↦ ([], rest)
        | some message ↦ let (ms, left) = drain fuel rest in (message ∷ ms, left)
      ]

  -- One `async_read_some`: feed what was read, then drain.
  unfoldable pub receive : List ℕ → List ℕ → List M × List ℕ
  receive buffer bytes = let buffer' = feed buffer bytes in drain (suc (length buffer')) buffer'

  -- The reads of a connection, one after the other.
  unfoldable pub receive_all : List ℕ → List (List ℕ) → List M × List ℕ
  receive_all buffer [] = ([], buffer)
  receive_all buffer (bytes ∷ reads) =
      let (ms, rest) = receive buffer bytes in
      let (ms', left) = receive_all rest reads in (ms ++ ms', left)

-- The length is a `uint32_t`, and `memcpy` copies that many bytes.
unfoldable pub encode : {M : Type 0} → (M → List ℕ) → M → List ℕ
encode serialize message =
    let serialized = serialize message in
    let n = length serialized % 2 ^ 32 in header n ++ take n serialized
