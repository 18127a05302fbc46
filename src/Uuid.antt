-- ===== src/Uuid.antt =====
-- src/common/util/UuidGenerator.cpp: the text of a version 4 UUID, made of four random words. The
-- random numbers of `std::mt19937` are the arguments, and a character is its code.
pub mod Layout
pub mod Distinct
pub mod Tests
use Prim.Native.Nat.{bit_and, bit_or}
use project_sos_backend.Base.{
  ℕ, zero, suc, ◌+◌, ◌-◌, ◌/◌, ◌%◌, ◌^◌, List, [], ◌∷◌, ◌++◌, length, take, ltb, if◌then◌else◌,
}

-- `0` to `9` and `a` to `f`
unfoldable pub hex_digit : ℕ → ℕ
hex_digit d = if ltb d 10 then 48 + d else 87 + d

-- `%x`, with no leading zeros: the digits of a number below `16 ^ suc more`.
unfoldable pub hex : ℕ → ℕ → List ℕ
unfolding hex_digit
hex zero n = hex_digit n ∷ []
hex (suc more) n =
    let rest = hex more (n / 16) in
    if ltb n 16 then hex_digit n ∷ [] else rest ++ hex_digit (n % 16) ∷ []

unfoldable pub zeros : ℕ → List ℕ
zeros zero = []
zeros (suc n) = 48 ∷ zeros n

-- `%0wx` of an `unsigned`: at least `width` characters.
unfoldable pub padded_hex : ℕ → ℕ → List ℕ
unfolding hex zeros
padded_hex width n = let digits = hex 7 n in zeros (width - length digits) ++ digits

-- The version, and then the variant.
unfoldable pub version_word : ℕ → ℕ
version_word d = bit_or (bit_and d 0xFFFF0FFF) 0x00004000

unfoldable pub variant_word : ℕ → ℕ
variant_word d = bit_or (bit_and d 0x3FFFFFFF) 0x80000000

-- `snprintf` into `buf[37]` keeps 36 characters before the end of the text.
unfoldable pub generate_uuid : ℕ → ℕ → ℕ → ℕ → List ℕ
unfolding version_word variant_word padded_hex
generate_uuid d0 d1 d2 d3 =
    let e1 = version_word d1 in
    let e2 = variant_word d2 in
    take 36 (
      padded_hex 8 d0
      ++ 45 ∷ padded_hex 4 (e1 / 2 ^ 16)
      ++ 45 ∷ padded_hex 4 (bit_and e1 0xFFFF)
      ++ 45 ∷ padded_hex 4 (e2 / 2 ^ 16)
      ++ 45 ∷ padded_hex 4 (bit_and e2 0xFFFF)
      ++ padded_hex 8 d3)
