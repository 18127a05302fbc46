-- ===== src/Uuid/Layout.antt =====
-- The layout of the text that src/common/util/UuidGenerator.cpp makes.
use Prim.Native.Nat.{bit_and, bit_or}
use native.Mathlib.Nat.{pow-suc, one-le-pow}
use project_sos_backend.Base.Bits.{
  bit_and_split, bit_and_ones, bit_and_ones_low, bit_or_split, bit_or_shifted,
}
use project_sos_backend.Uuid.{
  hex_digit, hex, zeros, padded_hex, version_word, variant_word, generate_uuid,
}
use project_sos_backend.Base.{
  ℕ, zero, suc, ◌+◌, ◌-◌, ◌*◌, ◌/◌, ◌%◌, ◌^◌, ◌≤◌, ◌<◌, ◌≡◌, refl, sym, ap, ◌∙◌, List, [], ◌∷◌,
  ◌++◌, length, take, take_all, le_or_lt, length-append, append_assoc, inl, inr, arith,
}

-- Exactly `width` hexadecimal digits.
unfoldable pub fixed_hex : ℕ → ℕ → List ℕ
fixed_hex zero n = []
fixed_hex (suc width) n = fixed_hex width (n / 16) ++ hex_digit (n % 16) ∷ []

fixed_hex-suc :
    (width n : ℕ) → fixed_hex (suc width) n ≡ fixed_hex width (n / 16) ++ hex_digit (n % 16) ∷ []
unfolding fixed_hex
fixed_hex-suc width n = refl

zeros-snoc : (n : ℕ) → zeros n ++ 48 ∷ [] ≡ zeros (suc n)
unfolding zeros
zeros-snoc zero = refl
zeros-snoc (suc n) = ap (◌∷◌ 48) (zeros-snoc n)

fixed_hex-zero : (width : ℕ) → fixed_hex width 0 ≡ zeros width
unfolding fixed_hex zeros hex_digit
fixed_hex-zero zero = refl
fixed_hex-zero (suc width) = ap (λ xs. xs ++ 48 ∷ []) (fixed_hex-zero width) ∙ zeros-snoc width

pub length-fixed_hex : (width n : ℕ) → length (fixed_hex width n) ≡ width
unfolding fixed_hex
length-fixed_hex zero n = refl
length-fixed_hex (suc width) n = omega (
  arith,
  length-append (fixed_hex width (n / 16)) (hex_digit (n % 16) ∷ []),
  length-fixed_hex width (n / 16),
)

hex-short : (more n : ℕ) → n < 16 → hex more n ≡ hex_digit n ∷ []
unfolding hex
hex-short zero n h = refl
hex-short (suc more) n h = ground arith

hex-long : (more n : ℕ) → 16 ≤ n → hex (suc more) n ≡ hex more (n / 16) ++ hex_digit (n % 16) ∷ []
unfolding hex
hex-long more n h = ground arith

fixed_hex-short : (width n : ℕ) → n < 16 → fixed_hex (suc width) n ≡ zeros width ++ hex_digit n ∷ []
unfolding fixed_hex
fixed_hex-short width n h =
    ap (λ t. fixed_hex width t ++ hex_digit (n % 16) ∷ []) none_left
    ∙ ap (λ t. fixed_hex width 0 ++ hex_digit t ∷ []) all_kept
    ∙ ap (λ xs. xs ++ hex_digit n ∷ []) (fixed_hex-zero width)
  where
    none_left : n / 16 ≡ 0
    none_left = omega arith

    all_kept : n % 16 ≡ n
    all_kept = omega arith

-- A number that fits the width is padded to it.
hex-fixed_hex :
    (width more n : ℕ)
    → width ≤ more
    → n < 16 ^ suc width
    → zeros (suc width - length (hex more n)) ++ hex more n ≡ fixed_hex (suc width) n
hex-fixed_hex zero more n le fits = rw (hex-short more n fits) (sym (fixed_hex-short 0 n fits))
hex-fixed_hex (suc width) zero n le fits = absurd (omega arith)
hex-fixed_hex (suc width) (suc more) n le fits = elim (le_or_lt 16 n) [
  | inl long ↦
      let d = hex_digit (n % 16) ∷ [] in
      let rest = hex more (n / 16) in
      let count : suc (suc width) - length (rest ++ d) ≡ suc width - length rest =
        omega (arith, length-append rest d) in
      rw
        (
          hex-long more n long,
          count,
          ← append_assoc (zeros (suc width - length rest)) rest d,
          fixed_hex-suc (suc width) n,
        )
        (ap (λ xs. xs ++ d)
          (hex-fixed_hex width more (n / 16) (omega arith) (omega (arith, pow-suc 16 (suc width)))))
  | inr short ↦
      let count : suc (suc width) - 1 ≡ suc width = omega arith in
      rw (hex-short (suc more) n short, count) (sym (fixed_hex-short (suc width) n short))
]

padded_hex-fixed_hex :
    (width n : ℕ)
    → width ≤ 7
    → n < 16 ^ suc width
    → padded_hex (suc width) n ≡ fixed_hex (suc width) n
unfolding padded_hex
padded_hex-fixed_hex width n le fits = hex-fixed_hex width 7 n le fits

bit_and_low : (k d : ℕ) → bit_and d (2 ^ k - 1) ≡ d % 2 ^ k
bit_and_low k d =
    ap (λ t. bit_and t (2 ^ k - 1)) parts ∙ bit_and_ones k (d / 2 ^ k) (d % 2 ^ k) below
  where
    parts : d ≡ d / 2 ^ k * 2 ^ k + d % 2 ^ k
    parts = omega (arith, one-le-pow k 2)

    below : d % 2 ^ k < 2 ^ k
    below = omega (arith, one-le-pow k 2)

-- The two words with their marks, as fields.
version_word_lem :
    (q r : ℕ)
    → q < 2 ^ 16
    → r < 2 ^ 16
    → version_word (q * 2 ^ 16 + r) ≡ q * 2 ^ 16 + (r % 2 ^ 12 + 2 ^ 14)
unfolding version_word
version_word_lem q r h i =
    ap (λ t. bit_or t 0x4000) masked
    ∙ bit_or_split 16 q 0 (r % 2 ^ 12) 0x4000 (omega arith) (omega arith)
    ∙ omega (arith, bit_or_shifted 16 0 q h, bit_or_shifted 14 1 (r % 2 ^ 12) (omega arith))
  where
    masked : bit_and (q * 2 ^ 16 + r) 0xFFFF0FFF ≡ q * 2 ^ 16 + r % 2 ^ 12
    masked =
        bit_and_split 16 q 0xFFFF r 0x0FFF i (omega arith)
        ∙ omega (arith, bit_and_ones_low 16 q h, bit_and_low 12 r)

variant_word_lem : (d : ℕ) → variant_word d ≡ d % 2 ^ 30 + 2 ^ 31
unfolding variant_word
variant_word_lem d =
    ap (λ t. bit_or t 0x80000000) (bit_and_low 30 d)
    ∙ bit_or_shifted 31 1 (d % 2 ^ 30) (omega arith)

-- The top digit.
fixed_hex-top :
    (width q r : ℕ)
    → q < 16
    → r < 16 ^ width
    → fixed_hex (suc width) (q * 16 ^ width + r) ≡ hex_digit q ∷ fixed_hex width r
unfolding fixed_hex
fixed_hex-top zero q zero h i = ap (λ t. hex_digit t ∷ []) (omega arith)
fixed_hex-top zero q (suc r) h i = absurd (omega arith)
fixed_hex-top (suc width) q r h i =
    rw (fixed_hex-suc (suc width) (q * 16 ^ suc width + r), shifted, low, fixed_hex-suc width r)
      (ap (λ xs. xs ++ hex_digit (r % 16) ∷ [])
        (fixed_hex-top width q (r / 16) h (omega (arith, pow-suc 16 width))))
  where
    shifted : (q * 16 ^ suc width + r) / 16 ≡ q * 16 ^ width + r / 16
    shifted = omega (arith, ap (λ (t : ℕ). q * t) (pow-suc 16 width))

    low : (q * 16 ^ suc width + r) % 16 ≡ r % 16
    low = omega (arith, ap (λ (t : ℕ). q * t) (pow-suc 16 width))

-- The text of a version 4 UUID, as the standard lays it out.
abbrev pub layout : ℕ → ℕ → ℕ → ℕ → List ℕ
layout d0 d1 d2 d3 =
    fixed_hex 8 d0
    ++ 45 ∷ fixed_hex 4 (d1 / 2 ^ 16)
    ++ 45 ∷ hex_digit 4 ∷ fixed_hex 3 (d1 % 2 ^ 12)
    ++ 45 ∷ hex_digit (8 + d2 / 2 ^ 28 % 4) ∷ fixed_hex 3 (d2 / 2 ^ 16 % 2 ^ 12)
    ++ 45 ∷ fixed_hex 4 (d2 % 2 ^ 16)
    ++ fixed_hex 8 d3

length-layout : (d0 d1 d2 d3 : ℕ) → length (layout d0 d1 d2 d3) ≡ 36
unfolding fixed_hex
length-layout d0 d1 d2 d3 = refl

version_fields :
    (d : ℕ)
    → d < 2 ^ 32
    → (version_word d / 2 ^ 16 ≡ d / 2 ^ 16)
      × (bit_and (version_word d) 0xFFFF ≡ 4 * 16 ^ 3 + d % 2 ^ 12)
version_fields d h =
    let e : version_word d ≡ d / 2 ^ 16 * 2 ^ 16 + (d % 2 ^ 16 % 2 ^ 12 + 2 ^ 14) =
      ap version_word parts
      ∙ version_word_lem (d / 2 ^ 16) (d % 2 ^ 16) (omega arith) (omega arith) in
    (omega (arith, e), omega (arith, e, bit_and_low 16 (version_word d)))
  where
    parts : d ≡ d / 2 ^ 16 * 2 ^ 16 + d % 2 ^ 16
    parts = omega arith

variant_fields :
    (d : ℕ)
    → (variant_word d / 2 ^ 16 ≡ (8 + d / 2 ^ 28 % 4) * 16 ^ 3 + d / 2 ^ 16 % 2 ^ 12)
      × (bit_and (variant_word d) 0xFFFF ≡ d % 2 ^ 16)
variant_fields d =
    let e = variant_word_lem d in
    (omega (arith, e), omega (arith, e, bit_and_low 16 (variant_word d)))

-- Of four 32-bit words, the text has 36 characters, all of which the buffer holds: five groups of
-- hexadecimal digits, where the third begins with the version 4 and the fourth with a digit from 8
-- to b, and the others are those of the words, without six of their bits.
pub generate_uuid-layout :
    (d0 d1 d2 d3 : ℕ)
    → d0 < 2 ^ 32
    → d1 < 2 ^ 32
    → d2 < 2 ^ 32
    → d3 < 2 ^ 32
    → (generate_uuid d0 d1 d2 d3 ≡ layout d0 d1 d2 d3) × (length (generate_uuid d0 d1 d2 d3) ≡ 36)
unfolding generate_uuid
generate_uuid-layout d0 d1 d2 d3 h0 h1 h2 h3 =
    let v = version_fields d1 h1 in
    let w = variant_fields d2 in
    let text : generate_uuid d0 d1 d2 d3 ≡ layout d0 d1 d2 d3 =
      rw
        (
          v.0,
          v.1,
          w.0,
          w.1,
          padded_hex-fixed_hex 7 d0 (omega arith) h0,
          padded_hex-fixed_hex 3 (d1 / 2 ^ 16) (omega arith) (omega arith),
          padded_hex-fixed_hex 3 (4 * 16 ^ 3 + d1 % 2 ^ 12) (omega arith) (omega arith),
          padded_hex-fixed_hex 3 ((8 + d2 / 2 ^ 28 % 4) * 16 ^ 3 + d2 / 2 ^ 16 % 2 ^ 12)
              (omega arith) (omega arith),
          padded_hex-fixed_hex 3 (d2 % 2 ^ 16) (omega arith) (omega arith),
          padded_hex-fixed_hex 7 d3 (omega arith) h3,
          fixed_hex-top 3 4 (d1 % 2 ^ 12) (omega arith) (omega arith),
          fixed_hex-top 3 (8 + d2 / 2 ^ 28 % 4) (d2 / 2 ^ 16 % 2 ^ 12) (omega arith) (omega arith),
          generate_uuid,
        )
        (ap (λ n. take n (layout d0 d1 d2 d3)) (sym (length-layout d0 d1 d2 d3))
          ∙ take_all (layout d0 d1 d2 d3)) in
    (text, ap length text ∙ length-layout d0 d1 d2 d3)
