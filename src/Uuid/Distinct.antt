-- ===== src/Uuid/Distinct.antt =====
-- What the text that src/common/util/UuidGenerator.cpp makes tells of the words it was made of.
use native.Mathlib.Nat.{pow-suc}
use project_sos_backend.Uuid.{hex_digit, generate_uuid}
use project_sos_backend.Uuid.Layout.{fixed_hex, length-fixed_hex, layout, generate_uuid-layout}
use project_sos_backend.Base.{
  ℕ, zero, suc, ◌+◌, ◌/◌, ◌%◌, ◌^◌, ◌<◌, ◌≡◌, sym, ◌∙◌, List, [], ◌∷◌, ◌++◌, append_same, arith,
}

hex_digit_injective : (m n : ℕ) → hex_digit m ≡ hex_digit n → m < 16 → n < 16 → m ≡ n
unfolding hex_digit
hex_digit_injective m n e h i = ground arith

fixed_hex_injective :
    (width m n : ℕ)
    → fixed_hex width m ≡ fixed_hex width n
    → m < 16 ^ width
    → n < 16 ^ width
    → m ≡ n
unfolding fixed_hex
fixed_hex_injective zero m n e h i = omega arith
fixed_hex_injective (suc width) m n e h i =
    let s =
      append_same (fixed_hex width (m / 16)) (hex_digit (m % 16) ∷ []) (fixed_hex width (n / 16))
        (hex_digit (n % 16) ∷ [])
        (length-fixed_hex width (m / 16) ∙ sym (length-fixed_hex width (n / 16))) e in
    let last : hex_digit (m % 16) ≡ hex_digit (n % 16) = cc in
    omega (
      arith,
      fixed_hex_injective width (m / 16) (n / 16) s.0 (omega (arith, pow-suc 16 width))
          (omega (arith, pow-suc 16 width)),
      hex_digit_injective (m % 16) (n % 16) last (omega arith) (omega arith),
    )

-- A group of the text, and what follows it.
read_group :
    (width m n : ℕ) (b q : List ℕ)
    → fixed_hex width m ++ b ≡ fixed_hex width n ++ q
    → m < 16 ^ width
    → n < 16 ^ width
    → (m ≡ n) × (b ≡ q)
read_group width m n b q e h i =
    let s =
      append_same (fixed_hex width m) b (fixed_hex width n) q
        (length-fixed_hex width m ∙ sym (length-fixed_hex width n)) e in
    (fixed_hex_injective width m n s.0 h i, s.1)

dropped : {x y : ℕ} {b q : List ℕ} → x ∷ b ≡ y ∷ q → (x ≡ y) × (b ≡ q)
dropped e = (cc, cc)

-- Two texts of 32-bit words that are equal were made of words that agree in the 122 bits that the
-- version and the variant leave free.
pub generate_uuid_distinct :
    (d0 d1 d2 d3 e0 e1 e2 e3 : ℕ)
    → d0 < 2 ^ 32
    → d1 < 2 ^ 32
    → d2 < 2 ^ 32
    → d3 < 2 ^ 32
    → e0 < 2 ^ 32
    → e1 < 2 ^ 32
    → e2 < 2 ^ 32
    → e3 < 2 ^ 32
    → generate_uuid d0 d1 d2 d3 ≡ generate_uuid e0 e1 e2 e3
    → (d0 ≡ e0)
      × (d1 / 2 ^ 16 ≡ e1 / 2 ^ 16)
      × (d1 % 2 ^ 12 ≡ e1 % 2 ^ 12)
      × (d2 % 2 ^ 30 ≡ e2 % 2 ^ 30)
      × (d3 ≡ e3)
unfolding fixed_hex
generate_uuid_distinct d0 d1 d2 d3 e0 e1 e2 e3 h0 h1 h2 h3 i0 i1 i2 i3 same =
    let texts : layout d0 d1 d2 d3 ≡ layout e0 e1 e2 e3 =
      sym (generate_uuid-layout d0 d1 d2 d3 h0 h1 h2 h3).0
      ∙ same
      ∙ (generate_uuid-layout e0 e1 e2 e3 i0 i1 i2 i3).0 in
    let a = read_group 8 d0 e0 _ _ texts h0 i0 in
    let b =
      read_group 4 (d1 / 2 ^ 16) (e1 / 2 ^ 16) _ _ (dropped a.1).1 (omega arith) (omega arith) in
    let c =
      read_group 3 (d1 % 2 ^ 12) (e1 % 2 ^ 12) _ _ (dropped (dropped b.1).1).1 (omega arith)
        (omega arith) in
    let v = dropped (dropped c.1).1 in
    let f =
      read_group 3 (d2 / 2 ^ 16 % 2 ^ 12) (e2 / 2 ^ 16 % 2 ^ 12) _ _ v.1 (omega arith)
        (omega arith) in
    let g =
      read_group 4 (d2 % 2 ^ 16) (e2 % 2 ^ 16) _ _ (dropped f.1).1 (omega arith) (omega arith) in
    let top =
      hex_digit_injective (8 + d2 / 2 ^ 28 % 4) (8 + e2 / 2 ^ 28 % 4) v.0 (omega arith)
        (omega arith) in
    (a.0, b.0, c.0, omega (arith, top, f.0, g.0), fixed_hex_injective 8 d3 e3 g.1 h3 i3)
