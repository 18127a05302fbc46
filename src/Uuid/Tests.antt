-- ===== src/Uuid/Tests.antt =====
-- UUIDs of concrete words.
use project_sos_backend.Uuid.{generate_uuid, hex_digit}
use project_sos_backend.Uuid.Layout.{fixed_hex, layout, generate_uuid-layout}
use project_sos_backend.Base.{◌≡◌, refl, [], ◌∷◌, length, arith}

-- 00000001-dead-4eef-bfff-ffff0000cafe
generate_uuid-layout_example :
    (generate_uuid 1 0xDEADBEEF 0xFFFFFFFF 0xCAFE ≡ layout 1 0xDEADBEEF 0xFFFFFFFF 0xCAFE)
    × (length (generate_uuid 1 0xDEADBEEF 0xFFFFFFFF 0xCAFE) ≡ 36)
generate_uuid-layout_example =
    generate_uuid-layout 1 0xDEADBEEF 0xFFFFFFFF 0xCAFE (omega arith) (omega arith) (omega arith)
      (omega arith)

layout_test :
    layout 1 0xDEADBEEF 0xFFFFFFFF 0xCAFE
    ≡ 48 ∷ 48 ∷ 48 ∷ 48 ∷ 48 ∷ 48 ∷ 48 ∷ 49 ∷ 45 ∷ 100 ∷ 101 ∷ 97 ∷ 100 ∷ 45 ∷ 52 ∷ 101 ∷ 101 ∷ 102
      ∷ 45 ∷ 98 ∷ 102 ∷ 102 ∷ 102 ∷ 45 ∷ 102 ∷ 102 ∷ 102 ∷ 102 ∷ 48 ∷ 48 ∷ 48 ∷ 48 ∷ 99 ∷ 97 ∷ 102
      ∷ 101 ∷ []
unfolding fixed_hex hex_digit
layout_test = refl

-- The third hexadecimal digit of the second group from the end of the second word does not matter.
same_texts : generate_uuid 1 0x2000 3 4 ≡ generate_uuid 1 0x7000 0xC0000003 4
unfolding generate_uuid
same_texts = refl
