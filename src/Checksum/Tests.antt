-- ===== src/Checksum/Tests.antt =====
-- Checksums of given sums and strings.
use tcp.Prelude.{◌≡◌, [], ◌∷◌, some, arith}
use tcp.Checksum.{init, add, value}
use tcp.Checksum.Sum.{value-add}

-- The example of RFC 1071.
value_rfc1071 :
    value (add (init 0) (0x00 ∷ 0x01 ∷ 0xf2 ∷ 0x03 ∷ 0xf4 ∷ 0xf5 ∷ 0xf6 ∷ 0xf7 ∷ [])) ≡ some 0x220d
value_rfc1071 =
    value-add 0 (0x00 ∷ 0x01 ∷ 0xf2 ∷ 0x03 ∷ 0xf4 ∷ 0xf5 ∷ 0xf6 ∷ 0xf7 ∷ []) (omega arith)
