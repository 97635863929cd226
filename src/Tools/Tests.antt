-- ===== src/Tools/Tests.antt =====
-- Checksums of concrete data.
use scrutiny_embedded.Base.{ℕ, List, [], ◌∷◌, ◌++◌, ◌≡◌, refl}
use scrutiny_embedded.Tools.Crc.{crc32, crc_loop, crc_byte, lookup_table}
use scrutiny_embedded.Tools.Crc.Bitwise.{reference_crc32, crc32_lem}
use scrutiny_embedded.Tools.Crc.Chain.{crc32-append}

-- The ten bytes of the unit test `TestCRC32.TestCRC`.
abbrev digits : List ℕ
digits = 1 ∷ 2 ∷ 3 ∷ 4 ∷ 5 ∷ 6 ∷ 7 ∷ 8 ∷ 9 ∷ 10 ∷ []

crc32_lem_example : crc32 digits 0 ≡ reference_crc32 digits 0
crc32_lem_example = crc32_lem digits 0

crc32-append_example : crc32 ((1 ∷ 2 ∷ []) ++ (3 ∷ [])) 0 ≡ crc32 (3 ∷ []) (crc32 (1 ∷ 2 ∷ []) 0)
crc32-append_example = crc32-append (1 ∷ 2 ∷ []) (3 ∷ []) 0

crc32-digits : crc32 digits 0 ≡ 622876539
unfolding crc32 crc_loop crc_byte lookup_table
crc32-digits = refl
