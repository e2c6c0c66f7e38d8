-- ===== src/Container/Bytes/Tests.antt =====
-- The check value of CRC-32, and reads at the end of a Buffer.
use cdx_file_format_spec.Prelude.{◌≡◌, refl, [], ◌∷◌, ok, err}
use cdx_file_format_spec.Merkle.ContentHash.{codes}
use cdx_file_format_spec.Container.Bytes.{out_of_range, read_u16, crc32}

crc32_check : crc32 (codes "123456789") ≡ 0xcbf43926
unfolding crc32
crc32_check = refl

read_last : read_u16 (1 ∷ 2 ∷ 3 ∷ []) 1 ≡ ok 0x0302
unfolding read_u16
read_last = refl

read_past : read_u16 (1 ∷ 2 ∷ 3 ∷ []) 2 ≡ err out_of_range
unfolding read_u16
read_past = refl
