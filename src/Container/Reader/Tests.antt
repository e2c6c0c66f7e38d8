-- ===== src/Container/Reader/Tests.antt =====
-- Runs of the reader on a container with one stored file and on a file of 22 bytes that makes it
-- throw, and the theorems at them.
use cdx_file_format_spec.Prelude.{
  ℕ, ◌/◌, ◌%◌, ◌≡◌, refl, [], ◌∷◌, ◌++◌, none, some, ok, err, arith, All, true,
}
use cdx_file_format_spec.Merkle.ContentHash.{Bytes, codes}
use cdx_file_format_spec.Container.Bytes.{
  pos, ◌+ℤ◌, out_of_range, read_u16, read_u32, read_u64, crc32, crc_loop, crc_table, crc_rounds,
}
use cdx_file_format_spec.Container.Platform.{Platform, undecodable}
use cdx_file_format_spec.Container.Names.{
  count_name, count_names, duplicates, folded_get, collisions, detect_duplicates, check_name_safety,
  check_segments, check_segment, has_unit, ends_with, split,
}
use cdx_file_format_spec.Container.Directory.{
  Eocd, locate_eocd, scan_eocd, eocd_at, locate_zip64, parse_central_directory, read_records,
  read_record,
}
use cdx_file_format_spec.Container.Inflate.{crc_matches, default_bounds, inflate_entry, decompress}
use cdx_file_format_spec.Container.CrossCheck.{
  local_name, check_local_headers, cross_check_local_headers, check_first_file, first_local_header,
  walk_headers, next_header, entry_at,
}
use cdx_file_format_spec.Container.Reader.{
  ArchiveResult, is_symlink, bomb_codes, total_size, all_bombs, entry_codes, all_entry_codes,
  crc_codes, all_crc_codes, directory_codes, read_archive,
}
use cdx_file_format_spec.Container.Reader.Clean.{
  IsCleanArchive, read_archive-clean, clean-crc_matches,
}
use cdx_file_format_spec.Container.Reader.Throws.{read_archive-throws_iff}

-- A runtime without zstd, on names of ASCII letters in lower case.
abbrev ascii : Platform
ascii = record {
  decode_utf8 = λ bytes. bytes;
  encode_utf8 = λ name. name;
  lower_case = λ name. name;
  inflate_raw = λ bytes limit. undecodable;
  zstd_decompress = none;
}

abbrev le16 : ℕ → Bytes
le16 n = n % 256 ∷ n / 256 ∷ []

abbrev le32 : ℕ → Bytes
le32 n = le16 (n % 65536) ++ le16 (n / 65536)

-- "manifest.json", stored, with the content "{}".
abbrev local_part : Bytes
local_part =
    le32 0x04034b50
    ++ le16 20
    ++ le16 0
    ++ le16 0
    ++ le32 0
    ++ le32 0xa3a6bf43
    ++ le32 2
    ++ le32 2
    ++ le16 13
    ++ le16 0
    ++ codes "manifest.json"
    ++ codes "{}"

abbrev central_part : Bytes
central_part =
    le32 0x02014b50
    ++ le16 20
    ++ le16 20
    ++ le16 0
    ++ le16 0
    ++ le32 0
    ++ le32 0xa3a6bf43
    ++ le32 2
    ++ le32 2
    ++ le16 13
    ++ le16 0
    ++ le16 0
    ++ le16 0
    ++ le16 0
    ++ le32 0
    ++ le32 0
    ++ codes "manifest.json"

abbrev end_record : ℕ → ℕ → Bytes
end_record size offset =
    le32 0x06054b50 ++ le16 0 ++ le16 0 ++ le16 1 ++ le16 1 ++ le32 size ++ le32 offset ++ le16 0

abbrev container : Bytes
container = local_part ++ central_part ++ end_record 59 45

abbrev one_file : ArchiveResult
one_file = record {
  entries =
      record {
        name = codes "manifest.json";
        method = 0;
        crc = 0xa3a6bf43;
        compressed_size = 2;
        uncompressed_size = 2;
        local_offset = pos 0;
      }
      ∷ [];
  findings = [];
}

container_runs : read_archive ascii container default_bounds ≡ ok one_file
unfolding read_archive directory_codes all_crc_codes crc_codes all_entry_codes entry_codes all_bombs
    total_size bomb_codes is_symlink inflate_entry decompress cross_check_local_headers
    check_local_headers check_first_file first_local_header walk_headers next_header entry_at
    local_name locate_eocd scan_eocd eocd_at locate_zip64 parse_central_directory read_records
    read_record detect_duplicates collisions duplicates count_names count_name folded_get
    check_name_safety check_segments check_segment has_unit ends_with split read_u16 read_u32
    read_u64 crc32 crc_loop crc_table crc_rounds ◌+ℤ◌
container_runs = refl

read_archive-clean_example : IsCleanArchive ascii container default_bounds one_file
read_archive-clean_example =
    read_archive-clean ascii container default_bounds one_file container_runs refl

clean-crc_matches_example :
    All (λ e. crc_matches ascii container e default_bounds ≡ ok true) one_file.entries
clean-crc_matches_example =
    clean-crc_matches ascii container default_bounds one_file container_runs refl

-- It counts one record of a directory of 24 bytes, with nothing before it.
abbrev lone_record : Eocd
lone_record = record {
  at = 0;
  cd_offset = 0;
  cd_size = 24;
  cd_count = 1;
  disk_this = 0;
  disk_cd = 0;
  trailer_before = 0;
}

lone_record_runs : locate_eocd (end_record 24 0) ≡ ok (some lone_record)
unfolding locate_eocd scan_eocd eocd_at locate_zip64 read_u16 read_u32
lone_record_runs = refl

read_archive-throws_iff_example :
    read_archive ascii (end_record 24 0) default_bounds ≡ err out_of_range
read_archive-throws_iff_example =
    (read_archive-throws_iff ascii (end_record 24 0) default_bounds).1
      (lone_record, lone_record_runs, omega arith, omega arith, omega arith)
