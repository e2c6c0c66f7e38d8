-- ===== src/Container/Reader.antt =====
-- `readArchive` of zip-reader.ts. It returns findings, and can still throw a RangeError.
pub mod Intact
pub mod Clean
pub mod Throws
mod Tests
use Prim.Native.Nat.{bit_and}
use cdx_file_format_spec.Prelude.{
  ℕ, zero, suc, ◌+◌, ◌-◌, ◌*◌, ◌/◌, ◌%◌, Bool, true, false, not, ◌&&◌, ◌||◌, List, [], ◌∷◌, ◌++◌,
  map, length, ltb, leb, ◌==◌, if◌then◌else◌, Option, none, some, Result, ok, err, ◌>>=◌,
}
use cdx_file_format_spec.Merkle.ContentHash.{Units, Bytes}
use cdx_file_format_spec.Container.Bytes.{ℤ, pos, negsuc, sub_ℕ, ◌+ℤ◌, RangeError, crc32}
use cdx_file_format_spec.Container.Platform.{Platform}
use cdx_file_format_spec.Container.Names.{
  Code, unreadable, symlink, decompression_bomb, crc_mismatch, encryption_used, multi_volume,
  compression_method_forbidden, entry_integrity_indeterminate, entry_undecodable, when,
  detect_duplicates, check_name_safety,
}
use cdx_file_format_spec.Container.Directory.{CdEntry, Eocd, locate_eocd, parse_central_directory}
use cdx_file_format_spec.Container.Inflate.{
  ReaderBounds, ArchiveEntry, Inflated, content, failed, method_forbidden, method_unsupported,
  corrupt, bomb, is_permitted, inflate_entry,
}
use cdx_file_format_spec.Container.CrossCheck.{
  local_name, name_agrees, cross_check_local_headers, check_first_file,
}

pub record ArchiveResult : Type 0 where
  pub entries : List ArchiveEntry
  pub findings : List Code

abbrev pub host_unix : ℕ
host_unix = 3

abbrev pub s_ifmt : ℕ
s_ifmt = 0xf000

abbrev pub s_iflnk : ℕ
s_iflnk = 0xa000

unfoldable pub is_symlink : CdEntry → Bool
is_symlink c =
    c.version_made_by / 256 == host_unix
    && bit_and (c.external_attrs / 65536 % 65536) s_ifmt == s_iflnk

-- c.uncompressedSize / c.compressedSize > maxRatio, without the division.
unfoldable pub bomb_codes : ReaderBounds → CdEntry → List Code
bomb_codes bounds c =
    when
      (ltb bounds.ratio_floor c.uncompressed_size
        && (ltb 0 c.compressed_size
            && ltb (bounds.max_ratio * c.compressed_size) c.uncompressed_size))
      decompression_bomb
    ++ when (ltb bounds.max_entry_size c.uncompressed_size) decompression_bomb

abbrev pub no_codes : List Code → Bool
no_codes [] = true
no_codes _ = false

unfoldable pub total_size : List CdEntry → ℕ
total_size [] = 0
total_size (c ∷ cs) = c.uncompressed_size + total_size cs

unfoldable pub all_bombs : ReaderBounds → List CdEntry → List Code
all_bombs bounds [] = []
all_bombs bounds (c ∷ cs) = bomb_codes bounds c ++ all_bombs bounds cs

-- The effective offset of an entry.
abbrev pub to_entry : ℤ → CdEntry → ArchiveEntry
to_entry delta c = record {
  name = c.name;
  method = c.method;
  crc = c.crc;
  compressed_size = c.compressed_size;
  uncompressed_size = c.uncompressed_size;
  local_offset = pos c.local_offset +ℤ delta;
}

-- The findings for the outcome of a decompression.
abbrev pub content_codes : ℕ → Inflated → List Code
content_codes crc (content bytes) = when (not (crc32 bytes == crc)) crc_mismatch
content_codes crc (failed method_forbidden) = []
content_codes crc (failed method_unsupported) = entry_integrity_indeterminate ∷ []
content_codes crc (failed bomb) = decompression_bomb ∷ []
content_codes crc (failed corrupt) = entry_undecodable ∷ []

abbrev pub volume_codes : Eocd → List Code
volume_codes e = when (not (e.disk_this == 0) || not (e.disk_cd == 0)) multi_volume

-- pos - trailerBefore - cdSize, and the shift by a stub.
abbrev pub cd_start_of : Eocd → ℤ
cd_start_of e = sub_ℕ e.at (e.trailer_before + e.cd_size)

abbrev pub stub_delta_of : Eocd → ℤ
stub_delta_of e = sub_ℕ e.at (e.trailer_before + e.cd_size + e.cd_offset)

module _ (node : Platform) where
  -- Name, symbolic link, encryption and method of one entry.
  unfoldable pub entry_codes : CdEntry → List Code
  unfolding is_symlink
  entry_codes c =
      check_name_safety node c.raw_name
      ++ (when (is_symlink c) symlink
          ++ (when (c.flags % 2 == 1) encryption_used
              ++ when (not (is_permitted c.method)) compression_method_forbidden))

  unfoldable pub all_entry_codes : List CdEntry → List Code
  unfolding entry_codes
  all_entry_codes [] = []
  all_entry_codes (c ∷ cs) = entry_codes c ++ all_entry_codes cs

  -- The CRC pass over one entry: a bomb, or an entry with no local header of its name, is skipped.
  unfoldable pub crc_codes : Bytes → ReaderBounds → ℤ → CdEntry → List Code
  crc_codes bytes bounds delta c =
      if not (no_codes (bomb_codes bounds c))
      then []
      else if not (name_agrees (local_name bytes (pos c.local_offset +ℤ delta)) c.raw_name)
      then []
      else content_codes c.crc (inflate_entry node bytes (to_entry delta c) bounds)

  unfoldable pub all_crc_codes : Bytes → ReaderBounds → ℤ → List CdEntry → List Code
  unfolding crc_codes bomb_codes
  all_crc_codes bytes bounds delta [] = []
  all_crc_codes bytes bounds delta (c ∷ cs) =
      crc_codes bytes bounds delta c ++ all_crc_codes bytes bounds delta cs

  -- What is found in an archive with a central directory.
  unfoldable pub directory_codes : Bytes → ReaderBounds → List CdEntry → ℤ → ℤ → List Code
  unfolding all_entry_codes all_crc_codes all_bombs
  directory_codes bytes bounds central delta cd_start =
      detect_duplicates node (map (λ c. c.name) central)
      ++ (all_entry_codes central
          ++ (cross_check_local_headers bytes central delta cd_start
              ++ (check_first_file node bytes
                  ++ (all_bombs bounds central
                      ++ (when (ltb bounds.max_total_size (total_size central)) decompression_bomb
                          ++ all_crc_codes bytes bounds delta central)))))

  abbrev pub with_directory : Bytes → ReaderBounds → Eocd → Option (List CdEntry) → ArchiveResult
  with_directory bytes bounds e none = record {
    entries = [];
    findings = volume_codes e ++ unreadable ∷ [];
  }
  with_directory bytes bounds e (some central) = record {
    entries = map (to_entry (stub_delta_of e)) central;
    findings =
        volume_codes e ++ directory_codes bytes bounds central (stub_delta_of e) (cd_start_of e);
  }

  unfoldable pub read_archive : Bytes → ReaderBounds → Result RangeError ArchiveResult
  unfolding directory_codes
  read_archive bytes bounds = locate_eocd bytes >>= λ found. elim found [
    | none ↦ ok (record { entries = []; findings = unreadable ∷ [] })
    | some e ↦ parse_central_directory node bytes (cd_start_of e) e.cd_count >>= λ central.
        ok (with_directory bytes bounds e central)
  ]
