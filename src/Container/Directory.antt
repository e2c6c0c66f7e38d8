-- ===== src/Container/Directory.antt =====
-- Where zip-reader.ts finds the central directory, and how it reads its records. A 64-bit count is
-- taken exactly, where the code rounds what is above 2 ^ 53 to a double.
use cdx_file_format_spec.Prelude.{
  ℕ, zero, suc, ◌+◌, ◌-◌, not, ◌||◌, List, [], ◌∷◌, length, ltb, ◌==◌, if◌then◌else◌, Option, none,
  some, Result, ok, err, ◌>>=◌,
}
use cdx_file_format_spec.Merkle.ContentHash.{Units, Bytes}
use cdx_file_format_spec.Container.Bytes.{
  ℤ, pos, negsuc, past_end, RangeError, out_of_range, read_u16, read_u32, read_u64, subarray,
}
use cdx_file_format_spec.Container.Platform.{Platform}

abbrev pub sig_lfh : ℕ
sig_lfh = 0x04034b50

abbrev pub sig_cd : ℕ
sig_cd = 0x02014b50

abbrev pub sig_eocd : ℕ
sig_eocd = 0x06054b50

abbrev pub sig_eocd64 : ℕ
sig_eocd64 = 0x06064b50

abbrev pub sig_eocd64_locator : ℕ
sig_eocd64_locator = 0x07064b50

pub record Eocd : Type 0 where
  pub at : ℕ
  pub cd_offset : ℕ
  pub cd_size : ℕ
  pub cd_count : ℕ
  pub disk_this : ℕ
  pub disk_cd : ℕ
  pub trailer_before : ℕ

pub record Zip64 : Type 0 where
  pub cd_offset : ℕ
  pub cd_size : ℕ
  pub cd_count : ℕ
  pub trailer_before : ℕ

-- The ZIP64 record of 56 bytes and its locator of 20, before the classic record.
unfoldable pub locate_zip64 : Bytes → ℕ → Result RangeError (Option Zip64)
locate_zip64 bytes eocd_pos = if ltb eocd_pos 20 then ok none else do
  locator ← read_u32 bytes (eocd_pos - 20)
  if not (locator == sig_eocd64_locator) || ltb (eocd_pos - 20) 56 then ok none else (do
    signature ← read_u32 bytes (eocd_pos - 76)
    if not (signature == sig_eocd64) then ok none else (do
      count ← read_u64 bytes (eocd_pos - 76 + 32)
      size ← read_u64 bytes (eocd_pos - 76 + 40)
      offset ← read_u64 bytes (eocd_pos - 76 + 48)
      ok (
          some (record {
            cd_offset = offset;
            cd_size = size;
            cd_count = count;
            trailer_before = 76;
          }))))

abbrev pub with_zip64 : Eocd → Option Zip64 → Eocd
with_zip64 e none = e
with_zip64 e (some z) = record e {
  cd_offset = z.cd_offset;
  cd_size = z.cd_size;
  cd_count = z.cd_count;
  trailer_before = z.trailer_before;
}

-- The record at one position, if its signature and the length of its comment fit.
unfoldable pub eocd_at : Bytes → ℕ → Result RangeError (Option Eocd)
unfolding locate_zip64
eocd_at bytes i = do
  signature ← read_u32 bytes i
  if not (signature == sig_eocd) then ok none else (do
    comment_len ← read_u16 bytes (i + 20)
    if not (i + 22 + comment_len == length bytes) then ok none else (do
      cd_offset ← read_u32 bytes (i + 16)
      cd_size ← read_u32 bytes (i + 12)
      cd_count ← read_u16 bytes (i + 10)
      disk_this ← read_u16 bytes (i + 4)
      disk_cd ← read_u16 bytes (i + 6)
      z64 ← locate_zip64 bytes i
      let classic : Eocd = record {
        at = i;
        cd_offset = cd_offset;
        cd_size = cd_size;
        cd_count = cd_count;
        disk_this = disk_this;
        disk_cd = disk_cd;
        trailer_before = 0;
      }
      ok (some (with_zip64 classic z64))))

-- for (let i = …; i >= minPos; i--)
unfoldable pub scan_eocd : Bytes → ℕ → ℕ → Result RangeError (Option Eocd)
scan_eocd bytes min_pos zero = if ltb 0 min_pos then ok none else eocd_at bytes 0
scan_eocd bytes min_pos (suc i) =
    let rest = scan_eocd bytes min_pos i in
    if ltb (suc i) min_pos
    then ok none
    else (eocd_at bytes (suc i) >>= λ found. elim found [ none ↦ rest | some e ↦ ok (some e) ])

unfoldable pub locate_eocd : Bytes → Result RangeError (Option Eocd)
unfolding scan_eocd eocd_at
locate_eocd bytes =
    if ltb (length bytes) 22
    then ok none
    else scan_eocd bytes (length bytes - (0xffff + 22)) (length bytes - 22)

pub record CdEntry : Type 0 where
  pub raw_name : Bytes
  pub name : Units
  pub method : ℕ
  pub flags : ℕ
  pub crc : ℕ
  pub compressed_size : ℕ
  pub uncompressed_size : ℕ
  pub local_offset : ℕ
  pub version_made_by : ℕ
  pub external_attrs : ℕ

module _ (node : Platform) where
  -- The fields of the record at p, and where the next one starts.
  unfoldable pub read_record : Bytes → ℕ → Result RangeError (CdEntry × ℕ)
  read_record bytes p = do
    version_made_by ← read_u16 bytes (p + 4)
    flags ← read_u16 bytes (p + 8)
    method ← read_u16 bytes (p + 10)
    crc ← read_u32 bytes (p + 16)
    compressed_size ← read_u32 bytes (p + 20)
    uncompressed_size ← read_u32 bytes (p + 24)
    name_len ← read_u16 bytes (p + 28)
    extra_len ← read_u16 bytes (p + 30)
    comment_len ← read_u16 bytes (p + 32)
    external_attrs ← read_u32 bytes (p + 38)
    local_offset ← read_u32 bytes (p + 42)
    let raw_name = subarray bytes (p + 46) name_len
    let entry : CdEntry = record {
      raw_name = raw_name;
      name = node.decode_utf8 raw_name;
      method = method;
      flags = flags;
      crc = crc;
      compressed_size = compressed_size;
      uncompressed_size = uncompressed_size;
      local_offset = local_offset;
      version_made_by = version_made_by;
      external_attrs = external_attrs;
    }
    ok (entry, p + 46 + name_len + extra_len + comment_len)

  -- `none` is a malformed record: the code reports the archive as unreadable and returns null.
  unfoldable pub read_records : Bytes → ℕ → ℕ → Result RangeError (Option (List CdEntry))
  read_records bytes zero p = ok (some [])
  read_records bytes (suc count) p = if ltb (length bytes) (p + 46) then ok none else do
    signature ← read_u32 bytes p
    if not (signature == sig_cd)
        then ok none
        else (read_record bytes p >>= λ found. read_records bytes count found.1 >>= λ rest.
            ok (elim rest [ none ↦ none | some entries ↦ some (found.0 ∷ entries) ]))

  -- The start may be negative: then the first read throws, unless the end comes before.
  unfoldable pub parse_central_directory : Bytes → ℤ → ℕ → Result RangeError (Option (List CdEntry))
  unfolding read_records read_record
  parse_central_directory bytes start zero = ok (some [])
  parse_central_directory bytes start (suc count) =
      if past_end start 46 bytes
      then ok none
      else elim start [ pos p ↦ read_records bytes (suc count) p | negsuc n ↦ err out_of_range ]
