-- ===== src/Container/Inflate.antt =====
-- `inflateEntry` and `crcMatches` of zip-reader.ts, with their typed errors.
use cdx_file_format_spec.Prelude.{
  ℕ, ◌+◌, Bool, false, not, ◌||◌, ◌==◌, if◌then◌else◌, Option, none, some, Result, ok, err,
}
use cdx_file_format_spec.Merkle.ContentHash.{Units, Bytes}
use cdx_file_format_spec.Container.Bytes.{ℤ, pos, negsuc, u16_at, crc32, past_end, subarray}
use cdx_file_format_spec.Container.Platform.{Platform, Decoded, decoded, over_limit, undecodable}

pub record ReaderBounds : Type 0 where
  pub max_ratio : ℕ
  pub ratio_floor : ℕ
  pub max_entry_size : ℕ
  pub max_total_size : ℕ

abbrev pub default_bounds : ReaderBounds
default_bounds = record {
  max_ratio = 1000;
  ratio_floor = 1048576;
  max_entry_size = 524288000;
  max_total_size = 2147483648;
}

pub record ArchiveEntry : Type 0 where
  pub name : Units
  pub method : ℕ
  pub crc : ℕ
  pub compressed_size : ℕ
  pub uncompressed_size : ℕ
  pub local_offset : ℤ

pub data InflateFailure : Type 0 where
  method_forbidden method_unsupported corrupt bomb : InflateFailure

-- The bytes of an entry, or the `failure` of the InflateError.
pub data Inflated : Type 0 where
  content : Bytes → Inflated
  failed : InflateFailure → Inflated

abbrev pub is_permitted : ℕ → Bool
is_permitted m = m == 0 || (m == 8 || m == 93)

-- What a decompressor returns or throws, sorted.
abbrev pub to_inflated : Decoded → Inflated
to_inflated (decoded bytes) = content bytes
to_inflated over_limit = failed bomb
to_inflated undecodable = failed corrupt

-- The stored bytes of the entry whose local header stands at `off`.
abbrev pub stored_bytes : Bytes → ℕ → ℕ → Bytes
stored_bytes bytes off size =
    subarray bytes (off + 30 + u16_at bytes (off + 26) + u16_at bytes (off + 28)) size

-- A decompressor that may not be there.
abbrev pub run_zstd : Option (Bytes → ℕ → Decoded) → Bytes → ℕ → Inflated
run_zstd none stored limit = failed method_unsupported
run_zstd (some z) stored limit = to_inflated (z stored limit)

abbrev pub compare_crc : ℕ → Inflated → Result InflateFailure Bool
compare_crc crc (content bytes) = ok (crc32 bytes == crc)
compare_crc crc (failed f) = err f

module _ (node : Platform) where
  abbrev pub can_decompress : ℕ → Bool
  can_decompress m =
      m == 0 || m == 8 || (elim node.zstd_decompress [ none ↦ false | some _ ↦ m == 93 ])

  -- A permitted method at a header in range.
  unfoldable pub decompress : ℕ → Bytes → ℕ → Inflated
  decompress method stored limit =
      if method == 8
      then to_inflated (node.inflate_raw stored limit)
      else if method == 93
      then run_zstd node.zstd_decompress stored limit
      else content stored

  abbrev pub lacks_zstd : ℕ → Bool
  lacks_zstd method = elim node.zstd_decompress [ none ↦ method == 93 | some _ ↦ false ]

  unfoldable pub inflate_entry : Bytes → ArchiveEntry → ReaderBounds → Inflated
  unfolding decompress
  inflate_entry bytes entry bounds =
      if not (is_permitted entry.method)
      then failed method_forbidden
      else if lacks_zstd entry.method
      then failed method_unsupported
      else elim entry.local_offset [
        | negsuc n ↦ failed corrupt
        | pos off ↦
            if past_end (pos off) 30 bytes
            then failed corrupt
            else decompress entry.method (stored_bytes bytes off entry.compressed_size)
                bounds.max_entry_size
      ]

  -- It throws what the decompression throws.
  unfoldable pub crc_matches : Bytes → ArchiveEntry → ReaderBounds → Result InflateFailure Bool
  crc_matches bytes entry bounds = compare_crc entry.crc (inflate_entry bytes entry bounds)
