-- ===== src/Container/Platform.antt =====
-- What zip-reader.ts takes from Node and zlib: a parameter of the reader.
use cdx_file_format_spec.Prelude.{ℕ, Option}
use cdx_file_format_spec.Merkle.ContentHash.{Units, Bytes}

-- What a decompressor does with some bytes and a limit on its output: it returns bytes, or it throws
-- because of the limit, or for another reason.
pub data Decoded : Type 0 where
  decoded : Bytes → Decoded
  over_limit undecodable : Decoded

pub record Platform : Type 0 where
  -- buffer.toString('utf8'), Buffer.from(text, 'utf8'), text.toLowerCase()
  pub decode_utf8 : Bytes → Units
  pub encode_utf8 : Units → Bytes
  pub lower_case : Units → Units
  -- zlib.inflateRawSync, and zlib.zstdDecompressSync if the runtime has it
  pub inflate_raw : Bytes → ℕ → Decoded
  pub zstd_decompress : Option (Bytes → ℕ → Decoded)
