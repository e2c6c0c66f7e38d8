-- ===== src/Canonical/Hashes.antt =====
-- `algorithm:hexdigest` values in canonicalize.ts: `algorithmOf`, `isValidContentHash` and `hashBytes`.
-- The names of `crypto.getHashes()` are a parameter, and so is the hash function.
pub mod Decoded
mod Tests
use cdx_file_format_spec.Prelude.{
  ℕ, zero, suc, Bool, true, false, not, ◌&&◌, List, [], ◌∷◌, ◌++◌, map, all, length, take, drop,
  ◌==◌, leb, Option, none, some, Result, ok, err, ◌>>=◌, if◌then◌else◌, Units, Bytes, codes,
  same_units, includes,
}
use cdx_file_format_spec.Merkle.ContentHash.{index_of, is_hex, print_hash}
use cdx_file_format_spec.Canonical.Errors.{
  CanonError, no_text, no_algorithm, unknown_algorithm, algorithm_not_available,
}

-- HEX_DIGEST_LENGTH: own keys only, as `Object.hasOwn` asks.
abbrev pub hex_digest_length : List (Units × ℕ)
hex_digest_length =
    (codes "sha256", 64)
    ∷ (codes "sha384", 96)
    ∷ (codes "sha512", 128)
    ∷ (codes "sha3-256", 64)
    ∷ (codes "sha3-512", 128)
    ∷ (codes "blake3", 64)
    ∷ []

unfoldable pub digest_length : Units → List (Units × ℕ) → Option ℕ
digest_length a [] = none
digest_length a ((b, n) ∷ rest) = if same_units b a then some n else digest_length a rest

-- Object.keys(HEX_DIGEST_LENGTH)
abbrev pub known_algorithms : List Units
known_algorithms = map (λ (row : Units × ℕ). row.0) hex_digest_length

abbrev pub algorithm_before : Units → Option ℕ → Result CanonError Units
algorithm_before value none = err no_algorithm
algorithm_before value (some zero) = err no_algorithm
algorithm_before value (some (suc i)) =
    if includes known_algorithms (take (suc i) value)
    then ok (take (suc i) value)
    else err unknown_algorithm

-- `none` is a value that is no text.
unfoldable pub algorithm_of : Option Units → Result CanonError Units
algorithm_of none = err no_text
algorithm_of (some value) = algorithm_before value (index_of b':' value)

-- digest.length === expected && /^[0-9a-f]+$/.test(digest)
abbrev pub is_digest_of : Option ℕ → Units → Bool
is_digest_of none digest = false
is_digest_of (some n) digest = length digest == n && (leb 1 (length digest) && all is_hex digest)

abbrev pub valid_before : Units → Option ℕ → Bool
valid_before h none = false
valid_before h (some zero) = false
valid_before h (some (suc i)) =
    is_digest_of (digest_length (take (suc i) h) hex_digest_length) (drop (suc (suc i)) h)

unfoldable pub is_valid_content_hash : Option Units → Bool
unfolding digest_length
is_valid_content_hash none = false
is_valid_content_hash (some h) = valid_before h (index_of b':' h)

module _ (available : List Units) (digest : Units → Bytes → Bytes) where
  unfoldable pub canonical_hash_name : Units → Result CanonError Units
  canonical_hash_name algorithm =
      if not (includes known_algorithms algorithm)
      then err unknown_algorithm
      else if same_units algorithm (codes "blake3")
      then err algorithm_not_available
      else if not (includes available algorithm)
      then err algorithm_not_available
      else ok algorithm

  unfoldable pub hash_bytes : Units → Bytes → Result CanonError Units
  unfolding canonical_hash_name
  hash_bytes algorithm bytes = do
    name ← canonical_hash_name algorithm
    ok (print_hash algorithm (digest name bytes))
