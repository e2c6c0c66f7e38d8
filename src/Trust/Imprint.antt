-- ===== src/Trust/Imprint.antt =====
-- scripts/lib/timestamp.ts: the bytes that a signature timestamp covers. `digest name message` is
-- Node's `createHash(name).update(message, 'utf8').digest('hex')`.
pub mod Record
mod Tests
use cdx_file_format_spec.Prelude.{
  ℕ, Bool, not, ◌&&◌, ◌||◌, List, [], ◌∷◌, ◌++◌, all, leb, ◌==◌, if◌then◌else◌, Result, ok, err,
}
use cdx_file_format_spec.Merkle.ContentHash.{Units, codes}
use cdx_file_format_spec.Merkle.Block.{includes}

pub data TimestampError : Type 0 where
  unsupported_hash not_base64url : TimestampError

-- The own keys of IMPRINT_HASHES, each mapped to itself.
abbrev pub imprint_hashes : List Units
imprint_hashes = codes "sha256" ∷ codes "sha384" ∷ codes "sha512" ∷ []

-- [A-Za-z0-9_-]
abbrev pub is_base64url : ℕ → Bool
is_base64url c =
    (leb b'A' c && leb c b'Z')
    || (leb b'a' c && leb c b'z')
    || (leb b'0' c && leb c b'9')
    || c == b'_'
    || c == b'-'

unfoldable pub signature_timestamp_imprint :
    (Units → Units → Units) → Units → Units → Units → Result TimestampError Units
signature_timestamp_imprint digest protected_b64 signature_b64 hash_alg =
    if not (includes imprint_hashes hash_alg)
    then err unsupported_hash
    else if not (all is_base64url protected_b64) || not (all is_base64url signature_b64)
    then err not_base64url
    else ok (digest hash_alg (protected_b64 ++ b'.' ∷ signature_b64))
