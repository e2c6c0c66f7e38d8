-- ===== src/Canonical/Hashes/Tests.antt =====
-- A SHA-256 value of 32 bytes, and one of 31.
use cdx_file_format_spec.Prelude.{◌≡◌, refl, true, false, some, Units, codes}
use cdx_file_format_spec.Canonical.Hashes.{is_valid_content_hash, digest_length}
use cdx_file_format_spec.Canonical.Hashes.Decoded.{IsReadable, is_valid_content_hash-IsReadable}

abbrev whole : Units
whole = codes "sha256:a1a1a1a1a1a1a1a1a1a1a1a1a1a1a1a1a1a1a1a1a1a1a1a1a1a1a1a1a1a1a1a1"

whole_valid : is_valid_content_hash (some whole) ≡ true
unfolding is_valid_content_hash digest_length
whole_valid = refl

short_refused :
    is_valid_content_hash
      (some (codes "sha256:a1a1a1a1a1a1a1a1a1a1a1a1a1a1a1a1a1a1a1a1a1a1a1a1a1a1a1a1a1a1a1"))
    ≡ false
unfolding is_valid_content_hash digest_length
short_refused = refl

is_valid_content_hash-IsReadable_example : IsReadable whole
is_valid_content_hash-IsReadable_example = is_valid_content_hash-IsReadable whole whole_valid
