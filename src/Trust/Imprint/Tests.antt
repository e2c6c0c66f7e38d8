-- ===== src/Trust/Imprint/Tests.antt =====
-- Runs of the imprint with a small hash function, and the theorem at a concrete input.
use cdx_file_format_spec.Prelude.{◌≡◌, refl, ◌⊎◌, [], ok, err}
use cdx_file_format_spec.Merkle.ContentHash.{Units, codes}
use cdx_file_format_spec.Merkle.Block.Binding.{Collision}
use cdx_file_format_spec.Trust.Imprint.{
  not_base64url, unsupported_hash, signature_timestamp_imprint,
}
use cdx_file_format_spec.Trust.Imprint.Record.{imprint_binds}

-- A hash function that hashes nothing.
abbrev plain : Units → Units → Units
plain a message = message

imprint_runs :
    signature_timestamp_imprint plain (codes "AA") (codes "BB") (codes "sha256")
    ≡ ok (codes "AA.BB")
unfolding signature_timestamp_imprint
imprint_runs = refl

delimiter_refused :
    signature_timestamp_imprint plain (codes "AA.B") (codes "B") (codes "sha256")
    ≡ err not_base64url
unfolding signature_timestamp_imprint
delimiter_refused = refl

inherited_refused :
    signature_timestamp_imprint plain [] [] (codes "constructor") ≡ err unsupported_hash
unfolding signature_timestamp_imprint
inherited_refused = refl

imprint_binds_example : ((codes "AA" ≡ codes "AA") × (codes "BB" ≡ codes "BB")) ⊎ Collision plain
imprint_binds_example =
    imprint_binds plain (codes "AA") (codes "AA") (codes "BB") (codes "BB") (codes "sha256")
      (codes "AA.BB") imprint_runs imprint_runs
