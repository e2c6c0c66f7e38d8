-- ===== src/Merkle/Aggregated/Tests.antt =====
-- Runs of the timestamp checks with a small hash function, and the theorem at a concrete input.
use cdx_file_format_spec.Prelude.{◌≡◌, refl, ◌↔◌, ◌⊎◌, ◌+◌, ◌*◌, ◌%◌, [], ◌∷◌, some}
use mathlib.Core.List.{foldl}
use cdx_file_format_spec.Merkle.ContentHash.{Units, Bytes, codes, decode_content_hash}
use cdx_file_format_spec.Merkle.Block.{element, right}
use cdx_file_format_spec.Merkle.Aggregated.{
  text, Timestamp, fold_merkle, hash_concat, verify_merkle_inclusion, check_timestamp_binding,
}
use cdx_file_format_spec.Merkle.Aggregated.BindingRule.{IsDirect, IsAggregated, problems-nil_iff}

-- A checksum of one byte stands for the hash function.
abbrev checksum : Units → Bytes → Bytes
checksum a bytes = (foldl (λ s b. (s * 3 + b) % 256) 7 bytes % 256) ∷ []

abbrev document : Units
document = codes "sha256:01"

abbrev stamp : Timestamp
stamp = record {
  kind = text (codes "aggregated");
  hash = text document;
  proof = some (record {
    document_hash = text document;
    path = some (element right (some (codes "sha256:02")) ∷ []);
  });
  merkle_root = text (codes "sha256:44");
}

stamp_is_bound : (check_timestamp_binding checksum (some stamp) document).problems ≡ []
unfolding check_timestamp_binding verify_merkle_inclusion fold_merkle hash_concat
    decode_content_hash
stamp_is_bound = refl

problems-nil_iff_example :
    ((check_timestamp_binding checksum (some stamp) document).problems ≡ [])
    ↔ IsDirect stamp document ⊎ IsAggregated checksum stamp document
problems-nil_iff_example = problems-nil_iff checksum stamp document
