-- ===== src/Verdict/Archive/Tests.antt =====
-- The vocabulary of conformance/errors.json for the container, and the theorem at it.
use cdx_file_format_spec.Prelude.{
  String, ◌≡◌, refl, ◌↔◌, [], ◌∷◌, Any, Option, none, some, str_eq, if◌then◌else◌,
}
use cdx_file_format_spec.Verdict.{reject, disposition_of, to_disposition}
use cdx_file_format_spec.Container.Names.{
  Code, code_id, unsafe_name, first_file_not_manifest, unreadable, duplicate_entry, case_collision,
  lfh_cd_disagreement, data_outside_cd, symlink, decompression_bomb, crc_mismatch, encryption_used,
  multi_volume, compression_method_forbidden, entry_integrity_indeterminate, entry_undecodable,
}
use cdx_file_format_spec.Verdict.Archive.{archive_verdict}
use cdx_file_format_spec.Verdict.Archive.Rejection.{row, archive_verdict-reject_iff}

abbrev vocab : String → Option String
vocab c =
    if str_eq c "CDX-E-ARCHIVE-FIRST-FILE-NOT-MANIFEST"
    then some "WARNING"
    else if str_eq c "CDX-E-ARCHIVE-ENTRY-INTEGRITY-INDETERMINATE"
    then none
    else some "REJECT"

vocab_rows : (c : Code) → disposition_of (vocab (code_id c)) ≡ row c
unfolding code_id to_disposition
vocab_rows unreadable = refl
vocab_rows duplicate_entry = refl
vocab_rows case_collision = refl
vocab_rows lfh_cd_disagreement = refl
vocab_rows data_outside_cd = refl
vocab_rows unsafe_name = refl
vocab_rows symlink = refl
vocab_rows decompression_bomb = refl
vocab_rows crc_mismatch = refl
vocab_rows first_file_not_manifest = refl
vocab_rows encryption_used = refl
vocab_rows multi_volume = refl
vocab_rows compression_method_forbidden = refl
vocab_rows entry_integrity_indeterminate = refl
vocab_rows entry_undecodable = refl

archive_verdict-reject_iff_example :
    ((archive_verdict vocab (first_file_not_manifest ∷ unsafe_name ∷ [])).document_disposition
      ≡ reject)
    ↔ Any (λ c. row c ≡ some reject) (first_file_not_manifest ∷ unsafe_name ∷ [])
archive_verdict-reject_iff_example =
    archive_verdict-reject_iff vocab (first_file_not_manifest ∷ unsafe_name ∷ []) vocab_rows
