-- ===== src/Verdict/Tests.antt =====
-- Runs of the verdict, and the theorems at concrete inputs.
use cdx_file_format_spec.Prelude.{
  String, ◌≡◌, refl, ◌↔◌, ◌≤◌, inl, inr, true, List, [], ◌∷◌, Any, Option, none, some, str_eq,
  if◌then◌else◌, arith,
}
use cdx_file_format_spec.Verdict.{
  reject, warning, rank, to_disposition, disposition_of, given, worst_of, max_disposition, seen_has,
  collect, resolve_verdict, in_interval, integrity_error,
}
use cdx_file_format_spec.Verdict.Most.{Reaches, resolve_verdict_iff, resolve_verdict_same}

-- Three entries of the vocabulary; one has no disposition.
abbrev vocab : String → Option String
vocab c =
    if str_eq c "CDX-E-ARCHIVE-CRC-MISMATCH"
    then some "REJECT"
    else if str_eq c "CDX-E-ARCHIVE-FIRST-FILE-NOT-MANIFEST"
    then some "WARNING"
    else none

abbrev report : List String
report =
    "CDX-E-ARCHIVE-FIRST-FILE-NOT-MANIFEST" ∷ "CDX-E-ARCHIVE-ENTRY-INTEGRITY-INDETERMINATE"
    ∷ "CDX-E-ARCHIVE-FIRST-FILE-NOT-MANIFEST" ∷ []

abbrev once : List String
once = "CDX-E-ARCHIVE-ENTRY-INTEGRITY-INDETERMINATE" ∷ "CDX-E-ARCHIVE-FIRST-FILE-NOT-MANIFEST" ∷ []

report_is_a_warning : resolve_verdict vocab report ≡ record {
  document_disposition = warning;
  findings =
      record { code = "CDX-E-ARCHIVE-FIRST-FILE-NOT-MANIFEST"; disposition = some warning }
      ∷ record { code = "CDX-E-ARCHIVE-ENTRY-INTEGRITY-INDETERMINATE"; disposition = none }
      ∷ [];
}
unfolding resolve_verdict max_disposition worst_of given collect seen_has to_disposition rank
report_is_a_warning = refl

floor_met : in_interval reject (record { at_least = integrity_error; at_most = reject }) ≡ true
unfolding in_interval rank
floor_met = refl

warning_above : 1 ≤ rank warning
unfolding rank
warning_above = omega arith

resolve_verdict_iff_example :
    (rank warning ≤ rank (resolve_verdict vocab report).document_disposition)
    ↔ Any (λ c. Reaches warning (disposition_of (vocab c))) report
resolve_verdict_iff_example = resolve_verdict_iff vocab warning report warning_above

same_members : (c : String) → Any (λ x. x ≡ c) report ↔ Any (λ x. x ≡ c) once
same_members c = (
  elim [ inl a ↦ inr (inl a) | inr b ↦ elim b [ inl a ↦ inl a | inr e ↦ inr e ] ],
  elim [ inl a ↦ inr (inl a) | inr b ↦ elim b [ inl a ↦ inl a | inr z ↦ absurd z ] ],
)

resolve_verdict_same_example :
    (resolve_verdict vocab report).document_disposition
    ≡ (resolve_verdict vocab once).document_disposition
resolve_verdict_same_example = resolve_verdict_same vocab report once same_members
