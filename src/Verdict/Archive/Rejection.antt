-- ===== src/Verdict/Archive/Rejection.antt =====
-- Which containers are rejected.
use cdx_file_format_spec.Prelude.{
  ◌≤◌, String, ◌≡◌, refl, sym, subst, ◌∙◌, ap, ◌↔◌, List, [], ◌∷◌, map, Any, Option, none, some,
  arith, inl, inr,
}
use cdx_file_format_spec.Verdict.{
  Disposition, reject, warning, ignore, integrity_error, rank, disposition_of, resolve_verdict,
}
use cdx_file_format_spec.Verdict.Most.{Reaches, resolve_verdict_iff}
use cdx_file_format_spec.Container.Names.{
  Code, code_id, first_file_not_manifest, entry_integrity_indeterminate,
}
use cdx_file_format_spec.Verdict.Archive.{archive_verdict}

-- The rows of the specification's table for the container: every code rejects but two.
abbrev pub row : Code → Option Disposition
row first_file_not_manifest = some warning
row entry_integrity_indeterminate = none
row _ = some reject

rank_reject : (d : Disposition) → rank reject ≤ rank d → d ≡ reject
unfolding rank
rank_reject ignore h = absurd (omega (arith, h))
rank_reject warning h = absurd (omega (arith, h))
rank_reject integrity_error h = absurd (omega (arith, h))
rank_reject reject h = refl

rank_refl : (d : Disposition) → rank d ≤ rank d
rank_refl d = omega arith

Any-map :
    (P : String → Type 0) (Q : Code → Type 0) (cs : List Code)
    → ((c : Code) → P (code_id c) ↔ Q c)
    → Any P (map code_id cs) ↔ Any Q cs
Any-map P Q [] h = (λ a. a, λ a. a)
Any-map P Q (c ∷ cs) h = (
  elim [ inl p ↦ inl ((h c).0 p) | inr a ↦ inr ((Any-map P Q cs h).0 a) ],
  elim [ inl q ↦ inl ((h c).1 q) | inr a ↦ inr ((Any-map P Q cs h).1 a) ],
)

Reaches-reject : (o : Option Disposition) → Reaches reject o ↔ (o ≡ some reject)
Reaches-reject o = (λ (d, e, h). e ∙ ap some (rank_reject d h), λ e. (reject, e, rank_refl reject))

above_ignore : 1 ≤ rank reject
unfolding rank
above_ignore = omega arith

-- If the vocabulary gives each code of the container the disposition of its row, a container is
-- rejected exactly if the reader found something else than a first file that is no manifest and
-- entries that it could not check for want of a decompressor.
pub archive_verdict-reject_iff :
    (vocab : String → Option String) (findings : List Code)
    → ((c : Code) → disposition_of (vocab (code_id c)) ≡ row c)
    → ((archive_verdict vocab findings).document_disposition ≡ reject)
      ↔ Any (λ c. row c ≡ some reject) findings
unfolding archive_verdict
archive_verdict-reject_iff vocab findings rows =
    let most = resolve_verdict_iff vocab reject (map code_id findings) above_ignore in
    let below : (archive_verdict vocab findings).document_disposition ≡ reject
        → rank reject ≤ rank (resolve_verdict vocab (map code_id findings)).document_disposition =
      λ e. subst (λ d. rank reject ≤ rank d) (sym e) (rank_refl reject) in
    let named =
      Any-map (λ c. Reaches reject (disposition_of (vocab c))) (λ c. row c ≡ some reject) findings
        (λ c.
          (λ r. sym (rows c) ∙ (Reaches-reject _).0 r, λ e. (Reaches-reject _).1 (rows c ∙ e))) in
    (λ e. named.0 (most.0 (below e)), λ a. rank_reject _ (most.1 (named.1 a)))
