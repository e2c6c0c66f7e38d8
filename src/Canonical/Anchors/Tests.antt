-- ===== src/Canonical/Anchors/Tests.antt =====
-- Runs of `rewriteContentAnchor`.
use cdx_file_format_spec.Prelude.{List, [], ◌∷◌, ok, err, ◌≡◌, refl, Units, codes}
use cdx_file_format_spec.Canonical.Errors.{reserved_reference}
use cdx_file_format_spec.Canonical.Anchors.{
  decimal_loop, number_ids, name_of_id, is_canonical_name, relabel_map, rewrite_content_anchor,
}
use cdx_file_format_spec.Canonical.Anchors.Rewritten.{rewrite_content_anchor-injective}

abbrev ids : List Units
ids = codes "intro" ∷ codes "end" ∷ []

eleventh : decimal_loop 10 10 ≡ codes "10"
unfolding decimal_loop
eleventh = refl

rewrites : rewrite_content_anchor (codes "#end/3-5") (relabel_map ids []) ≡ ok (codes "#b1/3-5")
unfolding rewrite_content_anchor name_of_id number_ids decimal_loop
rewrites = refl

-- An id that is left as authored takes no number.
skips :
    rewrite_content_anchor (codes "#end") (relabel_map ids (codes "intro" ∷ [])) ≡ ok (codes "#b0")
unfolding rewrite_content_anchor name_of_id number_ids decimal_loop
skips = refl

reserved : rewrite_content_anchor (codes "#b7") (relabel_map ids []) ≡ err reserved_reference
unfolding rewrite_content_anchor name_of_id number_ids decimal_loop is_canonical_name
reserved = refl

rewrite_content_anchor-injective_example : codes "#end/3-5" ≡ codes "#end/3-5"
rewrite_content_anchor-injective_example =
    rewrite_content_anchor-injective ids (codes "#end/3-5") (codes "#end/3-5") (codes "#b1/3-5")
      rewrites rewrites
