-- ===== src/Canonical/Metadata.antt =====
-- `projectMetadata`: the Dublin Core terms that a document's id covers.
pub mod Projected
mod Tests
use cdx_file_format_spec.Prelude.{
  Bool, true, false, List, [], ◌∷◌, Option, none, some, Result, ok, err, ◌>>=◌, if◌then◌else◌,
  Units, codes, same_units,
}
use cdx_file_format_spec.Json.{
  Json, Items, Members, null, text, array, object, no_items, item, no_members, member, get,
}
use cdx_file_format_spec.Canonical.Errors.{
  CanonError, core_not_object, terms_not_object, term_not_text, term_not_texts, term_wrong_type,
}

abbrev pub is_blank : Units → Bool
is_blank s = same_units s []

-- A term of STRING_TERMS: `none` is left out.
unfoldable pub text_term : Option Json → Result CanonError (Option Json)
text_term none = ok none
text_term (some (text s)) = ok (if is_blank s then none else some (text s))
text_term (some _) = err term_not_text

-- v.every((e) => typeof e === 'string')
unfoldable pub all_texts : Items → Bool
all_texts no_items = true
all_texts (item (text s) vs) = all_texts vs
all_texts (item _ vs) = false

-- v.filter((e) => e !== '')
unfoldable pub drop_blank : Items → Items
drop_blank no_items = no_items
drop_blank (item (text s) vs) =
    let rest = drop_blank vs in if is_blank s then rest else item (text s) rest
drop_blank (item v vs) = item v (drop_blank vs)

abbrev pub unless_empty : Items → Option Json
unless_empty no_items = none
unless_empty (item v vs) = some (array (item v vs))

-- A term of ARRAY_TERMS.
unfoldable pub array_term : Option Json → Result CanonError (Option Json)
unfolding all_texts drop_blank
array_term none = ok none
array_term (some (text s)) = ok (if is_blank s then none else some (array (item (text s) no_items)))
array_term (some (array vs)) =
    if all_texts vs then ok (unless_empty (drop_blank vs)) else err term_not_texts
array_term (some _) = err term_wrong_type

-- out[term] = v, before the terms that follow.
abbrev pub put : Units → Option Json → Members → Members
put term none out = out
put term (some v) out = member term v out

abbrev pub projected : Option Json → Option Json → Option Json → Option Json → Option Json → Members
projected title description creator subject language = put (codes "title") title (
    put (codes "description") description (
      put (codes "creator") creator
        (put (codes "subject") subject (put (codes "language") language no_members))))

unfoldable pub project_terms : Members → Result CanonError Members
unfolding text_term array_term
project_terms terms = do
  title ← text_term (get (codes "title") terms)
  description ← text_term (get (codes "description") terms)
  creator ← array_term (get (codes "creator") terms)
  subject ← array_term (get (codes "subject") terms)
  language ← array_term (get (codes "language") terms)
  ok (projected title description creator subject language)

abbrev pub project_member : Option Json → Result CanonError Members
project_member none = ok no_members
project_member (some (object terms)) = project_terms terms
project_member (some _) = err terms_not_object

unfoldable pub project_metadata : Json → Result CanonError Members
unfolding project_terms
project_metadata (object core) = project_member (get (codes "terms") core)
project_metadata _ = err core_not_object
