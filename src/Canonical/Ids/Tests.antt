-- ===== src/Canonical/Ids/Tests.antt =====
-- Runs of `alphaRenameIds`, with a serializer of objects of texts.
use cdx_file_format_spec.Prelude.{[], ◌∷◌, ◌++◌, some, ok, err, less_units, ◌≡◌, refl, Units, codes}
use cdx_file_format_spec.Json.{
  Json, Items, Members, text, array, object, no_items, item, no_members, member, get,
}
use cdx_file_format_spec.Canonical.Errors.{duplicate_id}
use cdx_file_format_spec.Canonical.Marks.{
  jcs_of, set_member, key_marks, sort_marks, insert_mark, dedup_marks, sort_dedup_marks,
}
use cdx_file_format_spec.Canonical.Anchors.{
  decimal_loop, number_ids, name_of_id, is_canonical_name, rewrite_content_anchor,
}
use cdx_file_format_spec.Canonical.Ids.{defined_id, walk, collect_loop, collect_defined_ids}
use cdx_file_format_spec.Canonical.Ids.Rename.{
  forbid_canonical_text_ids, rewrite_mark, rewrite_node, rewrite_ids, alpha_rename_ids,
}

mutual
  write : Json → Units
  write (text s) = b'"' ∷ s ++ b'"' ∷ []
  write (object ms) = b'{' ∷ write_members ms
  write _ = []

  write_members : Members → Units
  write_members no_members = b'}' ∷ []
  write_members (member k v ms) = k ++ b':' ∷ write v ++ b',' ∷ write_members ms

abbrev field : Units → Units → Members → Members
field k s ms = member k (text s) ms

abbrev mark : Units → Units → Units → Json
mark kind key s = object (field (codes "type") kind (field key s no_members))

abbrev anchor : Units → Json
anchor id = object (field (codes "id") id (field (codes "type") (codes "anchor") no_members))

abbrev words : Json → Items → Json
words m ms =
    object
      (field (codes "type") (codes "text") (member (codes "marks") (array (item m ms)) no_members))

-- A text with two anchors, and a link to one of them.
abbrev linked : Units → Units → Units → Json
linked first second target = array (
    item (words (anchor first) (item (anchor second) no_items))
      (item (words (mark (codes "link") (codes "href") target) no_items) no_items))

linked_run :
    alpha_rename_ids (λ v. some (write v)) (linked (codes "x") (codes "y") (codes "#x"))
    ≡ ok (linked (codes "b0") (codes "b1") (codes "#b0"))
unfolding alpha_rename_ids collect_defined_ids collect_loop walk defined_id
    forbid_canonical_text_ids rewrite_ids rewrite_mark rewrite_node rewrite_content_anchor
    number_ids name_of_id decimal_loop is_canonical_name sort_dedup_marks key_marks sort_marks
    insert_mark dedup_marks jcs_of set_member get write less_units
linked_run = refl

-- The same with the first anchor called z: the marks, which stand in the order of their
-- serializations, have changed places, and so have the names.
renamed_run :
    alpha_rename_ids (λ v. some (write v)) (linked (codes "y") (codes "z") (codes "#z"))
    ≡ ok (linked (codes "b0") (codes "b1") (codes "#b1"))
unfolding alpha_rename_ids collect_defined_ids collect_loop walk defined_id
    forbid_canonical_text_ids rewrite_ids rewrite_mark rewrite_node rewrite_content_anchor
    number_ids name_of_id decimal_loop is_canonical_name sort_dedup_marks key_marks sort_marks
    insert_mark dedup_marks jcs_of set_member get write less_units
renamed_run = refl

repeated :
    alpha_rename_ids (λ v. some (write v)) (linked (codes "x") (codes "x") (codes "#x"))
    ≡ err duplicate_id
unfolding alpha_rename_ids collect_defined_ids collect_loop walk defined_id get less_units
repeated = refl
