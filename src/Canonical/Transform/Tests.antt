-- ===== src/Canonical/Transform/Tests.antt =====
-- Runs of `canon`, with a serializer that only knows the empty array.
use cdx_file_format_spec.Prelude.{[], none, some, false, ok, ◌≡◌, refl, codes}
use cdx_file_format_spec.Json.{
  Json, null, text, array, object, no_items, item, member, no_members, get,
}
use cdx_file_format_spec.Canonical.Marks.{
  Serializer, jcs_of, set_member, normalize_marks, sort_dedup_marks,
}
use cdx_file_format_spec.Canonical.Runs.{
  is_plain, only_plain_keys, is_mergeable_text_node, marks_equal, absorbs, merge_step, merge_loop,
  merge_adjacent_text,
}
use cdx_file_format_spec.Canonical.Transform.{is_deleted, is_derived_field, own_edit, canon}
use cdx_file_format_spec.Canonical.Transform.Strip.{strip_derived}
use cdx_file_format_spec.Canonical.Transform.Derived.{canon-strip_derived}

abbrev plain : Serializer
plain (array no_items) = some (codes "[]")
plain _ = none

abbrev words : Json → Json
words value =
    object (member (codes "type") (text (codes "text")) (member (codes "value") value no_members))

abbrev synced : Json
synced = object (
    member (codes "type") (text (codes "paragraph")) (
      member (codes "crdt") null (
        member (codes "children")
          (array (item (words (text (codes "a"))) (item (words (text (codes "b"))) no_items)))
          no_members)))

abbrev settled : Json
settled = object (
    member (codes "type") (text (codes "paragraph"))
      (member (codes "children") (array (item (words (text (codes "ab"))) no_items)) no_members))

synced_runs : canon plain [] none false synced ≡ ok settled
unfolding canon own_edit is_deleted get set_member merge_adjacent_text merge_loop merge_step absorbs
    marks_equal is_mergeable_text_node is_plain only_plain_keys jcs_of
synced_runs = refl

-- The tokens of a code block in a footnote mark: the walk skips the mark, and they stay.
abbrev anyone : Serializer
anyone v = some (codes "{}")

abbrev noted : Json
noted = object (
    member (codes "type") (text (codes "text")) (
      member (codes "value") (text (codes "a"))
        (member (codes "marks") (array (item footnote no_items)) no_members)))
  where
    code_block : Json
    code_block =
        object (
          member (codes "type") (text (codes "codeBlock"))
            (member (codes "tokens") null no_members))

    footnote : Json
    footnote = object (
        member (codes "type") (text (codes "footnote"))
          (member (codes "content") (array (item code_block no_items)) no_members))

noted_runs : canon anyone [] none false noted ≡ ok noted
unfolding canon own_edit is_deleted get set_member normalize_marks sort_dedup_marks jcs_of
noted_runs = refl

noted_stripped : strip_derived noted ≡ noted
unfolding strip_derived is_derived_field get
noted_stripped = refl

canon-strip_derived_example :
    canon plain [] none false (strip_derived (array (item synced no_items)))
    ≡ canon plain [] none false (array (item synced no_items))
canon-strip_derived_example = canon-strip_derived plain [] (array (item synced no_items))
