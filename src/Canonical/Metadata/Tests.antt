-- ===== src/Canonical/Metadata/Tests.antt =====
-- A part with a scalar creator, an empty description and an empty subject.
use cdx_file_format_spec.Prelude.{codes, []}
use cdx_file_format_spec.Json.{
  Json, Members, text, array, object, item, no_items, member, no_members,
}

abbrev core : Json
core = object (
    member (codes "terms")
      (object (
        member (codes "title") (text (codes "T")) (
          member (codes "description") (text []) (
            member (codes "creator") (text (codes "A"))
              (member (codes "subject") (array (item (text []) no_items)) no_members)))))
      no_members)

abbrev covered : Members
covered =
    member (codes "title") (text (codes "T"))
      (member (codes "creator") (array (item (text (codes "A")) no_items)) no_members)
