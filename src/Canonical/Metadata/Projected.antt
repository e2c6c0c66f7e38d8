-- ===== src/Canonical/Metadata/Projected.antt =====
-- The metadata projection on what it has projected.
use cdx_file_format_spec.Prelude.{◌≡◌, Option, Result, ok, codes}
use cdx_file_format_spec.Json.{Json, Members, no_members}
use cdx_file_format_spec.Canonical.Errors.{CanonError}
use cdx_file_format_spec.Canonical.Metadata.{put, projected}

-- A term that is kept as it is.
abbrev IsKept : (Option Json → Result CanonError (Option Json)) → Option Json → Type 0
IsKept term o = term o ≡ ok o

module _ (title description creator subject language : Option Json) where
  abbrev out : Members
  out = projected title description creator subject language

  abbrev after_language : Members
  after_language = put (codes "language") language no_members

  abbrev after_subject : Members
  after_subject = put (codes "subject") subject after_language

  abbrev after_creator : Members
  after_creator = put (codes "creator") creator after_subject

  abbrev after_description : Members
  after_description = put (codes "description") description after_creator
