-- ===== src/Canonical/Marks/Tests.antt =====
-- Runs of `sortDedupMarks`, with a serializer of bare marks.
use cdx_file_format_spec.Prelude.{
  List, [], ◌∷◌, ◌++◌, none, some, ok, ◌≡◌, refl, Units, codes, includes, less_units, arith,
}
use cdx_file_format_spec.Json.{Json, text}
use cdx_file_format_spec.Canonical.Marks.{
  Serializer, Keyed, insert_mark, sort_marks, dedup_marks, jcs_of, key_marks, sort_dedup_marks,
}
use cdx_file_format_spec.Canonical.Marks.Order.{texts}
use cdx_file_format_spec.Canonical.Marks.Written.{
  written_as, sort_dedup_marks-same_written, sort_dedup_marks-IsWritten, IsWritten,
}

abbrev bare : Serializer
bare (text s) = some (b'"' ∷ s ++ b'"' ∷ [])
bare _ = none

abbrev quoted : Units → Keyed
quoted s = (text s, b'"' ∷ s ++ b'"' ∷ [])

abbrev authored : List Json
authored = text (codes "strong") ∷ text (codes "em") ∷ text (codes "strong") ∷ []

abbrev shorter : List Json
shorter = text (codes "em") ∷ text (codes "strong") ∷ []

abbrev authored_keyed : List Keyed
authored_keyed = quoted (codes "strong") ∷ quoted (codes "em") ∷ quoted (codes "strong") ∷ []

abbrev shorter_keyed : List Keyed
shorter_keyed = quoted (codes "em") ∷ quoted (codes "strong") ∷ []

authored_runs : sort_dedup_marks bare authored ≡ ok shorter
unfolding sort_dedup_marks key_marks jcs_of sort_marks insert_mark dedup_marks less_units
authored_runs = refl

key_authored : key_marks bare authored ≡ ok authored_keyed
unfolding key_marks jcs_of
key_authored = refl

key_shorter : key_marks bare shorter ≡ ok shorter_keyed
unfolding key_marks jcs_of
key_shorter = refl

same_texts : (s : Units) → includes (texts authored_keyed) s ≡ includes (texts shorter_keyed) s
same_texts s = ground arith

sort_dedup_marks-IsWritten_example : IsWritten bare authored_keyed authored
sort_dedup_marks-IsWritten_example =
    sort_dedup_marks-IsWritten bare authored authored_keyed key_authored

sort_dedup_marks-same_written_example :
    written_as bare (sort_dedup_marks bare authored)
    ≡ written_as bare (sort_dedup_marks bare shorter)
sort_dedup_marks-same_written_example =
    sort_dedup_marks-same_written bare authored shorter authored_keyed shorter_keyed key_authored
      key_shorter same_texts
