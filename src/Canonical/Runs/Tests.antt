-- ===== src/Canonical/Runs/Tests.antt =====
-- Runs of `mergeAdjacentText`, with a serializer that only knows the empty array.
use cdx_file_format_spec.Prelude.{
  List, [], ◌∷◌, ◌++◌, true, none, some, ok, ◌≡◌, refl, subst, All, codes,
}
use cdx_file_format_spec.Json.{
  Json, Members, text, array, object, no_items, member, no_members, get,
}
use cdx_file_format_spec.Canonical.Marks.{Serializer, jcs_of, set_member}
use cdx_file_format_spec.Canonical.Runs.{
  is_plain, only_plain_keys, is_mergeable_text_node, with_value, or_empty, marks_equal, absorbs,
  merge_step, merge_loop, merge_adjacent_text,
}
use cdx_file_format_spec.Canonical.Runs.Split.{merge_adjacent_text-split}
use cdx_file_format_spec.Canonical.Runs.Grouped.{HasMarks, IsMerged}
use cdx_file_format_spec.Canonical.Runs.Merged.{merge_adjacent_text-IsMerged}

abbrev plain : Serializer
plain (array no_items) = some (codes "[]")
plain _ = none

abbrev words : Members
words =
    member (codes "type") (text (codes "text"))
      (member (codes "value") (text (codes "ab")) no_members)

abbrev part : Members → Json
part ms = object ms

abbrev break : Json
break = object (member (codes "type") (text (codes "break")) no_members)

abbrev divided : List Json
divided =
    break ∷ part (with_value (codes "a") words) ∷ part (with_value (codes "b") words) ∷ break ∷ []

abbrev whole : List Json
whole = break ∷ part (with_value (codes "ab") words) ∷ break ∷ []

divided_runs : merge_adjacent_text plain divided ≡ ok whole
unfolding merge_adjacent_text merge_loop merge_step absorbs marks_equal is_mergeable_text_node
    is_plain only_plain_keys jcs_of get set_member
divided_runs = refl

words_plain : is_plain words ≡ true
unfolding is_plain only_plain_keys get
words_plain = refl

words_serialized : jcs_of plain (or_empty (get (codes "marks") words)) ≡ ok (codes "[]")
unfolding jcs_of get
words_serialized = refl

merge_adjacent_text-split_example :
    merge_adjacent_text plain (
      (break ∷ [])
      ++ part (with_value (codes "a") words) ∷ part (with_value (codes "b") words) ∷ break ∷ [])
    ≡ merge_adjacent_text plain ((break ∷ []) ++ part (with_value (codes "ab") words) ∷ break ∷ [])
merge_adjacent_text-split_example =
    merge_adjacent_text-split plain words (codes "a") (codes "b") (codes "[]") words_plain
      (words_serialized) (break ∷ []) (break ∷ [])

unmarked : (ms : Members) → get (codes "marks") ms ≡ none → HasMarks plain (object ms)
unfolding jcs_of
unmarked ms h l value e node =
    let same : ms ≡ l = cc e in
    let no_marks = subst (λ k. get (codes "marks") k ≡ none) same h in
    (codes "[]", rw no_marks refl)

divided_marks : All (HasMarks plain) divided
unfolding get set_member
divided_marks = (unmarked _ refl, (unmarked _ refl, (unmarked _ refl, (unmarked _ refl, tt))))

merge_adjacent_text-IsMerged_example :
    (out : List Json) × (merge_adjacent_text plain divided ≡ ok out) × IsMerged plain divided out
merge_adjacent_text-IsMerged_example = merge_adjacent_text-IsMerged plain divided divided_marks
