-- ===== src/Canonical/Runs.antt =====
-- `mergeAdjacentText`. The output array is a stack, with its last node on top; a node is merged into it
-- by writing its `value` anew.
mod Assign
mod Split
mod Grouped
mod Texts
mod Loop
mod Merged
mod Tests
use cdx_file_format_spec.Prelude.{
  Bool, true, false, ◌&&◌, ◌||◌, List, [], ◌∷◌, ◌++◌, Option, none, some, Result, ok, err, ◌>>=◌,
  if◌then◌else◌, Units, codes, same_units,
}
use cdx_file_format_spec.Json.{
  Json, Items, Members, null, text, array, object, no_items, no_members, member, get, as_text,
  is_text, is_defined,
}
use cdx_file_format_spec.Canonical.Errors.{CanonError}
use cdx_file_format_spec.Canonical.Marks.{Serializer, set_member, jcs_of}

-- for (const key of Object.keys(n)), with its test
unfoldable pub only_plain_keys : Members → Bool
only_plain_keys no_members = true
only_plain_keys (member k v ms) =
    (same_units k (codes "type") || (same_units k (codes "value") || same_units k (codes "marks")))
    && only_plain_keys ms

abbrev pub is_some : Option Units → Bool
is_some none = false
is_some (some s) = true

unfoldable pub is_plain : Members → Bool
is_plain ms =
    is_text (get (codes "type") ms) (codes "text")
    && (is_some (as_text (get (codes "value") ms)) && only_plain_keys ms)

unfoldable pub is_mergeable_text_node : Json → Bool
is_mergeable_text_node (object ms) = is_plain ms
is_mergeable_text_node _ = false

-- a.marks ?? []
abbrev pub or_empty : Option Json → Json
or_empty none = array no_items
or_empty (some null) = array no_items
or_empty (some v) = v

abbrev pub members_of : Json → Members
members_of (object ms) = ms
members_of _ = no_members

abbrev pub text_or_empty : Option Units → Units
text_or_empty none = []
text_or_empty (some s) = s

abbrev pub value_of : Members → Units
value_of ms = text_or_empty (as_text (get (codes "value") ms))

abbrev pub with_value : Units → Members → Members
with_value s ms = set_member (codes "value") (text s) ms

-- prev.value = (prev.value ?? '') + (node.value ?? '')
abbrev pub append_value : Json → Json → Json
append_value prev node =
    object (with_value (value_of (members_of prev) ++ value_of (members_of node)) (members_of prev))

abbrev pub bottom_up : List Json → List Json → List Json
bottom_up [] done = done
bottom_up (v ∷ out) done = bottom_up out (v ∷ done)

module _ (jcs : Serializer) where
  unfoldable pub marks_equal : Json → Json → Result CanonError Bool
  unfolding jcs_of
  marks_equal a b = do
    s ← jcs_of jcs (or_empty (get (codes "marks") (members_of a)))
    t ← jcs_of jcs (or_empty (get (codes "marks") (members_of b)))
    ok (same_units s t)

  -- The condition of the loop; `&&` does not compare the marks of other nodes.
  unfoldable pub absorbs : Json → Json → Result CanonError Bool
  unfolding marks_equal
  absorbs prev node =
      if is_mergeable_text_node node && is_mergeable_text_node prev
      then marks_equal prev node
      else ok false

  unfoldable pub merge_step : List Json → Json → Result CanonError (List Json)
  unfolding absorbs
  merge_step [] node = ok (node ∷ [])
  merge_step (prev ∷ out) node = do
    merged ← absorbs prev node
    ok (if merged then append_value prev node ∷ out else node ∷ prev ∷ out)

  unfoldable pub merge_loop : List Json → List Json → Result CanonError (List Json)
  unfolding merge_step
  merge_loop out [] = ok out
  merge_loop out (node ∷ nodes) = do out' ← merge_step out node; merge_loop out' nodes

  unfoldable pub merge_adjacent_text : List Json → Result CanonError (List Json)
  unfolding merge_loop
  merge_adjacent_text arr = do out ← merge_loop [] arr; ok (bottom_up out [])
