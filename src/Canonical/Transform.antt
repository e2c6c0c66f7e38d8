-- ===== src/Canonical/Transform.antt =====
-- `canon`, the transform of the content. An object is transformed in two steps, as in the code: its own
-- edits (`own_edit`, which may throw), and then the walk over its members in their order.
pub mod Strip
pub mod Derived
pub mod Nesting
mod Tests
use cdx_file_format_spec.Prelude.{
  Bool, true, false, not, ◌&&◌, ◌||◌, List, [], ◌∷◌, Option, none, some, Result, ok, err, ◌>>=◌,
  if◌then◌else◌, Units, codes, same_units, includes,
}
use cdx_file_format_spec.Json.{
  Json, Items, Members, null, bool, number, text, array, object, no_items, item, no_members, member,
  get, as_text, is_true, to_list, of_list,
}
use cdx_file_format_spec.Canonical.Errors.{CanonError}
use cdx_file_format_spec.Canonical.Assets.{AssetMap, resolve_asset_ref}
use cdx_file_format_spec.Canonical.Marks.{Serializer, normalize_marks}
use cdx_file_format_spec.Canonical.Runs.{merge_adjacent_text}

abbrev pub block_content_keys : List Units
block_content_keys =
    codes "blocks"
    ∷ codes "caption"
    ∷ codes "children"
    ∷ codes "content"
    ∷ codes "hints"
    ∷ codes "preamble"
    ∷ []

abbrev pub content_barrier_key : Units
content_barrier_key = codes "attributes"

abbrev pub is_block_content_key : Option Units → Bool
is_block_content_key none = false
is_block_content_key (some key) = includes block_content_keys key

abbrev pub is_kind : Option Units → Units → Bool
is_kind none s = false
is_kind (some kind) s = same_units kind s

-- `delete`: the fields that are derived or transient.
unfoldable pub is_deleted : Option Units → Units → Bool
is_deleted none key = false
is_deleted (some kind) key =
    same_units key (codes "crdt")
    || ((same_units kind (codes "measurement") && same_units key (codes "display"))
        || (same_units kind (codes "codeBlock") && same_units key (codes "tokens")))

-- `isDerivedField`, which the walk over raw content uses for the same fields.
unfoldable pub is_derived_field : Option Units → Units → Bool
is_derived_field none key = false
is_derived_field (some kind) key =
    if same_units key (codes "crdt")
    then true
    else if same_units key (codes "display")
    then same_units kind (codes "measurement")
    else if same_units key (codes "tokens")
    then same_units kind (codes "codeBlock")
    else false

-- What the switch over `type` does to one field.
pub data Edit : Type 0 where
  untouched : Edit
  dropped : Units → Edit
  replaced : Units → Json → Edit

-- if (typeof obj[key] === 'string') obj[key] = resolveAssetRef(…)
abbrev pub resolve_field : AssetMap → Units → Bool → Option Units → Result CanonError Edit
resolve_field assets key external none = ok untouched
resolve_field assets key external (some ref) = do
  resolved ← resolve_asset_ref ref assets external
  ok (replaced key (text resolved))

-- if (normalized.length === 0) delete obj.marks; else obj.marks = normalized
abbrev pub marks_or_none : List Json → Edit
marks_or_none [] = dropped (codes "marks")
marks_or_none (m ∷ ms) = replaced (codes "marks") (array (of_list (m ∷ ms)))

-- What the walk over the members does to one of them.
pub data Action : Type 0 where
  delete recur : Action
  keep : Json → Action

abbrev pub edit_action : Edit → Units → Action
edit_action untouched key = recur
edit_action (dropped k) key = if same_units k key then delete else recur
edit_action (replaced k v) key = if same_units k key then keep v else recur

abbrev pub action : Option Units → Edit → Units → Action
action kind edit key = if is_deleted kind key then delete else edit_action edit key

-- obj[key], where the fields before it are done
abbrev pub finish :
    Action → Units → Result CanonError Json → Result CanonError Members → Result CanonError Members
finish delete key inner rest = rest
finish (keep v) key inner rest = do ms ← rest; ok (member key v ms)
finish recur key inner rest = do v ← inner; ms ← rest; ok (member key v ms)

module _ (jcs : Serializer) (assets : AssetMap) where
  -- The marks of a text node. Marks that are no array stay, since the walk skips them.
  abbrev pub edit_marks : Option Json → Result CanonError Edit
  edit_marks none = ok untouched
  edit_marks (some (array marks)) = do
    normalized ← normalize_marks jcs (to_list marks) assets
    ok (marks_or_none normalized)
  edit_marks (some v) = ok (replaced (codes "marks") v)

  unfoldable pub own_edit : Option Units → Members → Result CanonError Edit
  unfolding get
  own_edit kind ms =
      if is_kind kind (codes "image") || is_kind kind (codes "svg")
      then resolve_field assets (codes "src") (is_true (get (codes "external") ms))
          (as_text (get (codes "src") ms))
      else if is_kind kind (codes "signature")
      then resolve_field assets (codes "image") (is_true (get (codes "external") ms))
          (as_text (get (codes "image") ms))
      else if is_kind kind (codes "text")
      then edit_marks (get (codes "marks") ms)
      else ok untouched

  abbrev pub finish_array : Option Units → Bool → List Json → Result CanonError Json
  finish_array key blocked vs =
      if not blocked && is_block_content_key key
      then (do merged ← merge_adjacent_text jcs vs; ok (array (of_list merged)))
      else ok (array (of_list vs))

  unfoldable mutual
    unfolding own_edit

    pub canon : Option Units → Bool → Json → Result CanonError Json
    canon key blocked (array vs) = do
      mapped ← canon_items key blocked vs
      finish_array key blocked mapped
    canon key blocked (object ms) = do
      edit ← own_edit (as_text (get (codes "type") ms)) ms
      done ← canon_members (as_text (get (codes "type") ms)) edit blocked ms
      ok (object done)
    canon key blocked v = ok v

    pub canon_items : Option Units → Bool → Items → Result CanonError (List Json)
    canon_items key blocked no_items = ok []
    canon_items key blocked (item v vs) = do
      first ← canon key blocked v
      rest ← canon_items key blocked vs
      ok (first ∷ rest)

    pub canon_members : Option Units → Edit → Bool → Members → Result CanonError Members
    canon_members kind edit blocked no_members = ok no_members
    canon_members kind edit blocked (member key v ms) =
        finish (action kind edit key) key
          (canon (some key) (blocked || same_units key content_barrier_key) v)
          (canon_members kind edit blocked ms)
