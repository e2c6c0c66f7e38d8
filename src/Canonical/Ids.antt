-- ===== src/Canonical/Ids.antt =====
-- `collectDefinedIds` over canonical content and `alphaRenameIds`. A walk over the members of an object
-- visits them in the order of their keys: what is found below each key is collected first, and these
-- lists are then put in that order.
pub mod Rename
mod Tests
use cdx_file_format_spec.Prelude.{
  ℕ, Bool, true, false, not, ◌&&◌, ◌||◌, List, [], ◌∷◌, ◌++◌, Option, none, some, Result, ok, err,
  ◌>>=◌, if◌then◌else◌, Units, codes, same_units, includes, less_units,
}
use cdx_file_format_spec.Json.{
  Json, Items, Members, null, bool, number, text, array, object, no_items, item, no_members, member,
  get, as_text, is_text, to_list, of_list,
}
use cdx_file_format_spec.Canonical.Errors.{CanonError, duplicate_id, reserved_name}
use cdx_file_format_spec.Canonical.Marks.{Serializer, sort_dedup_marks, set_member}
use cdx_file_format_spec.Canonical.Transform.{is_block_content_key, content_barrier_key, is_kind}
use cdx_file_format_spec.Canonical.Anchors.{
  RelabelMap, relabel_map, rename_id, is_canonical_name, rewrite_content_anchor,
}

abbrev pub sub_block_id_arrays : List Units
sub_block_id_arrays = codes "lines" ∷ codes "subfigures" ∷ []

abbrev pub data_payload_id_arrays : List Units
data_payload_id_arrays = codes "entries" ∷ []

abbrev pub preserved_id_block_types : List Units
preserved_id_block_types = codes "semantic:term" ∷ codes "semantic:footnote" ∷ []

abbrev pub type_of : Members → Option Units
type_of ms = as_text (get (codes "type") ms)

abbrev pub id_of : Members → Option Units
id_of ms = as_text (get (codes "id") ms)

-- inArray && parentKey !== undefined && keys.has(parentKey)
abbrev pub is_item_of : List Units → Bool → Option Units → Bool
is_item_of keys in_array none = false
is_item_of keys in_array (some key) = in_array && includes keys key

abbrev pub defined_of : Option Units → Option Units → Bool → Option Units → Option Units
defined_of none id in_array parent_key =
    if is_item_of sub_block_id_arrays in_array parent_key then id else none
defined_of (some kind) id in_array parent_key =
    if same_units kind (codes "text")
    then none
    else if is_item_of data_payload_id_arrays in_array parent_key
    then none
    else id

unfoldable pub defined_id : Members → Bool → Bool → Option Units → Option Units
unfolding get
defined_id ms in_marks in_array parent_key =
    if in_marks
    then (if is_kind (type_of ms) (codes "anchor") then id_of ms else none)
    else defined_of (type_of ms) (id_of ms) in_array parent_key

-- An id that the walk meets, and why it is left as authored, if it is.
pub record FoundId : Type 0 where
  pub id : Units
  pub preserved : Bool
  pub by_type : Bool

abbrev pub is_preserved_type : Option Units → Bool
is_preserved_type none = false
is_preserved_type (some kind) = includes preserved_id_block_types kind

abbrev pub found_of : Bool → Bool → Option Units → List FoundId
found_of blocked by_type none = []
found_of blocked by_type (some id) =
    record { id = id; preserved = blocked || by_type; by_type = by_type } ∷ []

-- Object.keys(value).sort()
abbrev pub insert_found :
    Units → List FoundId → List (Units × List FoundId) → List (Units × List FoundId)
insert_found key fs [] = (key, fs) ∷ []
insert_found key fs ((k, gs) ∷ rest) =
    let later = insert_found key fs rest in
    if less_units key k then (key, fs) ∷ (k, gs) ∷ rest else (k, gs) ∷ later

abbrev pub flatten_found : List (Units × List FoundId) → List FoundId
flatten_found [] = []
flatten_found ((k, fs) ∷ rest) = fs ++ flatten_found rest

abbrev pub is_array : Json → Bool
is_array (array vs) = true
is_array _ = false

unfoldable mutual
  unfolding defined_id

  pub walk : Bool → Bool → Option Units → Bool → Json → List FoundId
  walk in_marks in_array parent_key blocked (array vs) = walk_items in_marks parent_key blocked vs
  walk in_marks in_array parent_key blocked (object ms) =
      found_of blocked (not in_marks && is_preserved_type (type_of ms))
        (defined_id ms in_marks in_array parent_key)
      ++ flatten_found (walk_members blocked ms)
  walk in_marks in_array parent_key blocked _ = []

  pub walk_items : Bool → Option Units → Bool → Items → List FoundId
  walk_items in_marks parent_key blocked no_items = []
  walk_items in_marks parent_key blocked (item v vs) =
      walk in_marks true parent_key blocked v ++ walk_items in_marks parent_key blocked vs

  pub walk_members : Bool → Members → List (Units × List FoundId)
  walk_members blocked no_members = []
  walk_members blocked (member key v ms) =
      insert_found key
        (walk (same_units key (codes "marks") && is_array v) false (some key)
          (blocked || same_units key content_barrier_key) v)
        (walk_members blocked ms)

-- The first occurrences, and whether some id is defined again.
pub record CollectedIds : Type 0 where
  pub ids : List Units
  pub preserved : List Units
  pub preserved_by_type : List Units
  pub has_duplicate : Bool

abbrev pub put_if : Bool → Units → List Units → List Units
put_if true id ids = id ∷ ids
put_if false id ids = ids

unfoldable pub collect_loop : List Units → List FoundId → CollectedIds
collect_loop seen [] = record {
  ids = [];
  preserved = [];
  preserved_by_type = [];
  has_duplicate = false;
}
collect_loop seen (f ∷ fs) =
    let again = collect_loop seen fs in
    let rest = collect_loop (f.id ∷ seen) fs in
    if includes seen f.id
    then record {
      ids = again.ids;
      preserved = again.preserved;
      preserved_by_type = again.preserved_by_type;
      has_duplicate = true;
    }
    else record {
      ids = f.id ∷ rest.ids;
      preserved = put_if f.preserved f.id rest.preserved;
      preserved_by_type = put_if f.by_type f.id rest.preserved_by_type;
      has_duplicate = rest.has_duplicate;
    }

unfoldable pub collect_defined_ids : Json → CollectedIds
unfolding walk collect_loop
collect_defined_ids content = collect_loop [] (walk false false none false content)
