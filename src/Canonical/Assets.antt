-- ===== src/Canonical/Assets.antt =====
-- `buildAssetMap` and `resolveAssetRef`: which archive path stands for which content hash. A map is an
-- association list; setting an entry to the value that it has changes nothing.
pub mod Registered
mod Tests
use cdx_file_format_spec.Prelude.{
  ℕ, Bool, true, false, not, ◌&&◌, ◌||◌, leb, ◌==◌, List, [], ◌∷◌, ◌++◌, Option, none, some, Result,
  ok, err, ◌>>=◌, if◌then◌else◌, Units, codes, same_units, starts_with,
}
use cdx_file_format_spec.Json.{
  Json, Items, Members, array, object, no_items, item, no_members, member, get, as_text,
}
use cdx_file_format_spec.Canonical.Errors.{
  CanonError, bad_category, no_index, malformed_asset_hash, conflicting_hashes, dangling_asset,
}
use cdx_file_format_spec.Canonical.Paths.{normalize_path, is_valid_path_segment}
use cdx_file_format_spec.Canonical.Hashes.{is_valid_content_hash}
use cdx_file_format_spec.Canonical.StrictJson.{JsonRuntime, parse_strict_json}

abbrev pub AssetMap : Type 0
AssetMap = List (Units × Units)

unfoldable pub asset_get : Units → AssetMap → Option Units
asset_get path [] = none
asset_get path ((p, h) ∷ map) = if same_units p path then some h else asset_get path map

-- The path and hash of an entry that carries both.
abbrev pub path_and_hash : Option Units → Option Units → Option (Units × Units)
path_and_hash (some p) (some h) = some (p, h)
path_and_hash _ _ = none

abbrev pub entry_of : Json → Option (Units × Units)
entry_of (object ms) =
    path_and_hash (as_text (get (codes "path") ms)) (as_text (get (codes "hash") ms))
entry_of _ = none

-- normalizePath(`assets/${category}/${p}`)
abbrev pub archive_path : Units → Units → Units
archive_path category p = normalize_path (codes "assets/" ++ category ++ b'/' ∷ p)

abbrev pub insert_asset : AssetMap → Units → Units → Result CanonError AssetMap
insert_asset map path h = elim (asset_get path map) [
  | none ↦ ok ((path, h) ∷ map)
  | some existing ↦ if same_units existing h then ok map else err conflicting_hashes
]

unfoldable pub register_entry : Units → AssetMap → Json → Result CanonError AssetMap
register_entry category map entry = elim (entry_of entry) [
  | none ↦ ok map
  | some (p, h) ↦
      if not (is_valid_content_hash (some h))
      then err malformed_asset_hash
      else insert_asset map (archive_path category p) h
]

unfoldable pub register_entries : Units → AssetMap → Items → Result CanonError AssetMap
unfolding register_entry
register_entries category map no_items = ok map
register_entries category map (item entry entries) = do
  map' ← register_entry category map entry
  register_entries category map' entries

-- The entries of an index, if it is an object with an array of them.
abbrev pub entries_of : Json → Items
entries_of (object ms) = elim (get (codes "assets") ms) [
  | some (array entries) ↦ entries
  | _ ↦ no_items
]
entries_of _ = no_items

-- manifest.assets, if it is an object.
abbrev pub assets_of : Json → Members
assets_of (object ms) = elim (get (codes "assets") ms) [
  | some (object assets) ↦ assets
  | _ ↦ no_members
]
assets_of _ = no_members

module _ (runtime : JsonRuntime) (indexes : Units → Option Units) where
  abbrev pub read_index : Option Units → Result CanonError Json
  read_index none = err no_index
  read_index (some raw) = parse_strict_json runtime raw

  unfoldable pub register_categories : AssetMap → Members → Result CanonError AssetMap
  unfolding register_entries
  register_categories map no_members = ok map
  register_categories map (member category _ rest) =
      if not (is_valid_path_segment category) then err bad_category else do
        index ← read_index (indexes category)
        map' ← register_entries category map (entries_of index)
        register_categories map' rest

  unfoldable pub build_asset_map : Json → Result CanonError AssetMap
  unfolding register_categories
  build_asset_map manifest = register_categories [] (assets_of manifest)

-- A prefix of a text.
unfoldable pub has_prefix : Units → Units → Bool
has_prefix [] s = true
has_prefix (p ∷ ps) [] = false
has_prefix (p ∷ ps) (c ∷ s) = p == c && has_prefix ps s

abbrev pub is_letter : ℕ → Bool
is_letter c = (leb b'A' c && leb c b'Z') || (leb b'a' c && leb c b'z')

abbrev pub is_scheme_unit : ℕ → Bool
is_scheme_unit c =
    is_letter c || ((leb b'0' c && leb c b'9') || (c == b'+' || (c == b'.' || c == b'-')))

-- [A-Za-z0-9+.-]*: at the start of a text
unfoldable pub scheme_rest : Units → Bool
scheme_rest [] = false
scheme_rest (c ∷ s) = c == b':' || (is_scheme_unit c && scheme_rest s)

-- /^[A-Za-z][A-Za-z0-9+.-]*:/
abbrev pub has_scheme : Units → Bool
has_scheme [] = false
has_scheme (c ∷ s) = is_letter c && scheme_rest s

unfoldable pub resolve_asset_ref : Units → AssetMap → Bool → Result CanonError Units
unfolding scheme_rest has_prefix asset_get
resolve_asset_ref ref assets external =
    if external || (starts_with b'#' ref || has_scheme ref)
    then ok ref
    else elim (asset_get (normalize_path ref) assets) [
      | some hit ↦ ok hit
      | none ↦
          if has_prefix (codes "assets/") ref || has_prefix (codes "assets/") (normalize_path ref)
          then err dangling_asset
          else ok ref
    ]
