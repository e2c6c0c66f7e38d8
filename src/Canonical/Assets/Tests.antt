-- ===== src/Canonical/Assets/Tests.antt =====
-- A manifest with one category of one image.
use cdx_file_format_spec.Prelude.{
  ◌≡◌, refl, ok, err, Option, none, some, [], ◌∷◌, Units, codes, same_units, if◌then◌else◌, split,
  join, has_unit, false,
}
use cdx_file_format_spec.Json.{Json, text, array, object, item, no_items, member, no_members, get}
use cdx_file_format_spec.Canonical.Errors.{dangling_asset}
use cdx_file_format_spec.Canonical.Paths.{
  normalize_path, push_segments, from_bottom, is_valid_path_segment,
}
use cdx_file_format_spec.Canonical.Hashes.{is_valid_content_hash, digest_length}
use cdx_file_format_spec.Canonical.StrictJson.{JsonRuntime, parsed, syntax_error, parse_strict_json}
use cdx_file_format_spec.Canonical.Assets.{
  AssetMap, asset_get, build_asset_map, assets_of, resolve_asset_ref,
}
use cdx_file_format_spec.Canonical.Assets.Registered.{AnyCategory, build_asset_map_iff}

abbrev digest : Units
digest = codes "sha256:a1a1a1a1a1a1a1a1a1a1a1a1a1a1a1a1a1a1a1a1a1a1a1a1a1a1a1a1a1a1a1a1"

abbrev raw_index : Units
raw_index =
    codes
      "{\"assets\":[{\"path\":\"a.png\",\"hash\":\"sha256:a1a1a1a1a1a1a1a1a1a1a1a1a1a1a1a1a1a1a1a1a1a1a1a1a1a1a1a1a1a1a1a1\"}]}"

abbrev index : Json
index = object (
    member (codes "assets")
      (array (
        item
          (object (
            member (codes "path") (text (codes "a.png"))
              (member (codes "hash") (text digest) no_members)))
          no_items))
      no_members)

-- It knows one text, and strings with no escapes.
abbrev runtime : JsonRuntime
runtime = record {
  parse = λ t. if same_units t raw_index then parsed index else syntax_error;
  parse_string = λ raw. some raw;
}

abbrev indexes : Units → Option Units
indexes category = if same_units category (codes "images") then some raw_index else none

abbrev manifest : Json
manifest = object (
    member (codes "assets") (object (member (codes "images") (object no_members) no_members))
      no_members)

abbrev image_map : AssetMap
image_map = (codes "assets/images/a.png", digest) ∷ []

manifest_runs : build_asset_map runtime indexes manifest ≡ ok image_map
unfolding build_asset_map parse_strict_json is_valid_path_segment is_valid_content_hash
    normalize_path push_segments from_bottom split join get has_unit digest_length asset_get
manifest_runs = refl

resolved : resolve_asset_ref (codes "./assets/images/a.png") image_map false ≡ ok digest
unfolding resolve_asset_ref normalize_path push_segments from_bottom split join
resolved = refl

dangling : resolve_asset_ref (codes "assets/b.png") image_map false ≡ err dangling_asset
unfolding resolve_asset_ref normalize_path push_segments from_bottom split join
dangling = refl

found : asset_get (codes "assets/images/a.png") image_map ≡ some digest
unfolding asset_get
found = refl

build_asset_map_iff_example :
    AnyCategory runtime indexes (assets_of manifest) (codes "assets/images/a.png") digest
build_asset_map_iff_example =
    (build_asset_map_iff runtime indexes manifest image_map (codes "assets/images/a.png") digest
        manifest_runs).0
      found
