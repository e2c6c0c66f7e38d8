-- ===== src/Canonical/Document.antt =====
-- `canonicalContent` and `computeDocumentId`: the parts of a document, from their texts to the id.
pub mod Derived
mod Tests
use cdx_file_format_spec.Prelude.{
  ℕ, Bool, true, false, List, [], ◌∷◌, Option, none, some, Result, ok, err, ◌>>=◌, if◌then◌else◌,
  Units, Bytes, codes,
}
use cdx_file_format_spec.Json.{Json, Members, object, member, no_members}
use cdx_file_format_spec.Merkle.ContentHash.{print_hash}
use cdx_file_format_spec.Canonical.Errors.{CanonError}
use cdx_file_format_spec.Canonical.Hashes.{canonical_hash_name}
use cdx_file_format_spec.Canonical.StrictJson.{JsonRuntime, parse_strict_json}
use cdx_file_format_spec.Canonical.Depth.{max_canonicalization_depth, assert_bounded_depth}
use cdx_file_format_spec.Canonical.Metadata.{project_metadata}
use cdx_file_format_spec.Canonical.Assets.{AssetMap, build_asset_map}
use cdx_file_format_spec.Canonical.Marks.{Serializer, jcs_of}
use cdx_file_format_spec.Canonical.Transform.{canon}
use cdx_file_format_spec.Canonical.StoredBytes.{validate_stored_byte_invariants}
use cdx_file_format_spec.Canonical.Ids.Rename.{alpha_rename_ids}

pub record DocumentParts : Type 0 where
  pub manifest : Units
  pub content : Units
  pub dublin_core : Units
  pub asset_indexes : Units → Option Units

-- The packages and the runtime: JSON.parse, the serializer of RFC 8785, Normalization Form C, the hash
-- functions by name with the names that there are, and UTF-8.
pub record Platform : Type 0 where
  pub runtime : JsonRuntime
  pub jcs : Serializer
  pub nfc : Units → Units
  pub available : List Units
  pub digest : Units → Bytes → Bytes
  pub utf8 : Units → Bytes

-- { content, metadata }
abbrev pub projected : Json → Members → Json
projected content metadata =
    object
      (member (codes "content") content (member (codes "metadata") (object metadata) no_members))

module _ (platform : Platform) where
  abbrev pub validate_if : Bool → Json → Result CanonError (Unit {0})
  validate_if true value = validate_stored_byte_invariants platform.nfc value
  validate_if false value = ok tt

  -- What follows the transform of the content.
  abbrev pub finish_content : Bool → Members → Json → Result CanonError Json
  finish_content validate metadata canonicalized = do
    valid ← validate_if validate (projected canonicalized metadata)
    renamed ← alpha_rename_ids platform.jcs canonicalized
    ok (projected renamed metadata)

  -- The values of the parts, once they are parsed.
  unfoldable pub canonical_values :
      Bool → Json → Json → Json → (Units → Option Units) → Result CanonError Json
  canonical_values validate manifest content dublin_core indexes = do
    bounded ← assert_bounded_depth content max_canonicalization_depth
    bounded' ← assert_bounded_depth dublin_core max_canonicalization_depth
    assets ← build_asset_map platform.runtime indexes manifest
    metadata ← project_metadata dublin_core
    canonicalized ← canon platform.jcs assets none false content
    finish_content validate metadata canonicalized

  unfoldable pub canonical_content : DocumentParts → Bool → Result CanonError Json
  unfolding canonical_values
  canonical_content parts validate = do
    manifest ← parse_strict_json platform.runtime parts.manifest
    content ← parse_strict_json platform.runtime parts.content
    dublin_core ← parse_strict_json platform.runtime parts.dublin_core
    canonical_values validate manifest content dublin_core parts.asset_indexes

  unfoldable pub compute_document_id : DocumentParts → Units → Bool → Result CanonError Units
  unfolding canonical_content
  compute_document_id parts algorithm validate = do
    name ← canonical_hash_name platform.available platform.digest algorithm
    canonical ← canonical_content parts validate
    serialized ← jcs_of platform.jcs canonical
    ok (print_hash algorithm (platform.digest name (platform.utf8 serialized)))
