-- ===== src/Canonical/Document/Tests.antt =====
-- A run of `computeDocumentId` on a document of one block with sync state, with a runtime that knows its
-- texts, and a hash that is its input.
use cdx_file_format_spec.Prelude.{
  true, false, [], ◌∷◌, ◌++◌, none, some, ok, if◌then◌else◌, same_units, less_units, ◌≡◌, refl,
  Units, codes,
}
use cdx_file_format_spec.Json.{
  Json, Members, number, integer, text, object, no_members, member, get,
}
use cdx_file_format_spec.Json.Size.{size}
use cdx_file_format_spec.Merkle.ContentHash.{print_hash}
use cdx_file_format_spec.Canonical.Hashes.{canonical_hash_name}
use cdx_file_format_spec.Canonical.StrictJson.{
  JsonRuntime, parsed, syntax_error, scan, string_end, skip_token, detect_duplicate_keys,
  parse_strict_json,
}
use cdx_file_format_spec.Canonical.Depth.{depth_loop, assert_bounded_depth}
use cdx_file_format_spec.Canonical.Metadata.{project_metadata, project_terms, text_term, array_term}
use cdx_file_format_spec.Canonical.Assets.{register_categories, build_asset_map}
use cdx_file_format_spec.Canonical.Marks.{jcs_of, set_member}
use cdx_file_format_spec.Canonical.Transform.{is_deleted, is_derived_field, own_edit, canon}
use cdx_file_format_spec.Canonical.Transform.Strip.{strip_derived}
use cdx_file_format_spec.Canonical.StoredBytes.{
  is_well_formed_unicode, stored_text_violation, check_string, validate,
  validate_stored_byte_invariants,
}
use cdx_file_format_spec.Canonical.Anchors.{decimal_loop, number_ids, name_of_id}
use cdx_file_format_spec.Canonical.Ids.{defined_id, walk, collect_loop, collect_defined_ids}
use cdx_file_format_spec.Canonical.Ids.Rename.{
  forbid_canonical_text_ids, rewrite_node, rewrite_ids, alpha_rename_ids,
}
use cdx_file_format_spec.Canonical.Document.{
  DocumentParts, Platform, canonical_values, canonical_content, compute_document_id,
}
use cdx_file_format_spec.Canonical.Document.Derived.{
  with_content, compute_document_id-strip_derived,
}

abbrev manifest_text : Units
manifest_text = codes "{}"

abbrev core_text : Units
core_text = codes "{\"terms\":{\"title\":\"T\"}}"

abbrev synced_text : Units
synced_text = codes "{\"type\":\"p\",\"crdt\":1,\"id\":\"x\"}"

abbrev plain_text : Units
plain_text = codes "{\"type\":\"p\",\"id\":\"x\"}"

abbrev core : Json
core = object (
    member (codes "terms") (object (member (codes "title") (text (codes "T")) no_members))
      no_members)

abbrev plain : Json
plain =
    object
      (member (codes "type") (text (codes "p")) (member (codes "id") (text (codes "x")) no_members))

abbrev synced : Json
synced = object (
    member (codes "type") (text (codes "p")) (
      member (codes "crdt") (number (integer false 1))
        (member (codes "id") (text (codes "x")) no_members)))

abbrev unquote : Units → Units
unquote [] = []
unquote (c ∷ []) = []
unquote (c ∷ d ∷ s) = c ∷ unquote (d ∷ s)

abbrev inner : Units → Units
inner [] = []
inner (c ∷ s) = unquote s

abbrev runtime : JsonRuntime
runtime = record {
  parse = λ t.
      if same_units t manifest_text
      then parsed (object no_members)
      else if same_units t core_text
      then parsed core
      else if same_units t synced_text
      then parsed synced
      else if same_units t plain_text
      then parsed plain
      else syntax_error;
  parse_string = λ raw. some (inner raw);
}

mutual
  write : Json → Units
  write (text s) = b'"' ∷ s ++ b'"' ∷ []
  write (object ms) = b'{' ∷ write_members ms ++ b'}' ∷ []
  write _ = []

  write_members : Members → Units
  write_members no_members = []
  write_members (member k v ms) = k ++ b':' ∷ write v ++ b',' ∷ write_members ms

abbrev platform : Platform
platform = record {
  runtime = runtime;
  jcs = λ v. some (write v);
  nfc = λ s. s;
  available = codes "sha256" ∷ [];
  digest = λ name bytes. bytes;
  utf8 = λ s. s;
}

abbrev parts : DocumentParts
parts = record {
  manifest = manifest_text;
  content = synced_text;
  dublin_core = core_text;
  asset_indexes = λ c. none;
}

abbrev canonical_text : Units
canonical_text = codes "{content:{type:\"p\",id:\"b0\",},metadata:{title:\"T\",},}"

parts_run :
    compute_document_id platform parts (codes "sha256") true
    ≡ ok (print_hash (codes "sha256") canonical_text)
unfolding compute_document_id canonical_content canonical_values canonical_hash_name
    parse_strict_json detect_duplicate_keys scan string_end skip_token assert_bounded_depth
    depth_loop size build_asset_map register_categories project_metadata project_terms text_term
    array_term canon own_edit is_deleted get set_member validate_stored_byte_invariants validate
    check_string stored_text_violation is_well_formed_unicode alpha_rename_ids collect_defined_ids
    collect_loop walk defined_id forbid_canonical_text_ids rewrite_ids rewrite_node number_ids
    name_of_id decimal_loop jcs_of write less_units
parts_run = refl

synced_parsed : parse_strict_json runtime synced_text ≡ ok synced
unfolding parse_strict_json detect_duplicate_keys scan string_end skip_token
synced_parsed = refl

plain_parsed : parse_strict_json runtime plain_text ≡ ok (strip_derived synced)
unfolding parse_strict_json detect_duplicate_keys scan string_end skip_token strip_derived
    is_derived_field get
plain_parsed = refl

compute_document_id-strip_derived_example :
    compute_document_id platform (with_content platform parts plain_text) (codes "sha256") true
    ≡ ok (print_hash (codes "sha256") canonical_text)
compute_document_id-strip_derived_example =
    compute_document_id-strip_derived platform parts plain_text (codes "sha256") true synced
      (print_hash (codes "sha256") canonical_text) synced_parsed plain_parsed parts_run
