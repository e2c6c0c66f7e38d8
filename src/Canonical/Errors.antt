-- ===== src/Canonical/Errors.antt =====
-- What the canonicalizer throws, one constructor for each message of a CanonicalizationError.
pub data CanonError : Type 0 where
  no_text no_algorithm unknown_algorithm algorithm_not_available : CanonError
  too_deep : CanonError
  core_not_object terms_not_object term_not_text term_not_texts term_wrong_type : CanonError
  bad_category no_index malformed_asset_hash conflicting_hashes dangling_asset : CanonError
  not_serializable duplicate_id reserved_name reserved_reference : CanonError
  number_not_representable not_nfc ill_formed split_sequence : CanonError
  duplicate_key not_json resource_limit unterminated out_of_fuel : CanonError
