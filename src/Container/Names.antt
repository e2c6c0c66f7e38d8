-- ===== src/Container/Names.antt =====
-- The defect codes of zip-reader.ts, and its checks on names. A finding is its code: the sentence
-- beside it is not modelled.
pub mod Silence
pub mod Distinct
pub mod Safety
mod Tests
unfoldable pub use cdx_file_format_spec.Prelude.{has_unit, starts_with, split}
use cdx_file_format_spec.Prelude.{
  ℕ, ◌+◌, String, Bool, true, false, not, ◌||◌, List, [], ◌∷◌, ◌++◌, ltb, ◌==◌, if◌then◌else◌,
  Option, none, some,
}
use cdx_file_format_spec.Merkle.ContentHash.{Units, Bytes, codes}
use cdx_file_format_spec.Merkle.Block.{same_units, includes}
use cdx_file_format_spec.Container.Platform.{Platform}

pub data Code : Type 0 where
  unreadable duplicate_entry case_collision lfh_cd_disagreement data_outside_cd : Code
  unsafe_name symlink decompression_bomb crc_mismatch first_file_not_manifest : Code
  encryption_used multi_volume compression_method_forbidden : Code
  entry_integrity_indeterminate entry_undecodable : Code

-- The identifiers in conformance/errors.json.
unfoldable pub code_id : Code → String
code_id unreadable = "CDX-E-ARCHIVE-UNREADABLE"
code_id duplicate_entry = "CDX-E-ARCHIVE-DUPLICATE-ENTRY"
code_id case_collision = "CDX-E-ARCHIVE-CASE-COLLISION"
code_id lfh_cd_disagreement = "CDX-E-ARCHIVE-LFH-CD-DISAGREEMENT"
code_id data_outside_cd = "CDX-E-ARCHIVE-DATA-OUTSIDE-CD"
code_id unsafe_name = "CDX-E-ARCHIVE-UNSAFE-NAME"
code_id symlink = "CDX-E-ARCHIVE-SYMLINK-ENTRY"
code_id decompression_bomb = "CDX-E-ARCHIVE-DECOMPRESSION-BOMB"
code_id crc_mismatch = "CDX-E-ARCHIVE-CRC-MISMATCH"
code_id first_file_not_manifest = "CDX-E-ARCHIVE-FIRST-FILE-NOT-MANIFEST"
code_id encryption_used = "CDX-E-ARCHIVE-ENCRYPTION-USED"
code_id multi_volume = "CDX-E-ARCHIVE-MULTI-VOLUME"
code_id compression_method_forbidden = "CDX-E-ARCHIVE-COMPRESSION-METHOD-FORBIDDEN"
code_id entry_integrity_indeterminate = "CDX-E-ARCHIVE-ENTRY-INTEGRITY-INDETERMINATE"
code_id entry_undecodable = "CDX-E-ARCHIVE-ENTRY-UNDECODABLE"

-- if (test) add(code)
abbrev pub when : Bool → Code → List Code
when true c = c ∷ []
when false c = []

abbrev pub windows_device_names : List Units
windows_device_names =
    codes "con"
    ∷ codes "prn"
    ∷ codes "aux"
    ∷ codes "nul"
    ∷ codes "com1"
    ∷ codes "com2"
    ∷ codes "com3"
    ∷ codes "com4"
    ∷ codes "com5"
    ∷ codes "com6"
    ∷ codes "com7"
    ∷ codes "com8"
    ∷ codes "com9"
    ∷ codes "lpt1"
    ∷ codes "lpt2"
    ∷ codes "lpt3"
    ∷ codes "lpt4"
    ∷ codes "lpt5"
    ∷ codes "lpt6"
    ∷ codes "lpt7"
    ∷ codes "lpt8"
    ∷ codes "lpt9"
    ∷ []

unfoldable pub ends_with : ℕ → Units → Bool
ends_with c [] = false
ends_with c (x ∷ []) = x == c
ends_with c (x ∷ y ∷ xs) = ends_with c (y ∷ xs)

abbrev pub first_part : List Units → Units
first_part [] = []
first_part (s ∷ _) = s

-- exact.get(n), exact.set(n, …) of the counts of names
unfoldable pub count_name : Units → List (Units × ℕ) → List (Units × ℕ)
count_name n [] = (n, 1) ∷ []
count_name n ((m, k) ∷ rest) =
    if same_units m n then (m, k + 1) ∷ rest else (m, k) ∷ count_name n rest

unfoldable pub count_names : List (Units × ℕ) → List Units → List (Units × ℕ)
count_names exact [] = exact
count_names exact (n ∷ ns) = count_names (count_name n exact) ns

unfoldable pub duplicates : List (Units × ℕ) → List Code
duplicates [] = []
duplicates ((n, k) ∷ rest) = when (ltb 1 k) duplicate_entry ++ duplicates rest

-- folded.get(lower)
unfoldable pub folded_get : Units → List (Units × Units) → Option Units
folded_get lower [] = none
folded_get lower ((l, n) ∷ rest) = if same_units l lower then some n else folded_get lower rest

module _ (node : Platform) where
  unfoldable pub collisions : List (Units × Units) → List Units → List Code
  collisions folded [] = []
  collisions folded (n ∷ ns) =
      let lower = node.lower_case n in
      elim (folded_get lower folded) [
        | none ↦ collisions ((lower, n) ∷ folded) ns
        | some m ↦ when (not (same_units m n)) case_collision ++ collisions folded ns
      ]

  -- Over the names of the central directory.
  unfoldable pub detect_duplicates : List Units → List Code
  detect_duplicates names = collisions [] names ++ duplicates (count_names [] names)

  -- One segment of a path.
  unfoldable pub check_segment : Units → List Code
  check_segment seg =
      if same_units seg (codes "..")
      then unsafe_name ∷ []
      else if same_units seg (codes ".")
      then []
      else when (ends_with b'.' seg || ends_with b' ' seg) unsafe_name
        ++ when (includes windows_device_names (node.lower_case (first_part (split b'.' seg))))
            unsafe_name

  unfoldable pub check_segments : List Units → List Code
  check_segments [] = []
  check_segments (s ∷ ss) = check_segment s ++ check_segments ss

  unfoldable pub check_name_safety : Bytes → List Code
  check_name_safety raw_name =
      let name = node.decode_utf8 raw_name in
      if not (same_units (node.encode_utf8 name) raw_name)
      then unsafe_name ∷ []
      else when (has_unit b'\\' name) unsafe_name
        ++ (when (starts_with b'/' name) unsafe_name
            ++ (when (has_unit b':' name) unsafe_name ++ check_segments (split b'/' name)))
