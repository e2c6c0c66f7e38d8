-- ===== src/Container/Names/Tests.antt =====
-- Names that are accepted and refused, on a platform for ASCII letters in lower case.
use cdx_file_format_spec.Prelude.{◌≡◌, refl, [], ◌∷◌, none}
use cdx_file_format_spec.Merkle.ContentHash.{codes}
use cdx_file_format_spec.Container.Platform.{Platform, undecodable}
use cdx_file_format_spec.Container.Names.{
  unsafe_name, check_name_safety, check_segments, check_segment, has_unit, ends_with, split,
}
use cdx_file_format_spec.Container.Names.Safety.{IsSafeName, check_name_safety-nil_iff}

abbrev lower : Platform
lower = record {
  decode_utf8 = λ bytes. bytes;
  encode_utf8 = λ name. name;
  lower_case = λ name. name;
  inflate_raw = λ bytes limit. undecodable;
  zstd_decompress = none;
}

nested_runs : check_name_safety lower (codes "a/b.json") ≡ []
unfolding check_name_safety check_segments check_segment has_unit ends_with split
nested_runs = refl

parent_runs : check_name_safety lower (codes "a/../b") ≡ unsafe_name ∷ []
unfolding check_name_safety check_segments check_segment has_unit ends_with split
parent_runs = refl

check_name_safety-nil_iff_example : IsSafeName lower (codes "a/b.json")
check_name_safety-nil_iff_example =
    (check_name_safety-nil_iff lower (codes "a/b.json")).0 nested_runs
