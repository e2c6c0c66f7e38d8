-- ===== src/Canonical/Depth/Tests.antt =====
-- Two nested arrays within a bound of two, and not of one.
use cdx_file_format_spec.Prelude.{◌≤◌, ◌≡◌, refl, ok, err}
use cdx_file_format_spec.Json.{Json, array, null, item, no_items}
use cdx_file_format_spec.Json.Size.{levels, size}
use cdx_file_format_spec.Canonical.Errors.{too_deep}
use cdx_file_format_spec.Canonical.Depth.{assert_bounded_depth}
use cdx_file_format_spec.Canonical.Depth.Levels.{assert_bounded_depth_iff}

abbrev nested : Json
nested = array (item null (item (array (item null no_items)) no_items))

nested_within : assert_bounded_depth nested 2 ≡ ok tt
unfolding assert_bounded_depth size
nested_within = refl

nested_beyond : assert_bounded_depth nested 1 ≡ err too_deep
unfolding assert_bounded_depth size
nested_beyond = refl

assert_bounded_depth_iff_example : levels nested ≤ 2
assert_bounded_depth_iff_example = (assert_bounded_depth_iff 2 nested).0 nested_within
