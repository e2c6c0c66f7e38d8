-- ===== src/Canonical/Paths/Tests.antt =====
-- Runs of `normalizePath`.
use cdx_file_format_spec.Prelude.{◌≡◌, refl, split, join, codes}
use cdx_file_format_spec.Canonical.Paths.{normalize_path, push_segments, from_bottom}
use cdx_file_format_spec.Canonical.Paths.Resolved.{IsResolution, normalize_path-IsResolution}

climbs : normalize_path (codes "assets/./x/../../b//c") ≡ codes "b/c"
unfolding normalize_path push_segments from_bottom split join
climbs = refl

leaves : normalize_path (codes "/a/../../b") ≡ codes "../b"
unfolding normalize_path push_segments from_bottom split join
leaves = refl

normalize_path-IsResolution_example :
    IsResolution (codes "a/./../../b//c") (normalize_path (codes "a/./../../b//c"))
normalize_path-IsResolution_example = normalize_path-IsResolution (codes "a/./../../b//c")
