-- ===== src/Canonical/Paths.antt =====
-- `normalizePath` and `isValidPathSegment`. The output array is a stack, with its last segment on top.
pub mod NormalForm
mod Resolved
mod Tests
use cdx_file_format_spec.Prelude.{
  Bool, true, false, not, ◌&&◌, ◌||◌, List, [], ◌∷◌, ◌++◌, if◌then◌else◌, Units, codes, same_units,
  has_unit, split, join,
}

-- out.pop(), or '..' if there is nothing to leave.
abbrev pub climb : List Units → List Units
climb [] = codes ".." ∷ []
climb (s ∷ out) = if same_units s (codes "..") then codes ".." ∷ s ∷ out else out

unfoldable pub push_segment : List Units → Units → List Units
push_segment out seg =
    if same_units seg [] || same_units seg (codes ".")
    then out
    else if same_units seg (codes "..")
    then climb out
    else seg ∷ out

unfoldable pub push_segments : List Units → List Units → List Units
unfolding push_segment
push_segments out [] = out
push_segments out (s ∷ ss) = push_segments (push_segment out s) ss

-- The stack from the bottom.
unfoldable pub from_bottom : List Units → List Units
from_bottom [] = []
from_bottom (s ∷ out) = from_bottom out ++ s ∷ []

unfoldable pub normalize_path : Units → Units
unfolding push_segments from_bottom
normalize_path p = join b'/' (from_bottom (push_segments [] (split b'/' p)))

unfoldable pub is_valid_path_segment : Units → Bool
is_valid_path_segment seg =
    not (same_units seg [])
    && (not (same_units seg (codes "."))
        && (not (same_units seg (codes "..")) && not (has_unit b'/' seg)))
