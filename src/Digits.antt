-- ===== src/Digits.antt =====
-- scripts/lib/decimal-digits.ts: the order of two texts of decimal digits. A text is the list of its
-- code units.
pub mod Order
mod Tests
unfoldable pub use cdx_file_format_spec.Prelude.{less_units}
use cdx_file_format_spec.Prelude.{
  ℕ, Bool, true, false, not, ◌&&◌, ◌||◌, List, [], ◌∷◌, length, ltb, leb, ◌==◌, if◌then◌else◌,
}
use cdx_file_format_spec.Merkle.ContentHash.{Units}
use cdx_file_format_spec.Container.Bytes.{ℤ, pos, negsuc, sub_ℕ}

-- \d
abbrev pub is_digit : ℕ → Bool
is_digit c = leb b'0' c && leb c b'9'

-- d.replace(/^0+(?=\d)/, '')
unfoldable pub normalize_digits : Units → Units
normalize_digits (x ∷ y ∷ rest) =
    let shorter = normalize_digits (y ∷ rest) in
    if x == b'0' && is_digit y then shorter else x ∷ y ∷ rest
normalize_digits d = d

abbrev pub compare_normal : Units → Units → ℤ
compare_normal x y =
    if not (length x == length y)
    then sub_ℕ (length x) (length y)
    else if less_units x y
    then negsuc 0
    else if less_units y x
    then pos 1
    else pos 0

unfoldable pub compare_digits : Units → Units → ℤ
unfolding normalize_digits less_units
compare_digits a b = compare_normal (normalize_digits a) (normalize_digits b)
