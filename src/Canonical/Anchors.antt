-- ===== src/Canonical/Anchors.antt =====
-- The canonical names of ids: the relabel map of `alphaRenameIds`, `renameId` and `rewriteContentAnchor`.
mod Decimal
pub mod Rewritten
mod Tests
use cdx_file_format_spec.Prelude.{
  ℕ, zero, suc, ◌+◌, ◌/◌, ◌%◌, Bool, true, false, not, ◌&&◌, List, [], ◌∷◌, ◌++◌, Option, none,
  some, Result, ok, err, if◌then◌else◌, ltb, ◌==◌, Units, codes, same_units, includes, starts_with,
}
use cdx_file_format_spec.Digits.{is_digit}
use cdx_file_format_spec.Canonical.Errors.{CanonError, reserved_reference}

-- The digits of a number in a template text; the number is fuel enough.
unfoldable pub decimal_loop : ℕ → ℕ → Units
decimal_loop zero n = (b'0' + n % 10) ∷ []
decimal_loop (suc fuel) n =
    let leading = decimal_loop fuel (n / 10) in
    if ltb n 10 then (b'0' + n) ∷ [] else leading ++ (b'0' + n % 10) ∷ []

abbrev pub canonical_name : ℕ → Units
canonical_name i = b'b' ∷ decimal_loop i i

-- The pairs of an id and its name.
abbrev pub RelabelMap : Type 0
RelabelMap = List (Units × Units)

unfoldable pub number_ids : ℕ → List Units → RelabelMap
number_ids i [] = []
number_ids i (id ∷ ids) = (id, canonical_name i) ∷ number_ids (suc i) ids

-- ids.filter((id) => !preserved.has(id))
abbrev pub not_preserved : List Units → List Units → List Units
not_preserved preserved [] = []
not_preserved preserved (id ∷ ids) =
    let rest = not_preserved preserved ids in if includes preserved id then rest else id ∷ rest

abbrev pub relabel_map : List Units → List Units → RelabelMap
relabel_map ids preserved = number_ids 0 (not_preserved preserved ids)

unfoldable pub name_of_id : Units → RelabelMap → Option Units
name_of_id id [] = none
name_of_id id ((key, name) ∷ map) = if same_units key id then some name else name_of_id id map

abbrev pub or_else : Option Units → Units → Units
or_else none id = id
or_else (some name) id = name

abbrev pub rename_id : Units → RelabelMap → Units
rename_id id map = or_else (name_of_id id map) id

abbrev pub all_digits : Units → Bool
all_digits [] = true
all_digits (c ∷ s) = is_digit c && all_digits s

-- /^b\d+$/
unfoldable pub is_canonical_name : Units → Bool
is_canonical_name (b ∷ d ∷ s) = b == b'b' && all_digits (d ∷ s)
is_canonical_name _ = false

-- The id and the suffix of a reference, with its first `/` in the suffix.
abbrev pub before_slash : Units → Units
before_slash [] = []
before_slash (c ∷ s) = let rest = before_slash s in if c == b'/' then [] else c ∷ rest

abbrev pub from_slash : Units → Units
from_slash [] = []
from_slash (c ∷ s) = let rest = from_slash s in if c == b'/' then c ∷ s else rest

abbrev pub rewritten : Units → Units → Option Units → Result CanonError Units
rewritten value rest (some mapped) = ok (b'#' ∷ mapped ++ from_slash rest)
rewritten value rest none =
    if is_canonical_name (before_slash rest) then err reserved_reference else ok value

unfoldable pub rewrite_content_anchor : Units → RelabelMap → Result CanonError Units
unfolding name_of_id
rewrite_content_anchor [] map = ok []
rewrite_content_anchor (c ∷ rest) map =
    if c == b'#'
    then rewritten (c ∷ rest) rest (name_of_id (before_slash rest) map)
    else ok (c ∷ rest)
