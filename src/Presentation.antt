-- ===== src/Presentation.antt =====
-- scripts/lib/presentation-selection.ts: the presentation that is shown by default.
pub mod First
mod Tests
use cdx_file_format_spec.Prelude.{
  ℕ, suc, Bool, true, false, List, [], ◌∷◌, Option, none, some, if◌then◌else◌,
}

-- A falsy value, or an object, of which only `default === true` counts.
pub data Candidate : Type 0 where
  falsy : Candidate
  entry : Bool → Candidate

-- c && c.default === true
abbrev pub is_default : Candidate → Bool
is_default falsy = false
is_default (entry b) = b

abbrev pub next_index : Option ℕ → Option ℕ
next_index none = none
next_index (some i) = some (suc i)

-- candidates.findIndex(…), where -1 is `none`
unfoldable pub find_default : List Candidate → Option ℕ
find_default [] = none
find_default (c ∷ cs) =
    let later = next_index (find_default cs) in if is_default c then some 0 else later

abbrev pub or_first : Option ℕ → ℕ
or_first none = 0
or_first (some i) = i

unfoldable pub select_default_presentation : List Candidate → ℕ
unfolding find_default
select_default_presentation candidates = or_first (find_default candidates)
