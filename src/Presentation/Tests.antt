-- ===== src/Presentation/Tests.antt =====
-- A choice among three candidates.
use cdx_file_format_spec.Prelude.{ℕ, ◌≡◌, ◌⊎◌, refl, true, false, List, [], ◌∷◌, get_or}
use cdx_file_format_spec.Presentation.{
  Candidate, falsy, entry, is_default, select_default_presentation,
}
use cdx_file_format_spec.Presentation.First.{IsFirst, select_default_presentation-IsFirst}

abbrev candidates : List Candidate
candidates = entry false ∷ falsy ∷ entry true ∷ entry true ∷ []

third : select_default_presentation candidates ≡ 2
unfolding select_default_presentation
third = refl

select_default_presentation-IsFirst_example :
    IsFirst candidates (select_default_presentation candidates)
    ⊎ (((j : ℕ) → is_default (get_or candidates j falsy) ≡ false)
        × (select_default_presentation candidates ≡ 0))
select_default_presentation-IsFirst_example = select_default_presentation-IsFirst candidates
