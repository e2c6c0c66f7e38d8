-- ===== src/Presentation/First.antt =====
-- The choice is the first marked candidate, or the first one.
use cdx_file_format_spec.Prelude.{
  ℕ, zero, suc, ◌<◌, ◌≡◌, refl, inl, inr, true, false, List, [], ◌∷◌, get_or, Option, none, some,
  if_rule, ◌⊎◌, arith,
}
use cdx_file_format_spec.Presentation.{
  Candidate, falsy, is_default, next_index, find_default, or_first, select_default_presentation,
}

-- The index of the first candidate that is marked.
pub record IsFirst (cs : List Candidate) (i : ℕ) : Type 0 where
  pub marked : is_default (get_or cs i falsy) ≡ true
  pub before : (j : ℕ) → j < i → is_default (get_or cs j falsy) ≡ false

cons-before :
    (c : Candidate) (cs : List Candidate) (i : ℕ)
    → is_default c ≡ false
    → ((j : ℕ) → j < i → is_default (get_or cs j falsy) ≡ false)
    → (j : ℕ) → j < suc i
    → is_default (get_or (c ∷ cs) j falsy) ≡ false
cons-before c cs i h f zero lt = h
cons-before c cs i h f (suc k) lt = f k (omega (arith, lt))

-- What a search promises.
abbrev pub Found : List Candidate → Option ℕ → Type 0
Found cs none = (j : ℕ) → is_default (get_or cs j falsy) ≡ false
Found cs (some i) = IsFirst cs i

cons-Found :
    (c : Candidate) (cs : List Candidate) (o : Option ℕ)
    → is_default c ≡ false
    → Found cs o
    → Found (c ∷ cs) (next_index o)
cons-Found c cs none h f = λ j. cons-before c cs j h (λ k lt. f k) j (omega arith)
cons-Found c cs (some i) h f = record { marked = f.marked; before = cons-before c cs i h f.before }

find_default-Found : (cs : List Candidate) → Found cs (find_default cs)
unfolding find_default
find_default-Found [] = λ j. refl
find_default-Found (c ∷ cs) =
    if_rule (Found (c ∷ cs)) (is_default c) _ _
      (λ e. record { marked = e; before = λ j lt. absurd (omega (arith, lt)) })
      (λ e. cons-Found c cs (find_default cs) e (find_default-Found cs))

choice :
    (cs : List Candidate) (o : Option ℕ)
    → Found cs o
    → IsFirst cs (or_first o)
      ⊎ (((j : ℕ) → is_default (get_or cs j falsy) ≡ false) × (or_first o ≡ 0))
choice cs none f = inr (f, refl)
choice cs (some i) f = inl f

-- Either the chosen index is that of a candidate marked as default, and none before it is; or no
-- candidate is marked, and the chosen index is 0.
pub select_default_presentation-IsFirst :
    (cs : List Candidate)
    → IsFirst cs (select_default_presentation cs)
      ⊎ (((j : ℕ) → is_default (get_or cs j falsy) ≡ false) × (select_default_presentation cs ≡ 0))
unfolding select_default_presentation
select_default_presentation-IsFirst cs = choice cs (find_default cs) (find_default-Found cs)
