-- ===== src/Suite/Counts.antt =====
-- The counts of a verdict, and the vectors of the suite.
use cdx_file_format_spec.Prelude.{
  ℕ, suc, ◌+◌, Bool, true, false, not, ◌&&◌, List, [], ◌∷◌, ◌++◌, length, length-append, All,
  Option, none, some, if◌then◌else◌, if_rule, ◌≡◌, refl, ap, ◌∙◌, Units, arith,
}
use cdx_file_format_spec.Suite.{
  SuiteVector, SuiteCaseGroup, AdapterResult, AdapterReport, CaseVerdict, CaseStatus, Outcome,
  value, error, skipped, pass, fail, missing, skip, find_result, compare_with, judge_outcome,
  judge_result, judge, judge_vectors, judge_groups, count_cases, passes, fails, advises, skips,
  is_short, is_pass, is_skip, case_key, scope_of, requires_of, evaluate,
}

-- Only a case that fell short is fatal.
abbrev IsFair : CaseVerdict → Type 0
IsFair c = c.fatal ≡ true → is_short c.status ≡ true

-- One more case is one more in one of the counts.
count_step :
    (s : CaseStatus) (f : Bool) (p q r t n : ℕ)
    → (f ≡ true → is_short s ≡ true)
    → p + q + r + t ≡ n
    → (if is_pass s then suc p else p)
        + (if f then suc q else q)
        + (if not f && is_short s then suc r else r)
        + (if is_skip s then suc t else t)
      ≡ suc n
count_step pass false p q r t n h e = omega (arith, e)
count_step skip false p q r t n h e = omega (arith, e)
count_step fail f p q r t n h e = ground (arith, e)
count_step missing f p q r t n h e = ground (arith, e)
count_step pass true p q r t n h e = cc (h refl)
count_step skip true p q r t n h e = cc (h refl)

count-total :
    (cs : List CaseVerdict)
    → All IsFair cs
    → count_cases passes cs + count_cases fails cs + count_cases advises cs + count_cases skips cs
      ≡ length cs
count-total [] a = refl
count-total (c ∷ cs) (h, a) = count_step c.status c.fatal _ _ _ _ _ h (count-total cs a)

abbrev pub vector_count : {V : Type 0} → List (SuiteCaseGroup V) → ℕ
vector_count [] = 0
vector_count (g ∷ gs) = length g.vectors + vector_count gs

module _ {V R : Type 0} (comparators : Units → Option (SuiteVector V → AdapterResult R → Bool))
    (report : AdapterReport R) where
  compare-IsFair :
      (g : SuiteCaseGroup V) (v : SuiteVector V) (r : AdapterResult R)
      (c : Option (SuiteVector V → AdapterResult R → Bool))
      → IsFair (compare_with comparators report g v r c)
  compare-IsFair g v r none = λ _. refl
  compare-IsFair g v r (some c) = if_rule IsFair (c v r) _ _ (λ _ h. cc h) (λ _ h. refl)

  outcome-IsFair :
      (g : SuiteCaseGroup V) (v : SuiteVector V) (r : AdapterResult R) (o : Outcome)
      → IsFair (judge_outcome comparators report g v r o)
  outcome-IsFair g v r skipped = λ _. refl
  outcome-IsFair g v r value = compare-IsFair g v r (comparators g.kind)
  outcome-IsFair g v r error = compare-IsFair g v r (comparators g.kind)

  result-IsFair :
      (g : SuiteCaseGroup V) (v : SuiteVector V) (o : Option (AdapterResult R))
      → IsFair (judge_result comparators report g v o)
  result-IsFair g v none = λ _. refl
  result-IsFair g v (some r) = outcome-IsFair g v r r.outcome

  judge-IsFair : (g : SuiteCaseGroup V) (v : SuiteVector V) → IsFair (judge comparators report g v)
  unfolding judge
  judge-IsFair g v =
      if_rule IsFair (scope_of (requires_of g v) report.capabilities) _ _
        (λ _. result-IsFair g v (find_result (case_key g.kind v.name) report.results)) (λ _ h. cc h)

  All-append :
      (P : CaseVerdict → Type 0) (xs ys : List CaseVerdict) → All P xs → All P ys → All P (xs ++ ys)
  All-append P [] ys a b = b
  All-append P (x ∷ xs) ys (h, a) b = (h, All-append P xs ys a b)

  vectors-IsFair :
      (g : SuiteCaseGroup V) (vs : List (SuiteVector V))
      → All IsFair (judge_vectors comparators report g vs)
  vectors-IsFair g [] = tt
  vectors-IsFair g (v ∷ vs) = (judge-IsFair g v, vectors-IsFair g vs)

  groups-IsFair : (gs : List (SuiteCaseGroup V)) → All IsFair (judge_groups comparators report gs)
  groups-IsFair [] = tt
  groups-IsFair (g ∷ gs) = All-append IsFair _ _ (vectors-IsFair g g.vectors) (groups-IsFair gs)

  length-vectors :
      (g : SuiteCaseGroup V) (vs : List (SuiteVector V))
      → length (judge_vectors comparators report g vs) ≡ length vs
  length-vectors g [] = refl
  length-vectors g (v ∷ vs) = ap suc (length-vectors g vs)

  length-groups :
      (gs : List (SuiteCaseGroup V)) → length (judge_groups comparators report gs) ≡ vector_count gs
  length-groups [] = refl
  length-groups (g ∷ gs) =
      length-append (judge_vectors comparators report g g.vectors)
        (judge_groups comparators report gs)
      ∙ omega (arith, length-vectors g g.vectors, length-groups gs)

  -- The four counts of a verdict add up to the number of vectors of the suite.
  pub evaluate-counts :
      (groups : List (SuiteCaseGroup V))
      → (let verdict = evaluate comparators groups report in
          verdict.passed + verdict.failed + verdict.advisory + verdict.skipped_cases)
        ≡ vector_count groups
  unfolding evaluate
  evaluate-counts groups =
      count-total (judge_groups comparators report groups) (groups-IsFair groups)
      ∙ length-groups groups
