-- ===== src/Suite/Shortfall.antt =====
-- When a run is ok.
use cdx_file_format_spec.Prelude.{
  Bool, true, false, List, [], ◌∷◌, ◌++◌, ◌==◌, All, Option, none, some, if_rule, Bool-cases, inl,
  inr, ◌⊎◌, ◌≡◌, ◌≢◌, ◌↔◌, refl, sym, ap, ◌∙◌, subst, Units, includes, arith,
}
use cdx_file_format_spec.Suite.{
  SuiteVector, SuiteCaseGroup, AdapterResult, AdapterReport, CaseVerdict, Outcome, value, error,
  skipped, Severity, must, should, is_must, severity_of, find_result, compare_with, judge_outcome,
  judge_result, judge, judge_vectors, judge_groups, count_cases, fails, case_key, scope_of,
  requires_of, evaluate,
}

-- Every required key is there.
abbrev pub IsCovered : List Units → List Units → Type 0
IsCovered requires capabilities = All (λ key. includes capabilities key ≡ true) requires

scope_of_iff :
    (requires capabilities : List Units)
    → (scope_of requires capabilities ≡ true) ↔ IsCovered requires capabilities
scope_of_iff [] capabilities = (λ _. tt, λ _. refl)
scope_of_iff (key ∷ keys) capabilities = elim (Bool-cases (includes capabilities key)) [
  | inl e ↦
      let rest = scope_of_iff keys capabilities in
      (λ h. (e, rest.0 (rw e at h)), λ (h : _ × _). rw e (rest.1 h.1))
  | inr e ↦ (λ h. let no : false ≡ true = rw e at h in cc no, λ (h : _ × _). cc (sym e ∙ h.0))
]

no_fails_iff :
    (cs : List CaseVerdict) → ((count_cases fails cs == 0) ≡ true) ↔ All (λ c. c.fatal ≡ false) cs
no_fails_iff [] = (λ _. tt, λ _. refl)
no_fails_iff (c ∷ cs) = elim (Bool-cases c.fatal) [
  | inl e ↦ (λ h. ground (arith, (rw e at h)), λ (h : _ × _). cc (sym e ∙ h.0))
  | inr e ↦
      let rest = no_fails_iff cs in (λ h. (e, rest.0 (rw e at h)), λ (h : _ × _). rw e (rest.1 h.1))
]

module _ {V R : Type 0} (comparators : Units → Option (SuiteVector V → AdapterResult R → Bool))
    (report : AdapterReport R) where
  -- The report has a result for the vector, which is no skip and agrees with what it expects.
  pub record IsPassed (g : SuiteCaseGroup V) (v : SuiteVector V) : Type 0 where
    pub result : AdapterResult R
    pub found : find_result (case_key g.kind v.name) report.results ≡ some result
    pub ran : result.outcome ≢ skipped
    pub comparator : SuiteVector V → AdapterResult R → Bool
    pub known : comparators g.kind ≡ some comparator
    pub agrees : comparator v result ≡ true

  -- What the suite asks for a vector.
  abbrev pub IsMet : SuiteCaseGroup V → SuiteVector V → Type 0
  IsMet g v =
      severity_of v.severity ≡ must → IsCovered (requires_of g v) report.capabilities → IsPassed g v

  lenient-compare :
      (g : SuiteCaseGroup V) (v : SuiteVector V) (r : AdapterResult R)
      (c : Option (SuiteVector V → AdapterResult R → Bool))
      → severity_of v.severity ≡ should
      → (compare_with comparators report g v r c).fatal ≡ false
  lenient-compare g v r none s = ap is_must s
  lenient-compare g v r (some c) s =
      if_rule (λ (x : CaseVerdict). x.fatal ≡ false) (c v r) _ _ (λ _. refl) (λ _. ap is_must s)

  lenient-outcome :
      (g : SuiteCaseGroup V) (v : SuiteVector V) (r : AdapterResult R) (o : Outcome)
      → severity_of v.severity ≡ should
      → (judge_outcome comparators report g v r o).fatal ≡ false
  lenient-outcome g v r skipped s = ap is_must s
  lenient-outcome g v r value s = lenient-compare g v r (comparators g.kind) s
  lenient-outcome g v r error s = lenient-compare g v r (comparators g.kind) s

  lenient-result :
      (g : SuiteCaseGroup V) (v : SuiteVector V) (o : Option (AdapterResult R))
      → severity_of v.severity ≡ should
      → (judge_result comparators report g v o).fatal ≡ false
  lenient-result g v none s = ap is_must s
  lenient-result g v (some r) s = lenient-outcome g v r r.outcome s

  strict-compare_iff :
      (g : SuiteCaseGroup V) (v : SuiteVector V) (r : AdapterResult R)
      (c : Option (SuiteVector V → AdapterResult R → Bool))
      → severity_of v.severity ≡ must
      → ((compare_with comparators report g v r c).fatal ≡ false)
        ↔ ((d : SuiteVector V → AdapterResult R → Bool) × (c ≡ some d) × (d v r ≡ true))
  strict-compare_iff g v r none s =
      (λ h. let no : true ≡ false = ap is_must (sym s) ∙ h in cc no, λ (h : _ × _ × _). cc h.1)
  strict-compare_iff g v r (some c) s = elim (Bool-cases (c v r)) [
    | inl e ↦ (λ _. (c, refl, e), λ _. rw e refl)
    | inr e ↦ (
      λ h.
          let short : is_must (severity_of v.severity) ≡ false = rw e at h in
          let no : true ≡ false = ap is_must (sym s) ∙ short in cc no,
      λ (h : _ × _ × _).
          let same : c ≡ h.0 = cc h.1 in
          let yes = subst (λ d. d v r ≡ true) (sym same) h.2 in cc (sym e ∙ yes),
    )
  ]

  strict-outcome_iff :
      (g : SuiteCaseGroup V) (v : SuiteVector V) (r : AdapterResult R) (o : Outcome)
      → severity_of v.severity ≡ must
      → ((judge_outcome comparators report g v r o).fatal ≡ false) ↔ (
          (o ≢ skipped)
          × ((d : SuiteVector V → AdapterResult R → Bool) × (comparators g.kind ≡ some d)
              × (d v r ≡ true)))
  strict-outcome_iff g v r skipped s = (
    λ h. let no : true ≡ false = ap is_must (sym s) ∙ h in cc no,
    λ (h : _ × _). absurd (h.0 refl),
  )
  strict-outcome_iff g v r value s =
      let c = strict-compare_iff g v r (comparators g.kind) s in
      (λ h. (λ e. cc e, c.0 h), λ (h : _ × _). c.1 h.1)
  strict-outcome_iff g v r error s =
      let c = strict-compare_iff g v r (comparators g.kind) s in
      (λ h. (λ e. cc e, c.0 h), λ (h : _ × _). c.1 h.1)

  strict-result_iff :
      (g : SuiteCaseGroup V) (v : SuiteVector V) (o : Option (AdapterResult R))
      → find_result (case_key g.kind v.name) report.results ≡ o
      → severity_of v.severity ≡ must
      → ((judge_result comparators report g v o).fatal ≡ false) ↔ IsPassed g v
  strict-result_iff g v none f s =
      (λ h. let no : true ≡ false = ap is_must (sym s) ∙ h in cc no, λ p. cc (sym f ∙ p.found))
  strict-result_iff g v (some r) f s =
      let c = strict-outcome_iff g v r r.outcome s in
      (
        λ h.
            let (ran, (d, known, agrees)) = c.0 h in
            record {
              result = r;
              found = f;
              ran = ran;
              comparator = d;
              known = known;
              agrees = agrees;
            },
        λ p.
            let same : p.result ≡ r = cc (sym p.found ∙ f) in
            c.1 (
              subst (λ x. x.outcome ≢ skipped) same p.ran,
              (p.comparator, p.known, subst (λ x. p.comparator v x ≡ true) same p.agrees),
            ),
      )

  severity-cases : (s : Severity) → (s ≡ must) ⊎ (s ≡ should)
  severity-cases must = inl refl
  severity-cases should = inr refl

  judge_iff :
      (g : SuiteCaseGroup V) (v : SuiteVector V)
      → ((judge comparators report g v).fatal ≡ false) ↔ IsMet g v
  unfolding judge
  judge_iff g v =
      let scope = scope_of_iff (requires_of g v) report.capabilities in
      let o = find_result (case_key g.kind v.name) report.results in
      elim (Bool-cases (scope_of (requires_of g v) report.capabilities)) [
        | inl e ↦ elim (severity-cases (severity_of v.severity)) [
          | inl s ↦
              let strict = strict-result_iff g v o refl s in
              (λ h _ _. strict.0 (rw e at h), λ met. rw e (strict.1 (met s (scope.0 e))))
          | inr s ↦ (
            λ _ m _. let no : must ≡ should = sym m ∙ s in cc no,
            λ _. rw e (lenient-result g v o s),
          )
        ]
        | inr e ↦ (λ _ _ covered. cc (sym e ∙ scope.1 covered), λ _. rw e refl)
      ]

  abbrev pub AllMet : SuiteCaseGroup V → List (SuiteVector V) → Type 0
  AllMet g vs = All (IsMet g) vs

  vectors_iff :
      (g : SuiteCaseGroup V) (vs : List (SuiteVector V))
      → All (λ c. c.fatal ≡ false) (judge_vectors comparators report g vs) ↔ AllMet g vs
  vectors_iff g [] = (λ _. tt, λ _. tt)
  vectors_iff g (v ∷ vs) =
      let here = judge_iff g v in
      let rest = vectors_iff g vs in
      (λ (h : _ × _). (here.0 h.0, rest.0 h.1), λ (h : _ × _). (here.1 h.0, rest.1 h.1))

  All-append_iff :
      (P : CaseVerdict → Type 0) (xs ys : List CaseVerdict)
      → All P (xs ++ ys) ↔ (All P xs × All P ys)
  All-append_iff P [] ys = (λ h. (tt, h), λ (h : _ × _). h.1)
  All-append_iff P (x ∷ xs) ys =
      let rest = All-append_iff P xs ys in
      (
        λ (h : _ × _). ((h.0, (rest.0 h.1).0), (rest.0 h.1).1),
        λ (h : _ × _). (h.0.0, rest.1 (h.0.1, h.1)),
      )

  groups_iff :
      (gs : List (SuiteCaseGroup V))
      → All (λ c. c.fatal ≡ false) (judge_groups comparators report gs)
        ↔ All (λ g. AllMet g g.vectors) gs
  groups_iff [] = (λ _. tt, λ _. tt)
  groups_iff (g ∷ gs) =
      let parts =
        All-append_iff (λ c. c.fatal ≡ false) (judge_vectors comparators report g g.vectors)
          (judge_groups comparators report gs) in
      let here = vectors_iff g g.vectors in
      let rest = groups_iff gs in
      (
        λ h. (here.0 (parts.0 h).0, rest.0 (parts.0 h).1),
        λ (h : _ × _). parts.1 (here.1 h.0, rest.1 h.1),
      )

  -- A run is ok exactly if every MUST vector whose required capabilities the adapter declares has a
  -- result that is no skip and agrees with the comparator of its kind.
  pub evaluate-ok_iff :
      (groups : List (SuiteCaseGroup V))
      → ((evaluate comparators groups report).ok ≡ true) ↔ All (λ g. AllMet g g.vectors) groups
  unfolding evaluate
  evaluate-ok_iff groups =
      let fails = no_fails_iff (judge_groups comparators report groups) in
      let met = groups_iff groups in (λ h. met.0 (fails.0 h), λ h. fails.1 (met.1 h))
