-- ===== src/Suite/Tests.antt =====
-- Runs of `evaluate`, with numbers as what is compared.
use cdx_file_format_spec.Prelude.{
  ℕ, ◌+◌, Bool, true, false, List, [], ◌∷◌, Option, none, some, ◌==◌, All, if◌then◌else◌, ◌≡◌, refl,
  Units, codes, same_units,
}
use cdx_file_format_spec.Suite.{
  SuiteVector, SuiteCaseGroup, AdapterResult, AdapterReport, Outcome, value, skipped, find_result,
  judge, evaluate,
}
use cdx_file_format_spec.Suite.Shortfall.{AllMet, evaluate-ok_iff}
use cdx_file_format_spec.Suite.Counts.{evaluate-counts}

abbrev same_number : Units → Option (SuiteVector ℕ → AdapterResult ℕ → Bool)
same_number kind =
    if same_units kind (codes "canonicalize") then some (λ v r. v.payload == r.payload) else none

abbrev vector : Units → Option Units → List Units → SuiteVector ℕ
vector name severity requires = record {
  name = name;
  severity = severity;
  requires = requires;
  payload = 7;
}

abbrev suite : List (SuiteCaseGroup ℕ)
suite =
    record {
      kind = codes "canonicalize";
      requires = [];
      vectors =
          vector (codes "plain") none []
          ∷ vector (codes "hint") (some (codes "SHOULD")) []
          ∷ vector (codes "hash") none (codes "blake3" ∷ [])
          ∷ [];
    }
    ∷ []

abbrev outcome : Units → Outcome → ℕ → AdapterResult ℕ
outcome name how n = record { kind = codes "canonicalize"; name = name; outcome = how; payload = n }

abbrev report : AdapterReport ℕ
report = record {
  capabilities = [];
  results =
      outcome (codes "plain") value 3
      ∷ outcome (codes "plain") value 7
      ∷ outcome (codes "hint") skipped 0
      ∷ [];
}

-- A skip of a MUST.
abbrev declined : AdapterReport ℕ
declined = record { capabilities = []; results = outcome (codes "plain") skipped 7 ∷ [] }

report_ok : (evaluate same_number suite report).ok ≡ true
unfolding evaluate judge find_result
report_ok = refl

declined_not_ok : (evaluate same_number suite declined).ok ≡ false
unfolding evaluate judge find_result
declined_not_ok = refl

evaluate-ok_iff_example : All (λ g. AllMet same_number report g g.vectors) suite
evaluate-ok_iff_example = (evaluate-ok_iff same_number report suite).0 report_ok

evaluate-counts_example :
    (let verdict = evaluate same_number suite report in
      verdict.passed + verdict.failed + verdict.advisory + verdict.skipped_cases)
    ≡ 3
evaluate-counts_example = evaluate-counts same_number report suite
