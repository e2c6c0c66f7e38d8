-- ===== src/Suite.antt =====
-- scripts/lib/conformance-suite.ts: the verdict over the report of an adapter. What a vector and a result
-- hold for the comparators are the types `V` and `R`, and the table of comparators is the argument
-- `comparators`.
pub mod Shortfall
pub mod Counts
mod Tests
use cdx_file_format_spec.Prelude.{
  ℕ, suc, Bool, true, false, not, ◌&&◌, ◌||◌, List, [], ◌∷◌, ◌++◌, length, ◌==◌, Option, none, some,
  if◌then◌else◌, Units, codes, same_units, includes, less_units,
}

pub data Outcome : Type 0 where
  value error skipped : Outcome

pub data CaseStatus : Type 0 where
  pass fail missing skip : CaseStatus

pub data Severity : Type 0 where
  must should : Severity

pub record SuiteVector (V : Type 0) : Type 0 where
  pub name : Units
  pub severity : Option Units
  pub requires : List Units
  pub payload : V

pub record SuiteCaseGroup (V : Type 0) : Type 0 where
  pub kind : Units
  pub requires : List Units
  pub vectors : List (SuiteVector V)

pub record AdapterResult (R : Type 0) : Type 0 where
  pub kind : Units
  pub name : Units
  pub outcome : Outcome
  pub payload : R

pub record AdapterReport (R : Type 0) : Type 0 where
  pub capabilities : List Units
  pub results : List (AdapterResult R)

pub record CaseVerdict : Type 0 where
  pub kind : Units
  pub name : Units
  pub status : CaseStatus
  pub severity : Severity
  pub fatal : Bool

pub record SuiteVerdict : Type 0 where
  pub cases : List CaseVerdict
  pub passed : ℕ
  pub failed : ℕ
  pub advisory : ℕ
  pub skipped_cases : ℕ
  pub extra_results : List Units
  pub ok : Bool

-- `${kind}/${name}`
abbrev pub case_key : Units → Units → Units
case_key kind name = kind ++ b'/' ∷ name

abbrev pub severity_of : Option Units → Severity
severity_of none = must
severity_of (some s) = if same_units s (codes "SHOULD") then should else must

abbrev pub is_must : Severity → Bool
is_must must = true
is_must should = false

abbrev pub missing_keys : List Units → List Units → List Units
missing_keys [] capabilities = []
missing_keys (key ∷ keys) capabilities =
    let rest = missing_keys keys capabilities in
    if includes capabilities key then rest else key ∷ rest

abbrev pub is_nil_keys : List Units → Bool
is_nil_keys [] = true
is_nil_keys (k ∷ ks) = false

-- inScope
abbrev pub scope_of : List Units → List Units → Bool
scope_of requires capabilities = is_nil_keys (missing_keys requires capabilities)

abbrev pub requires_of : {V : Type 0} → SuiteCaseGroup V → SuiteVector V → List Units
requires_of group v = group.requires ++ v.requires

abbrev pub unless_later :
    {R : Type 0} → AdapterResult R → Units → Option (AdapterResult R) → Option (AdapterResult R)
unless_later r key (some found) = some found
unless_later r key none = if same_units (case_key r.kind r.name) key then some r else none

-- byKey.get(key): the last result of a key is the one that counts.
unfoldable pub find_result :
    {R : Type 0} → Units → List (AdapterResult R) → Option (AdapterResult R)
find_result key [] = none
find_result key (r ∷ rs) = unless_later r key (find_result key rs)

module _ {V R : Type 0} (comparators : Units → Option (SuiteVector V → AdapterResult R → Bool))
    (report : AdapterReport R) where
  abbrev pub verdict_of : SuiteCaseGroup V → SuiteVector V → CaseStatus → Bool → CaseVerdict
  verdict_of group v status fatal = record {
    kind = group.kind;
    name = v.name;
    status = status;
    severity = severity_of v.severity;
    fatal = fatal;
  }

  -- A shortfall counts for a MUST.
  abbrev pub short_of : SuiteCaseGroup V → SuiteVector V → CaseStatus → CaseVerdict
  short_of group v status = verdict_of group v status (is_must (severity_of v.severity))

  abbrev pub compare_with :
      SuiteCaseGroup V
      → SuiteVector V
      → AdapterResult R
      → Option (SuiteVector V → AdapterResult R → Bool)
      → CaseVerdict
  compare_with group v r none = short_of group v fail
  compare_with group v r (some comparator) =
      if comparator v r then verdict_of group v pass false else short_of group v fail

  abbrev pub judge_outcome :
      SuiteCaseGroup V → SuiteVector V → AdapterResult R → Outcome → CaseVerdict
  judge_outcome group v r skipped = short_of group v missing
  judge_outcome group v r _ = compare_with group v r (comparators group.kind)

  abbrev pub judge_result :
      SuiteCaseGroup V → SuiteVector V → Option (AdapterResult R) → CaseVerdict
  judge_result group v none = short_of group v missing
  judge_result group v (some r) = judge_outcome group v r r.outcome

  -- The body of the inner loop.
  unfoldable pub judge : SuiteCaseGroup V → SuiteVector V → CaseVerdict
  judge group v =
      let judged = judge_result group v (find_result (case_key group.kind v.name) report.results) in
      if scope_of (requires_of group v) report.capabilities
      then judged
      else verdict_of group v skip false

  abbrev pub judge_vectors : SuiteCaseGroup V → List (SuiteVector V) → List CaseVerdict
  judge_vectors group [] = []
  judge_vectors group (v ∷ vs) = judge group v ∷ judge_vectors group vs

  abbrev pub judge_groups : List (SuiteCaseGroup V) → List CaseVerdict
  judge_groups [] = []
  judge_groups (g ∷ gs) = judge_vectors g g.vectors ++ judge_groups gs

abbrev pub vector_keys : {V : Type 0} → Units → List (SuiteVector V) → List Units
vector_keys kind [] = []
vector_keys kind (v ∷ vs) = case_key kind v.name ∷ vector_keys kind vs

abbrev pub all_vector_keys : {V : Type 0} → List (SuiteCaseGroup V) → List Units
all_vector_keys [] = []
all_vector_keys (g ∷ gs) = vector_keys g.kind g.vectors ++ all_vector_keys gs

-- Sorted, each key once.
abbrev pub insert_key : Units → List Units → List Units
insert_key k [] = k ∷ []
insert_key k (j ∷ js) =
    let rest = insert_key k js in
    if same_units k j then j ∷ js else if less_units k j then k ∷ j ∷ js else j ∷ rest

abbrev pub extra_keys : {R : Type 0} → List Units → List (AdapterResult R) → List Units
extra_keys known [] = []
extra_keys known (r ∷ rs) =
    let rest = extra_keys known rs in
    if includes known (case_key r.kind r.name)
    then rest
    else insert_key (case_key r.kind r.name) rest

-- cases.filter(test).length
abbrev pub count_cases : (CaseVerdict → Bool) → List CaseVerdict → ℕ
count_cases test [] = 0
count_cases test (c ∷ cs) = let rest = count_cases test cs in if test c then suc rest else rest

abbrev pub is_pass : CaseStatus → Bool
is_pass pass = true
is_pass _ = false

abbrev pub is_skip : CaseStatus → Bool
is_skip skip = true
is_skip _ = false

-- c.status === 'fail' || c.status === 'missing'
abbrev pub is_short : CaseStatus → Bool
is_short fail = true
is_short missing = true
is_short _ = false

abbrev pub passes : CaseVerdict → Bool
passes c = is_pass c.status

abbrev pub fails : CaseVerdict → Bool
fails c = c.fatal

abbrev pub advises : CaseVerdict → Bool
advises c = not c.fatal && is_short c.status

abbrev pub skips : CaseVerdict → Bool
skips c = is_skip c.status

unfoldable pub evaluate :
    {V R : Type 0}
    → (Units → Option (SuiteVector V → AdapterResult R → Bool))
    → List (SuiteCaseGroup V)
    → AdapterReport R
    → SuiteVerdict
evaluate comparators groups report =
    let cases = judge_groups comparators report groups in
    record {
      cases = cases;
      passed = count_cases passes cases;
      failed = count_cases fails cases;
      advisory = count_cases advises cases;
      skipped_cases = count_cases skips cases;
      extra_results = extra_keys (all_vector_keys groups) report.results;
      ok = count_cases fails cases == 0;
    }
