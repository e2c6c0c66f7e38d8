-- ===== src/Verdict.antt =====
-- scripts/lib/disposition.ts, verdict.ts and archive-verdict.ts: the lattice of dispositions, and the
-- verdict over a list of defect codes. `vocab` is the disposition text of a code's entry in
-- conformance/errors.json, which is read at run time: `none` if there is no entry or no text.
pub mod Most
pub mod Archive
mod Tests
use cdx_file_format_spec.Prelude.{
  ℕ, String, Bool, true, false, ◌&&◌, List, [], ◌∷◌, ◌++◌, leb, ltb, str_eq, if◌then◌else◌, Option,
  none, some,
}

pub data Disposition : Type 0 where
  ignore warning integrity_error reject : Disposition

unfoldable pub rank : Disposition → ℕ
rank ignore = 0
rank warning = 1
rank integrity_error = 2
rank reject = 3

-- `isDisposition`, with the member of DISPOSITIONS that the text is.
unfoldable pub to_disposition : String → Option Disposition
to_disposition v =
    if str_eq v "IGNORE"
    then some ignore
    else if str_eq v "WARNING"
    then some warning
    else if str_eq v "INTEGRITY-ERROR"
    then some integrity_error
    else if str_eq v "REJECT"
    then some reject
    else none

unfoldable pub worst_of : Disposition → List Disposition → Disposition
worst_of worst [] = worst
worst_of worst (d ∷ ds) = worst_of (if ltb (rank worst) (rank d) then d else worst) ds

unfoldable pub max_disposition : List Disposition → Disposition
max_disposition ds = worst_of ignore ds

pub record DispositionInterval : Type 0 where
  pub at_least : Disposition
  pub at_most : Disposition

unfoldable pub in_interval : Disposition → DispositionInterval → Bool
in_interval actual i = leb (rank i.at_least) (rank actual) && leb (rank actual) (rank i.at_most)

unfoldable pub is_well_formed_interval : DispositionInterval → Bool
is_well_formed_interval i = leb (rank i.at_least) (rank i.at_most)

pub record VerdictFinding : Type 0 where
  pub code : String
  pub disposition : Option Disposition

pub record LayerVerdict : Type 0 where
  pub document_disposition : Disposition
  pub findings : List VerdictFinding

-- seen.has(code)
unfoldable pub seen_has : String → List String → Bool
seen_has c [] = false
seen_has c (x ∷ xs) = if str_eq x c then true else seen_has c xs

abbrev pub disposition_of : Option String → Option Disposition
disposition_of none = none
disposition_of (some v) = to_disposition v

-- .filter(isDisposition)
unfoldable pub given : List VerdictFinding → List Disposition
given [] = []
given (f ∷ fs) = let rest = given fs in elim f.disposition [ none ↦ rest | some d ↦ d ∷ rest ]

module _ (vocab : String → Option String) where
  abbrev pub finding_of : String → VerdictFinding
  finding_of c = record { code = c; disposition = disposition_of (vocab c) }

  unfoldable pub collect : List String → List VerdictFinding → List String → List VerdictFinding
  collect seen findings [] = findings
  collect seen findings (c ∷ cs) =
      let again = collect seen findings cs in
      let first = collect (c ∷ seen) (findings ++ finding_of c ∷ []) cs in
      if seen_has c seen then again else first

  unfoldable pub resolve_verdict : List String → LayerVerdict
  resolve_verdict codes =
      let findings = collect [] [] codes in
      record { document_disposition = max_disposition (given findings); findings = findings }
