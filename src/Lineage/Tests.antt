-- ===== src/Lineage/Tests.antt =====
-- Runs of the lineage verifier on small stores, and the theorems at concrete inputs.
use cdx_file_format_spec.Prelude.{
  String, ◌≡◌, refl, List, [], ◌∷◌, str_eq, if◌then◌else◌, Option, none, some, ok,
}
use cdx_file_format_spec.Lineage.{
  LineageDoc, Visit, LineageResult, verified, rejected, cycle, rejected_at, incomplete_at,
  unresolvable, verify_lineage_chain, visit_parents, has, delete, memo_get,
}
use cdx_file_format_spec.Lineage.Chain.{Chain, IsAncestor}
use cdx_file_format_spec.Lineage.Fuel.{verify_lineage_chain_fuel}
use cdx_file_format_spec.Lineage.Soundness.{verified-Chain, verified_acyclic}

abbrev plain : String → Option String → List String → LineageDoc
plain id parent merged = record {
  id = id;
  parent = parent;
  merged_from = merged;
  ancestors = none;
  depth = none;
  version = none;
}

-- A merge of two branches of one root, and a document that is its own grandparent.
abbrev store : String → Option LineageDoc
store id =
    if str_eq id "merge"
    then some (plain "merge" (some "left") ("right" ∷ []))
    else if str_eq id "left"
    then some (plain "left" (some "base") [])
    else if str_eq id "right"
    then some (plain "right" (some "base") [])
    else if str_eq id "base"
    then some (plain "base" none [])
    else if str_eq id "odd"
    then some (plain "odd" (some "even") [])
    else if str_eq id "even"
    then some (plain "even" (some "odd") [])
    else none

abbrev abyss : Visit
abyss id d w = (rejected_at d cycle, w)

abbrev other_abyss : Visit
other_abyss id d w = (incomplete_at d unresolvable id, w)

abbrev merged : LineageResult
merged = record {
  outcome = verified;
  resolved_depth = 3;
  reason_code = none;
  broken_at = none;
  warnings = [];
}

merge_runs : verify_lineage_chain store 3 100 abyss "merge" ≡ ok merged
unfolding verify_lineage_chain visit_parents has delete memo_get
merge_runs = refl

cycle_runs :
    verify_lineage_chain store 9 100 abyss "odd"
    ≡ ok (record {
      outcome = rejected;
      resolved_depth = 2;
      reason_code = some cycle;
      broken_at = none;
      warnings = [];
    })
unfolding verify_lineage_chain visit_parents has delete memo_get
cycle_runs = refl

verify_lineage_chain_fuel_example :
    verify_lineage_chain store 3 100 abyss "merge"
    ≡ verify_lineage_chain store 3 100 other_abyss "merge"
verify_lineage_chain_fuel_example = verify_lineage_chain_fuel store 3 100 abyss other_abyss "merge"

verified-Chain_example : Chain store "merge" 3
verified-Chain_example = verified-Chain store 3 100 abyss "merge" merged merge_runs refl

verified_acyclic_example : ¬ IsAncestor store "merge" "merge"
verified_acyclic_example = verified_acyclic store 3 100 abyss "merge" merged merge_runs refl
