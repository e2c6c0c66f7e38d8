-- ===== src/Lineage/Fuel.antt =====
-- The recursion of lineage-chain.ts and its depth bound.
use cdx_file_format_spec.Prelude.{
  ℕ, zero, suc, ◌+◌, ◌-◌, ltb, ◌≤◌, String, ◌≡◌, refl, ◌⊎◌, inl, inr, true, List, [], ◌∷◌, leb,
  if◌then◌else◌, Option, none, some, arith,
}
use cdx_file_format_spec.Lineage.{
  LineageDoc, Walk, Visit, Parents, parents_of, visit_parents, visit_root, visit_node, visit_doc,
  visit_body, visit_at, start, verify_lineage_chain, has, memo_get, rejected_at, cycle, verified_at,
  incomplete_at, bound_reached, unresolvable,
}

visit_parents_agree :
    (v v' : Visit) (d : ℕ) (parents : List String) (ps : Parents) (w : Walk)
    → ((id : String) (u : Walk) → v id d u ≡ v' id d u)
    → visit_parents v d parents ps w ≡ visit_parents v' d parents ps w
unfolding visit_parents
visit_parents_agree v v' d [] ps w same = refl
visit_parents_agree v v' d (p ∷ rest) ps w same =
    rw (same p w)
      (simp (λ (ps' : Parents) (w' : Walk). visit_parents_agree v v' d rest ps' w' same))

module _ (resolve : String → Option LineageDoc) (max_depth max_nodes : ℕ) (v v' : Visit) (d : ℕ)
    (same : (max_depth ≤ d) ⊎ ((id : String) (u : Walk) → v id (d + 1) u ≡ v' id (d + 1) u)) where
  visit_node_agree :
      (id : String) (doc : LineageDoc) (p : String) (w : Walk)
      → visit_node resolve max_depth max_nodes v id doc p d w
        ≡ visit_node resolve max_depth max_nodes v' id doc p d w
  unfolding visit_node
  visit_node_agree id doc p w = elim same [
    | inl h ↦ let past : leb max_depth d ≡ true = ground arith in rw past
    | inr e ↦
        simp (λ (ps : Parents) (u : Walk). visit_parents_agree v v' (d + 1) (parents_of doc) ps u e)
  ]

  visit_doc_agree :
      (id : String) (doc : LineageDoc) (w : Walk)
      → visit_doc resolve max_depth max_nodes v id doc d w
        ≡ visit_doc resolve max_depth max_nodes v' id doc d w
  unfolding visit_doc
  visit_doc_agree id doc w = λ i. elim (parents_of doc) [
    | [] ↦ visit_root id doc d w
    | p ∷ _ ↦ visit_node_agree id doc p w i
  ]

  visit_body_agree :
      (id : String) (w : Walk)
      → visit_body resolve max_depth max_nodes v id d w
        ≡ visit_body resolve max_depth max_nodes v' id d w
  unfolding visit_body
  visit_body_agree id w = λ i.
      if has id w.on_path then (rejected_at (d - 1) cycle, w) else elim (memo_get id w.memo) [
        | some cached ↦ (verified_at cached, w)
        | none ↦
            let metered : Walk = record w { resolve_count = w.resolve_count + 1 } in
            if ltb max_nodes metered.resolve_count
            then (incomplete_at (d - 1) bound_reached id, metered)
            else elim (resolve id) [
              | none ↦ (incomplete_at (d - 1) unresolvable id, metered)
              | some doc ↦ visit_doc_agree id doc metered i
            ]
      ]

pub visit_at_agree :
    (resolve : String → Option LineageDoc) (max_depth max_nodes fuel : ℕ) (f g : Visit)
    (id : String) (d : ℕ) (w : Walk)
    → max_depth ≤ d + fuel
    → visit_at resolve max_depth max_nodes f fuel id d w
      ≡ visit_at resolve max_depth max_nodes g fuel id d w
unfolding visit_at
visit_at_agree resolve max_depth max_nodes zero f g id d w h =
    visit_body_agree resolve max_depth max_nodes f g d (inl (omega arith)) id w
visit_at_agree resolve max_depth max_nodes (suc fuel) f g id d w h =
    visit_body_agree resolve max_depth max_nodes (visit_at resolve max_depth max_nodes f fuel)
      (visit_at resolve max_depth max_nodes g fuel) d
      (inr (λ p u. visit_at_agree resolve max_depth max_nodes fuel f g p (d + 1) u (omega arith)))
      id w

-- The recursion stays within the depth bound: whatever a visit deeper than `max_depth` would return, the
-- result of the verifier is the same, for every store, subject and bounds. The subject is at depth 1.
pub verify_lineage_chain_fuel :
    (resolve : String → Option LineageDoc) (max_depth max_nodes : ℕ) (f g : Visit)
    (subject : String)
    → verify_lineage_chain resolve max_depth max_nodes f subject
      ≡ verify_lineage_chain resolve max_depth max_nodes g subject
unfolding verify_lineage_chain
verify_lineage_chain_fuel resolve max_depth max_nodes f g subject =
    rw
      (visit_at_agree resolve max_depth max_nodes (max_depth - 1) f g subject 1 start (omega arith))
