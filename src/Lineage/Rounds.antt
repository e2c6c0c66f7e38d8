-- ===== src/Lineage/Rounds.antt =====
-- The loop over the parents in lineage-chain.ts, one round at a time.
use cdx_file_format_spec.Prelude.{
  ℕ, String, ◌≡◌, refl, sym, subst, ◌⊎◌, inl, inr, List, [], ◌∷◌, ltb, if◌then◌else◌, Option, not,
  true, false, ◌+◌, ◌-◌, ap, ◌++◌, none, some,
}
use cdx_file_format_spec.Lineage.{
  LineageOutcome, verified, incomplete, rejected, VisitResult, Walk, Parents, no_parents, Visit,
  after_parent, visit_parents, keep_first, rejected_at, root_with_ancestors, warn_depth, visit_root,
  close_node, delete, is_nil, to_list, verified_at, LineageDoc, has, memo_get, cycle, bound_reached,
  unresolvable, incomplete_at, visit_body, visit_doc, visit_node, parents_of,
}

pub outcome_cases : (o : LineageOutcome) → (o ≡ verified) ⊎ (o ≡ incomplete) ⊎ (o ≡ rejected)
outcome_cases verified = inl refl
outcome_cases incomplete = inr (inl refl)
outcome_cases rejected = inr (inr refl)

-- One round of the loop over the parents, by the outcome of the parent.
module _ (visit : Visit) (d : ℕ) (p : String) (rest : List String) (ps : Parents) (w : Walk) where
  pub parents_verified :
      (visit p d w).0.outcome ≡ verified
      → visit_parents visit d (p ∷ rest) ps w
        ≡ visit_parents visit d rest
            (record ps {
              max_depth =
                  if ltb ps.max_depth (visit p d w).0.depth
                  then (visit p d w).0.depth
                  else ps.max_depth;
            })
            (visit p d w).1
  unfolding visit_parents
  parents_verified e = simp (e, after_parent)

  pub parents_incomplete :
      (visit p d w).0.outcome ≡ incomplete
      → visit_parents visit d (p ∷ rest) ps w
        ≡ visit_parents visit d rest
            (record ps { first_incomplete = some (keep_first ps.first_incomplete (visit p d w).0) })
            (visit p d w).1
  unfolding visit_parents
  parents_incomplete e = simp (e, after_parent)

  pub parents_rejected :
      (visit p d w).0.outcome ≡ rejected
      → visit_parents visit d (p ∷ rest) ps w
        ≡ (record ps { rejection = some (visit p d w).0 }, (visit p d w).1)
  unfolding visit_parents
  parents_rejected e = simp (e, after_parent)

-- What the loop keeps is what it says.
pub record IsMarked (ps : Parents) : Type 0 where
  pub rejection : (r : VisitResult) → ps.rejection ≡ some r → r.outcome ≡ rejected
  pub incomplete : (r : VisitResult) → ps.first_incomplete ≡ some r → r.outcome ≡ incomplete

pub no_parents-IsMarked : IsMarked no_parents
no_parents-IsMarked = record { rejection = λ r e. cc; incomplete = λ r e. cc }

keep_first-incomplete :
    (o : Option VisitResult) (r : VisitResult)
    → ((q : VisitResult) → o ≡ some q → q.outcome ≡ incomplete)
    → r.outcome ≡ incomplete
    → (keep_first o r).outcome ≡ incomplete
keep_first-incomplete none r h e = e
keep_first-incomplete (some f) r h e = h f refl

pub visit_parents-IsMarked :
    (visit : Visit) (d : ℕ) (parents : List String) (ps : Parents) (w : Walk)
    → IsMarked ps
    → IsMarked (visit_parents visit d parents ps w).0
unfolding visit_parents
visit_parents-IsMarked visit d [] ps w m = m
visit_parents-IsMarked visit d (p ∷ rest) ps w m = elim (outcome_cases (visit p d w).0.outcome) [
  | inl v ↦
      subst (λ x. IsMarked x.0) (sym (parents_verified visit d p rest ps w v))
        (visit_parents-IsMarked visit d rest _ (visit p d w).1
          (record { rejection = m.rejection; incomplete = m.incomplete }))
  | inr (inl i) ↦
      subst (λ x. IsMarked x.0) (sym (parents_incomplete visit d p rest ps w i))
        (visit_parents-IsMarked visit d rest
          (record ps { first_incomplete = some (keep_first ps.first_incomplete (visit p d w).0) })
          (visit p d w).1
          (record {
            rejection = m.rejection;
            incomplete = λ r e.
                subst (λ (x : VisitResult). x.outcome ≡ incomplete)
                  {x = keep_first ps.first_incomplete (visit p d w).0} {y = r} (cc e)
                  (keep_first-incomplete ps.first_incomplete (visit p d w).0 m.incomplete i);
          }))
  | inr (inr r) ↦
      subst (λ x. IsMarked x.0) (sym (parents_rejected visit d p rest ps w r))
        (record {
          rejection = λ q e.
              subst (λ (x : VisitResult). x.outcome ≡ rejected) {x = (visit p d w).0} {y = q} (cc e)
                r;
          incomplete = m.incomplete;
        })
]

-- A root, by its advisory chain.
pub visit_root_rejects :
    (id : String) (doc : LineageDoc) (d : ℕ) (w : Walk)
    → is_nil (to_list doc.ancestors) ≡ false
    → visit_root id doc d w ≡ (rejected_at d root_with_ancestors, w)
unfolding visit_root
visit_root_rejects id doc d w e = simp (e, not)

pub visit_root_verifies :
    (id : String) (doc : LineageDoc) (d : ℕ) (w : Walk)
    → is_nil (to_list doc.ancestors) ≡ true
    → visit_root id doc d w ≡ (
      verified_at 1,
      record w { warnings = w.warnings ++ warn_depth id doc.depth 1; memo = (id, 1) ∷ w.memo },
    )
unfolding visit_root
visit_root_verifies id doc d w e = simp (e, not)

-- The end of a node, by what the loop found.
module _ (resolve : String → Option LineageDoc) (id : String) (doc : LineageDoc) (ps : Parents)
    (w : Walk) where
  pub close_node_rejects :
      (q : VisitResult)
      → ps.rejection ≡ some q
      → close_node resolve id doc (ps, w) ≡ (q, record w { on_path = delete id w.on_path })
  unfolding close_node
  close_node_rejects q e = simp e

  pub close_node_incomplete :
      (q : VisitResult)
      → ps.rejection ≡ none
      → ps.first_incomplete ≡ some q
      → close_node resolve id doc (ps, w) ≡ (q, record w { on_path = delete id w.on_path })
  unfolding close_node
  close_node_incomplete q e f = simp (e, f)

  pub close_node_result :
      ps.rejection ≡ none
      → ps.first_incomplete ≡ none
      → (close_node resolve id doc (ps, w)).0 ≡ verified_at (ps.max_depth + 1)
  unfolding close_node
  close_node_result e f = simp (e, f)

  pub close_node_memo :
      ps.rejection ≡ none
      → ps.first_incomplete ≡ none
      → (close_node resolve id doc (ps, w)).1.memo ≡ (id, ps.max_depth + 1) ∷ w.memo
  unfolding close_node
  close_node_memo e f = simp (e, f)

-- A resolved document, by its parents.
module _ (resolve : String → Option LineageDoc) (max_depth max_nodes : ℕ) (visit : Visit)
    (id : String) (doc : LineageDoc) where
  doc_root :
      (d : ℕ) (w : Walk)
      → parents_of doc ≡ []
      → visit_doc resolve max_depth max_nodes visit id doc d w ≡ visit_root id doc d w
  unfolding visit_doc
  doc_root d w e =
      ap
        (λ l. elim l [
          | [] ↦ visit_root id doc d w
          | p ∷ _ ↦ visit_node resolve max_depth max_nodes visit id doc p d w
        ])
        e

  doc_node :
      (p : String) (parents : List String) (d : ℕ) (w : Walk)
      → parents_of doc ≡ p ∷ parents
      → visit_doc resolve max_depth max_nodes visit id doc d w
        ≡ visit_node resolve max_depth max_nodes visit id doc p d w
  unfolding visit_doc
  doc_node p parents d w e =
      ap
        (λ l. elim l [
          | [] ↦ visit_root id doc d w
          | p ∷ _ ↦ visit_node resolve max_depth max_nodes visit id doc p d w
        ])
        e

-- The body of `visit`, case by case.
module _ (resolve : String → Option LineageDoc) (max_depth max_nodes : ℕ) (visit : Visit)
    (id : String) (d : ℕ) (w : Walk) where
  abbrev pub metered : Walk
  metered = record w { resolve_count = w.resolve_count + 1 }

  pub body_cycle :
      has id w.on_path ≡ true
      → visit_body resolve max_depth max_nodes visit id d w ≡ (rejected_at (d - 1) cycle, w)
  unfolding visit_body
  body_cycle e = simp e

  module _ (fresh : has id w.on_path ≡ false) where
    pub body_cached :
        (n : ℕ)
        → memo_get id w.memo ≡ some n
        → visit_body resolve max_depth max_nodes visit id d w ≡ (verified_at n, w)
    unfolding visit_body
    body_cached n e = simp (fresh, e)

    module _ (missed : memo_get id w.memo ≡ none) where
      pub body_bound :
          ltb max_nodes (w.resolve_count + 1) ≡ true
          → visit_body resolve max_depth max_nodes visit id d w
            ≡ (incomplete_at (d - 1) bound_reached id, metered)
      unfolding visit_body
      body_bound e = simp (fresh, missed, e)

      pub body_unresolved :
          ltb max_nodes (w.resolve_count + 1) ≡ false
          → resolve id ≡ none
          → visit_body resolve max_depth max_nodes visit id d w
            ≡ (incomplete_at (d - 1) unresolvable id, metered)
      unfolding visit_body
      body_unresolved b e = simp (fresh, missed, b, e)

      pub body_root :
          (doc : LineageDoc)
          → ltb max_nodes (w.resolve_count + 1) ≡ false
          → resolve id ≡ some doc
          → parents_of doc ≡ []
          → visit_body resolve max_depth max_nodes visit id d w ≡ visit_root id doc d metered
      unfolding visit_body
      body_root doc b e none_named =
          simp (fresh, missed, b, e)
            (doc_root resolve max_depth max_nodes visit id doc d metered none_named)

      pub body_node :
          (doc : LineageDoc) (p : String) (parents : List String)
          → ltb max_nodes (w.resolve_count + 1) ≡ false
          → resolve id ≡ some doc
          → parents_of doc ≡ p ∷ parents
          → visit_body resolve max_depth max_nodes visit id d w
            ≡ visit_node resolve max_depth max_nodes visit id doc p d metered
      unfolding visit_body
      body_node doc p parents b e named =
          simp (fresh, missed, b, e)
            (doc_node resolve max_depth max_nodes visit id doc p parents d metered named)
