-- ===== src/Lineage/Soundness.antt =====
-- What the verdict `verified` of lineage-chain.ts stands for.
use cdx_file_format_spec.Prelude.{
  ℕ, ◌-◌, zero, suc, ◌+◌, String, ◌≡◌, refl, ◌≢◌, sym, ◌∙◌, subst, ◌⊎◌, inl, inr, true, false, List,
  [], ◌∷◌, All, str_eq, str_eq_iff, ltb, leb, if◌then◌else◌, Bool-cases, Option-cases, if_rule,
  Option, none, some, arith, guard-eq-ok, ok,
}
use Prim.Native.Nat.{max}
use cdx_file_format_spec.Lineage.{
  LineageDoc, verified, VisitResult, Walk, LineageResult, has, memo_get, verified_at, parents_of,
  to_list, is_nil, Parents, no_parents, Visit, visit_parents, contradicts, visit_root, close_node,
  visit_node, visit_body, visit_at, start, to_result, incomplete_at, bound_reached, bad_max_depth,
  bad_max_nodes, verify_lineage_chain, keep_first,
}
use cdx_file_format_spec.Lineage.Fuel.{verify_lineage_chain_fuel}
use cdx_file_format_spec.Lineage.Chain.{
  IsAncestor, Chain-acyclic, Chain, Chains, root, node, nil, cons,
}
use cdx_file_format_spec.Lineage.Rounds.{
  IsMarked, no_parents-IsMarked, visit_parents-IsMarked, outcome_cases, parents_verified,
  parents_incomplete, parents_rejected, visit_root_rejects, visit_root_verifies, close_node_rejects,
  close_node_incomplete, close_node_result, close_node_memo, body_cycle, body_cached, body_bound,
  body_unresolved, body_root, body_node,
}

is_nil-eq : (l : List String) → is_nil l ≡ true → l ≡ []
is_nil-eq [] h = refl
is_nil-eq (x ∷ l) h = cc

List-cases {ℓ} : {A : Type ℓ} (l : List A) → (l ≡ []) ⊎ ((x : A) × (xs : List A) × (l ≡ x ∷ xs))
List-cases [] = inl refl
List-cases (x ∷ xs) = inr (x, xs, refl)

some-ne-none {ℓ} : {A : Type ℓ} {a : A} → ◌≢◌ {A = Option A} (some a) none
some-ne-none h = cc

module _ (resolve : String → Option LineageDoc) where
  -- Every memoised subtree is verified, at its depth.
  abbrev pub MemoHolds : List (String × ℕ) → Type 0
  MemoHolds m = All (λ e. Chain resolve e.0 e.1) m

  pub memo_get-Chain :
      (id : String) (m : List (String × ℕ)) (n : ℕ)
      → MemoHolds m
      → memo_get id m ≡ some n
      → Chain resolve id n
  unfolding memo_get
  memo_get-Chain id [] n h e = cc
  memo_get-Chain id ((x, k) ∷ m) n h e = elim (Bool-cases (str_eq x id)) [
    | inl t ↦
        let k_is_n : k ≡ n = cc (rw t at e) in
        subst (λ y. Chain resolve y n) ((str_eq_iff x id).0 t) (subst (Chain resolve x) k_is_n h.0)
    | inr f ↦ memo_get-Chain id m n h.1 (rw f at e)
  ]

  -- A result keeps the memo, and tells the truth if it is `verified`.
  pub record IsSound (id : String) (r : VisitResult × Walk) : Type 0 where
    pub memo : MemoHolds r.1.memo
    pub chain : r.0.outcome ≡ verified → Chain resolve id r.0.depth

  abbrev pub AllSound : Visit → Type 0
  AllSound visit = (id : String) (d : ℕ) (w : Walk) → MemoHolds w.memo → IsSound id (visit id d w)

  -- What the loop over the parents found, if it found nothing bad.
  pub record Loop (ps : Parents) (parents : List String) (r : Parents × Walk) : Type 0 where
    pub memo : MemoHolds r.1.memo
    pub chains :
        r.0.rejection ≡ none
        → r.0.first_incomplete ≡ none
        → (n : ℕ) × Chains resolve parents n
          × (r.0.max_depth ≡ max ps.max_depth n)
          × (ps.first_incomplete ≡ none)

  Loop-verified :
      (ps : Parents) (p : String) (rest : List String) (m : ℕ) (r : Parents × Walk)
      → Chain resolve p m
      → Loop (record ps { max_depth = if ltb ps.max_depth m then m else ps.max_depth }) rest r
      → Loop ps (p ∷ rest) r
  Loop-verified ps p rest m r c ih = record {
    memo = ih.memo;
    chains = λ e i.
        let (n, cs, depth, first) = ih.chains e i in
        (max m n, cons m n c cs refl, ground arith, first);
  }

  visit_parents-Loop :
      (visit : Visit) (d : ℕ) (parents : List String) (ps : Parents) (w : Walk)
      → AllSound visit
      → MemoHolds w.memo
      → Loop ps parents (visit_parents visit d parents ps w)
  unfolding visit_parents
  visit_parents-Loop visit d [] ps w sound h = record {
    memo = h;
    chains = λ e i. (0, nil refl, omega arith, i);
  }
  visit_parents-Loop visit d (p ∷ rest) ps w sound h =
      let s = sound p d w h in
      elim (outcome_cases (visit p d w).0.outcome) [
        | inl v ↦
            let next : Parents = record ps {
              max_depth =
                  if ltb ps.max_depth (visit p d w).0.depth
                  then (visit p d w).0.depth
                  else ps.max_depth;
            } in
            let ih = visit_parents-Loop visit d rest next (visit p d w).1 sound s.memo in
            subst (Loop ps (p ∷ rest)) (sym (parents_verified visit d p rest ps w v))
              (Loop-verified ps p rest (visit p d w).0.depth _ (s.chain v) ih)
        | inr (inl i) ↦
            let ih =
              visit_parents-Loop visit d rest
                (record ps {
                  first_incomplete = some (keep_first ps.first_incomplete (visit p d w).0);
                })
                (visit p d w).1 sound s.memo in
            subst (Loop ps (p ∷ rest)) (sym (parents_incomplete visit d p rest ps w i))
              (record { memo = ih.memo; chains = λ e f. absurd (some-ne-none ((ih.chains e f).3)) })
        | inr (inr r) ↦
            subst (Loop ps (p ∷ rest)) (sym (parents_rejected visit d p rest ps w r))
              (record { memo = s.memo; chains = λ e f. absurd (some-ne-none e) })
      ]

  root-IsSound :
      (id : String) (doc : LineageDoc) (d : ℕ) (w : Walk)
      → resolve id ≡ some doc
      → parents_of doc ≡ []
      → MemoHolds w.memo
      → IsSound id (visit_root id doc d w)
  root-IsSound id doc d w found none_named h = elim (Bool-cases (is_nil (to_list doc.ancestors))) [
    | inr f ↦
        subst (IsSound id) (sym (visit_root_rejects id doc d w f))
          (record { memo = h; chain = λ e. cc })
    | inl t ↦
        let c : Chain resolve id 1 = root doc found none_named (is_nil-eq _ t) refl in
        subst (IsSound id) (sym (visit_root_verifies id doc d w t))
          (record { memo = (c, h); chain = λ e. c })
  ]

  -- A result that is not `verified` only has to keep the memo.
  passed-IsSound :
      (id : String) (q : VisitResult) (w : Walk)
      → q.outcome ≢ verified
      → MemoHolds w.memo
      → IsSound id (q, w)
  passed-IsSound id q w bad h = record { memo = h; chain = λ e. absurd (bad e) }

  close_node-IsSound :
      (id : String) (doc : LineageDoc) (p : String) (parents : List String) (ps : Parents)
      (w : Walk)
      → resolve id ≡ some doc
      → parents_of doc ≡ p ∷ parents
      → contradicts resolve doc ≡ false
      → IsMarked ps
      → Loop no_parents (p ∷ parents) (ps, w)
      → IsSound id (close_node resolve id doc (ps, w))
  close_node-IsSound id doc p parents ps w found named agrees marked loop =
      elim (Option-cases ps.rejection) [
        | inr (q, e) ↦
            subst (IsSound id) (sym (close_node_rejects resolve id doc ps w q e))
              (passed-IsSound id q _ (λ v. cc (v, marked.rejection q e)) loop.memo)
        | inl e ↦ elim (Option-cases ps.first_incomplete) [
          | inr (q, f) ↦
              subst (IsSound id) (sym (close_node_incomplete resolve id doc ps w q e f))
                (passed-IsSound id q _ (λ v. cc (v, marked.incomplete q f)) loop.memo)
          | inl f ↦
              let (n, cs, depth, _first) = loop.chains e f in
              let c : Chain resolve id (ps.max_depth + 1) =
                node doc p parents n found named agrees cs (omega arith) in
              record {
                memo =
                    subst MemoHolds (sym (close_node_memo resolve id doc ps w e f)) (c, loop.memo);
                chain = λ v.
                    subst (λ (x : VisitResult). Chain resolve id x.depth)
                      {x = verified_at (ps.max_depth + 1)}
                      {y = (close_node resolve id doc (ps, w)).0}
                      (sym (close_node_result resolve id doc ps w e f)) c;
              }
        ]
      ]

  module _ (max_depth max_nodes : ℕ) (visit : Visit) (sound : AllSound visit) where
    visit_node-IsSound :
        (id : String) (doc : LineageDoc) (p : String) (parents : List String) (d : ℕ) (w : Walk)
        → resolve id ≡ some doc
        → parents_of doc ≡ p ∷ parents
        → MemoHolds w.memo
        → IsSound id (visit_node resolve max_depth max_nodes visit id doc p d w)
    unfolding visit_node
    visit_node-IsSound id doc p parents d w found named h =
        if_rule (IsSound id) (leb max_depth d) _ _ (λ _. passed-IsSound id _ w (λ e. cc e) h)
          λ _.
            if_rule (IsSound id) (contradicts resolve doc) _ _
              (λ _. passed-IsSound id _ w (λ e. cc e) h)
              λ agrees.
                let entered : Walk = record w { on_path = id ∷ w.on_path } in
                let (ps, w') = visit_parents visit (d + 1) (parents_of doc) no_parents entered in
                close_node-IsSound id doc p parents ps w' found named agrees
                  (visit_parents-IsMarked visit (d + 1) (parents_of doc) no_parents entered
                    no_parents-IsMarked)
                  (subst (λ l. Loop no_parents l (ps, w')) named
                    (visit_parents-Loop visit (d + 1) (parents_of doc) no_parents entered sound h))

    -- The case of a document that is not on the path and not in the memo.
    fresh-IsSound :
        (id : String) (d : ℕ) (w : Walk)
        → MemoHolds w.memo
        → has id w.on_path ≡ false
        → memo_get id w.memo ≡ none
        → IsSound id (visit_body resolve max_depth max_nodes visit id d w)
    fresh-IsSound id d w h fresh missed =
        let metered = record w { resolve_count = w.resolve_count + 1 } in
        elim (Bool-cases (ltb max_nodes (w.resolve_count + 1))) [
          | inl b ↦
              subst (IsSound id)
                (sym (body_bound resolve max_depth max_nodes visit id d w fresh missed b))
                (passed-IsSound id _ metered (λ e. cc e) h)
          | inr b ↦ elim (Option-cases (resolve id)) [
            | inl e ↦
                subst (IsSound id)
                  (sym (body_unresolved resolve max_depth max_nodes visit id d w fresh missed b e))
                  (passed-IsSound id _ metered (λ e. cc e) h)
            | inr (doc, e) ↦ elim (List-cases (parents_of doc)) [
              | inl l ↦
                  subst (IsSound id)
                    (sym
                      (body_root resolve max_depth max_nodes visit id d w fresh missed doc b e l))
                    (root-IsSound id doc d metered e l h)
              | inr (p, parents, l) ↦
                  subst (IsSound id)
                    (sym (
                      body_node resolve max_depth max_nodes visit id d w fresh missed doc p parents
                        b e l))
                    (visit_node-IsSound id doc p parents d metered e l h)
            ]
          ]
        ]

    visit_body-IsSound : AllSound (visit_body resolve max_depth max_nodes visit)
    visit_body-IsSound id d w h = elim (Bool-cases (has id w.on_path)) [
      | inl c ↦
          subst (IsSound id) (sym (body_cycle resolve max_depth max_nodes visit id d w c))
            (passed-IsSound id _ w (λ e. cc e) h)
      | inr fresh ↦ elim (Option-cases (memo_get id w.memo)) [
        | inl missed ↦ fresh-IsSound id d w h fresh missed
        | inr (n, e) ↦
            subst (IsSound id)
              (sym (body_cached resolve max_depth max_nodes visit id d w fresh n e))
              (record { memo = h; chain = λ _. memo_get-Chain id w.memo n h e })
      ]
    ]

  visit_at-IsSound :
      (max_depth max_nodes fuel : ℕ) (abyss : Visit)
      → AllSound abyss
      → AllSound (visit_at resolve max_depth max_nodes abyss fuel)
  unfolding visit_at
  visit_at-IsSound max_depth max_nodes zero abyss sound =
      visit_body-IsSound max_depth max_nodes abyss sound
  visit_at-IsSound max_depth max_nodes (suc fuel) abyss sound =
      visit_body-IsSound max_depth max_nodes (visit_at resolve max_depth max_nodes abyss fuel)
        (visit_at-IsSound max_depth max_nodes fuel abyss sound)

-- A call past the fuel, which is never made.
abbrev dead_end : Visit
dead_end id d w = (incomplete_at d bound_reached id, w)

dead_end-IsSound : (resolve : String → Option LineageDoc) → AllSound resolve dead_end
dead_end-IsSound resolve id d w h = record { memo = h; chain = λ e. cc }

-- `verified` is sound: if the verifier returns it, the subject and every ancestor resolve, no
-- advisory chain contradicts its parent's, no root declares ancestors, and the resolved depth is the
-- length of the longest way to a root.
pub verified-Chain :
    (resolve : String → Option LineageDoc) (max_depth max_nodes : ℕ) (abyss : Visit)
    (subject : String) (r : LineageResult)
    → verify_lineage_chain resolve max_depth max_nodes abyss subject ≡ ok r
    → r.outcome ≡ verified
    → Chain resolve subject r.resolved_depth
unfolding verify_lineage_chain
verified-Chain resolve max_depth max_nodes abyss subject r h v =
    let h' = verify_lineage_chain_fuel resolve max_depth max_nodes dead_end abyss subject ∙ h in
    let (positive, h₁) = guard-eq-ok (leb 1 max_depth) _ bad_max_depth h' in
    let (some_nodes, h₂) = guard-eq-ok (leb 1 max_nodes) _ bad_max_nodes h₁ in
    let walk = visit_at resolve max_depth max_nodes dead_end (max_depth - 1) subject 1 start in
    let sound =
      visit_at-IsSound resolve max_depth max_nodes (max_depth - 1) dead_end
        (dead_end-IsSound resolve) subject 1 start tt in
    let same : to_result walk ≡ r = cc h₂ in
    subst (λ (x : LineageResult). Chain resolve subject x.resolved_depth) {x = to_result walk}
      {y = r} same
      (sound.chain (
        subst (λ (x : LineageResult). x.outcome ≡ verified) {x = r} {y = to_result walk} (sym same)
          v))

-- A verified document is not among its own ancestors, along parent and merge links in the store.
pub verified_acyclic :
    (resolve : String → Option LineageDoc) (max_depth max_nodes : ℕ) (abyss : Visit)
    (subject : String) (r : LineageResult)
    → verify_lineage_chain resolve max_depth max_nodes abyss subject ≡ ok r
    → r.outcome ≡ verified
    → ¬ IsAncestor resolve subject subject
verified_acyclic resolve max_depth max_nodes abyss subject r h v =
    Chain-acyclic resolve r.resolved_depth
      (verified-Chain resolve max_depth max_nodes abyss subject r h v)
