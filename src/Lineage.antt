-- ===== src/Lineage.antt =====
-- scripts/lib/lineage-chain.ts: the three-state verifier of a document's lineage. The store is the
-- parameter `resolve`. The walk passes its mutable state (memo, current path, meter, warnings) on
-- explicitly; its recursion takes fuel, and `abyss` stands for a call past the fuel.
pub mod Chain
pub mod Rounds
pub mod Fuel
pub mod Soundness
mod Tests
use cdx_file_format_spec.Prelude.{
  ℕ, zero, suc, ◌+◌, ◌-◌, String, Bool, true, false, not, ◌&&◌, ◌||◌, List, [], ◌∷◌, ◌++◌, any, leb,
  ltb, ◌==◌, str_eq, if◌then◌else◌, Option, none, some, Result, ok, err,
}

-- An id is a text; `merged_from` is empty if the document has no such array.
pub record LineageDoc : Type 0 where
  pub id : String
  pub parent : Option String
  pub merged_from : List String
  pub ancestors : Option (List String)
  pub depth : Option ℕ
  pub version : Option ℕ

pub data LineageOutcome : Type 0 where
  verified incomplete rejected : LineageOutcome

-- The `reasonCode` of a result; the sentence beside it is not modelled.
pub data ReasonCode : Type 0 where
  cycle bound_reached unresolvable root_with_ancestors ancestors_contradict : ReasonCode

pub data Warning : Type 0 where
  claimed_depth : String → ℕ → ℕ → Warning
  claimed_version : String → ℕ → Warning

pub record VisitResult : Type 0 where
  pub outcome : LineageOutcome
  pub depth : ℕ
  pub reason_code : Option ReasonCode
  pub broken_at : Option String

-- The variables that `visit` shares.
pub record Walk : Type 0 where
  pub warnings : List Warning
  pub memo : List (String × ℕ)
  pub on_path : List String
  pub resolve_count : ℕ

pub record LineageResult : Type 0 where
  pub outcome : LineageOutcome
  pub resolved_depth : ℕ
  pub reason_code : Option ReasonCode
  pub broken_at : Option String
  pub warnings : List Warning

pub data LineageError : Type 0 where
  bad_max_depth bad_max_nodes : LineageError

abbrev pub min_traversal_bound : ℕ
min_traversal_bound = 64

abbrev pub default_max_nodes : ℕ
default_max_nodes = 4096

-- set.has(id), set.delete(id), map.get(id)
unfoldable pub has : String → List String → Bool
has id [] = false
has id (x ∷ xs) = if str_eq x id then true else has id xs

unfoldable pub delete : String → List String → List String
delete id [] = []
delete id (x ∷ xs) = let rest = delete id xs in if str_eq x id then rest else x ∷ rest

unfoldable pub memo_get : String → List (String × ℕ) → Option ℕ
memo_get id [] = none
memo_get id ((x, n) ∷ m) = if str_eq x id then some n else memo_get id m

abbrev pub verified_at : ℕ → VisitResult
verified_at n = record { outcome = verified; depth = n; reason_code = none; broken_at = none }

abbrev pub rejected_at : ℕ → ReasonCode → VisitResult
rejected_at n c = record { outcome = rejected; depth = n; reason_code = some c; broken_at = none }

abbrev pub incomplete_at : ℕ → ReasonCode → String → VisitResult
incomplete_at n c id = record {
  outcome = incomplete;
  depth = n;
  reason_code = some c;
  broken_at = some id;
}

abbrev pub parents_of : LineageDoc → List String
parents_of doc = elim doc.parent [ none ↦ doc.merged_from | some p ↦ p ∷ doc.merged_from ]

abbrev pub to_list : Option (List String) → List String
to_list none = []
to_list (some l) = l

abbrev pub is_nil : List String → Bool
is_nil [] = true
is_nil _ = false

-- The loop over the overlap of the two chains.
abbrev pub overlap_agrees : List String → List String → Bool
overlap_agrees (a ∷ xs) (b ∷ ys) = str_eq a b && overlap_agrees xs ys
overlap_agrees _ _ = true

-- doc.ancestors[0] === doc.parent, of an array that is not empty.
abbrev pub starts_with_parent : List String → String → Bool
starts_with_parent [] p = false
starts_with_parent (a ∷ _) p = str_eq a p

-- The cross-check of `ancestors` against the resolved primary parent: does it reject?
abbrev pub contradicts_parent : List String → String → Option LineageDoc → Bool
contradicts_parent ancestors p none = false
contradicts_parent ancestors p (some parent) =
    not (starts_with_parent ancestors p)
    || not (overlap_agrees ancestors (p ∷ to_list parent.ancestors))

abbrev pub warn_depth : String → Option ℕ → ℕ → List Warning
warn_depth id none expected = []
warn_depth id (some n) expected = if n == expected then [] else claimed_depth id n expected ∷ []

abbrev pub warn_version : String → Option ℕ → Option ℕ → List Warning
warn_version id (some v) (some w) = if v == w + 1 then [] else claimed_version id v ∷ []
warn_version id _ _ = []

-- What the loop over the parents has found so far.
pub record Parents : Type 0 where
  pub first_incomplete : Option VisitResult
  pub rejection : Option VisitResult
  pub max_depth : ℕ

abbrev pub keep_first : Option VisitResult → VisitResult → VisitResult
keep_first none r = r
keep_first (some f) r = f

abbrev pub Visit : Type 0
Visit = String → ℕ → Walk → VisitResult × Walk

-- One parent's result; the loop breaks on a rejection, else it goes on by `next`.
abbrev pub after_parent :
    VisitResult × Walk → Parents → (Parents → Walk → Parents × Walk) → Parents × Walk
after_parent (r, w) ps next = elim r.outcome [
  | rejected ↦ (record ps { rejection = some r }, w)
  | incomplete ↦ next (record ps { first_incomplete = some (keep_first ps.first_incomplete r) }) w
  | verified ↦
      next (record ps { max_depth = if ltb ps.max_depth r.depth then r.depth else ps.max_depth }) w
]

-- for (const p of parents)
unfoldable pub visit_parents : Visit → ℕ → List String → Parents → Walk → Parents × Walk
visit_parents visit d [] ps w = (ps, w)
visit_parents visit d (p ∷ rest) ps w =
    after_parent (visit p d w) ps (λ ps' w'. visit_parents visit d rest ps' w')

abbrev pub no_parents : Parents
no_parents = record { first_incomplete = none; rejection = none; max_depth = 0 }

-- A document with no parent.
unfoldable pub visit_root : String → LineageDoc → ℕ → Walk → VisitResult × Walk
visit_root id doc d w =
    if not (is_nil (to_list doc.ancestors)) then (rejected_at d root_with_ancestors, w) else (
      verified_at 1,
      record w { warnings = w.warnings ++ warn_depth id doc.depth 1; memo = (id, 1) ∷ w.memo },
    )

abbrev pub start : Walk
start = record { warnings = []; memo = []; on_path = []; resolve_count = 0 }

abbrev pub to_result : VisitResult × Walk → LineageResult
to_result (r, w) = record {
  outcome = r.outcome;
  resolved_depth = r.depth;
  reason_code = r.reason_code;
  broken_at = r.broken_at;
  warnings = w.warnings;
}

module _ (resolve : String → Option LineageDoc) where
  abbrev pub contradicts : LineageDoc → Bool
  contradicts doc = elim doc.parent [
    | none ↦ false
    | some p ↦ elim doc.ancestors [
      | none ↦ false
      | some ancestors ↦ contradicts_parent ancestors p (resolve p)
    ]
  ]

  abbrev pub parent_version : LineageDoc → Option ℕ
  parent_version doc = elim doc.parent [
    | none ↦ none
    | some p ↦ elim (resolve p) [ none ↦ none | some parent ↦ parent.version ]
  ]

  -- After the loop: the id leaves the path, a rejection wins, then the first incomplete parent.
  unfoldable pub close_node : String → LineageDoc → Parents × Walk → VisitResult × Walk
  close_node id doc (ps, w) =
      let left = record w { on_path = delete id w.on_path } in
      elim ps.rejection [
        | some r ↦ (r, left)
        | none ↦ elim ps.first_incomplete [
          | some r ↦ (r, left)
          | none ↦ (
            verified_at (ps.max_depth + 1),
            record left {
              warnings =
                  w.warnings
                  ++ warn_depth id doc.depth (ps.max_depth + 1)
                  ++ warn_version id doc.version (parent_version doc);
              memo = (id, ps.max_depth + 1) ∷ w.memo;
            },
          )
        ]
      ]

module _ (resolve : String → Option LineageDoc) (max_depth max_nodes : ℕ) where
  -- A document whose first parent is `p`: the depth bound, the cross-check, the parents.
  unfoldable pub visit_node : Visit → String → LineageDoc → String → ℕ → Walk → VisitResult × Walk
  visit_node visit id doc p d w =
      if leb max_depth d
      then (incomplete_at d bound_reached p, w)
      else if contradicts resolve doc
      then (rejected_at d ancestors_contradict, w)
      else close_node resolve id doc (
          visit_parents visit (d + 1) (parents_of doc) no_parents
            (record w { on_path = id ∷ w.on_path }))

  unfoldable pub visit_doc : Visit → String → LineageDoc → ℕ → Walk → VisitResult × Walk
  unfolding visit_root visit_node close_node
  visit_doc visit id doc d w = elim (parents_of doc) [
    | [] ↦ visit_root id doc d w
    | p ∷ _ ↦ visit_node visit id doc p d w
  ]

  -- The body of `visit`, with its recursive call as an argument.
  unfoldable pub visit_body : Visit → Visit
  unfolding visit_doc
  visit_body visit id d w =
      if has id w.on_path then (rejected_at (d - 1) cycle, w) else elim (memo_get id w.memo) [
        | some cached ↦ (verified_at cached, w)
        | none ↦
            let metered = record w { resolve_count = w.resolve_count + 1 } in
            if ltb max_nodes metered.resolve_count
            then (incomplete_at (d - 1) bound_reached id, metered)
            else elim (resolve id) [
              | none ↦ (incomplete_at (d - 1) unresolvable id, metered)
              | some doc ↦ visit_doc visit id doc d metered
            ]
      ]

  unfoldable pub visit_at : Visit → ℕ → Visit
  unfolding visit_body
  visit_at abyss zero = visit_body abyss
  visit_at abyss (suc fuel) = visit_body (visit_at abyss fuel)

  -- A bound that is no positive integer throws. The first visit is at depth 1, so that with a fuel of
  -- `max_depth - 1` a visit at depth `max_depth + 1` is a call of `abyss`.
  unfoldable pub verify_lineage_chain : Visit → String → Result LineageError LineageResult
  unfolding visit_at
  verify_lineage_chain abyss subject_id =
      if leb 1 max_depth
      then (if leb 1 max_nodes
          then ok (to_result (visit_at abyss (max_depth - 1) subject_id 1 start))
          else err bad_max_nodes)
      else err bad_max_depth
