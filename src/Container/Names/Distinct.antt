-- ===== src/Container/Names/Distinct.antt =====
-- When `detectDuplicates` of zip-reader.ts reports nothing.
use cdx_file_format_spec.Prelude.{
  ℕ, suc, ◌+◌, ◌≤◌, ◌≡◌, ◌≢◌, refl, sym, ap, ◌∙◌, subst, true, false, not, List, [], ◌∷◌, ◌++◌, map,
  ltb, All, none, some, if◌then◌else◌, if_rule, Bool-cases, Option-cases, inl, inr, same_units_refl,
  same_units-eq, same_units-false_iff, arith,
}
use cdx_file_format_spec.Merkle.ContentHash.{Units}
use cdx_file_format_spec.Merkle.Block.{same_units}
use cdx_file_format_spec.Container.Platform.{Platform}
use cdx_file_format_spec.Container.Names.{
  when, duplicate_entry, case_collision, count_name, count_names, duplicates, folded_get,
  collisions, detect_duplicates,
}
use cdx_file_format_spec.Container.Names.Silence.{append-nil_left, append-nil_right, when-nil}

-- Every text differs from the later ones.
abbrev pub IsDistinct : List Units → Type 0
IsDistinct [] = Unit
IsDistinct (n ∷ ns) = All (λ m. n ≢ m) ns × IsDistinct ns

-- How often a name is counted, and how often it occurs.
tally : Units → List (Units × ℕ) → ℕ
tally n [] = 0
tally n ((m, k) ∷ rest) = let below = tally n rest in if same_units m n then k else below

occurrences : Units → List Units → ℕ
occurrences n [] = 0
occurrences n (m ∷ ms) = let below = occurrences n ms in if same_units m n then suc below else below

tally-count_name :
    (n m : Units) (exact : List (Units × ℕ))
    → tally n (count_name m exact) ≡ (if same_units m n then suc (tally n exact) else tally n exact)
unfolding count_name tally
tally-count_name n m [] = elim (Bool-cases (same_units m n)) [
  | inl e ↦ rw e refl
  | inr e ↦ rw e refl
]
tally-count_name n m ((k, c) ∷ rest) = elim (Bool-cases (same_units k m)) [
  | inl e ↦
      let same : k ≡ m = same_units-eq k m e in
      elim (Bool-cases (same_units m n)) [
        | inl f ↦
            let g : same_units k n ≡ true = subst (λ x. same_units x n ≡ true) (sym same) f in
            rw (e, f, g) (omega arith)
        | inr f ↦
            let g : same_units k n ≡ false = subst (λ x. same_units x n ≡ false) (sym same) f in
            rw (e, f, g) refl
      ]
  | inr e ↦
      let rest' = tally-count_name n m rest in
      elim (Bool-cases (same_units m n)) [
        | inl f ↦
            let h : tally n (count_name m rest) ≡ suc (tally n rest) = rw f at rest' in
            elim (Bool-cases (same_units k n)) [
              | inl g ↦
                  let same : k ≡ m = same_units-eq k n g ∙ sym (same_units-eq m n f) in
                  absurd ((same_units-false_iff k m).0 e same)
              | inr g ↦ rw (e, f, g) h
            ]
        | inr f ↦
            let h : tally n (count_name m rest) ≡ tally n rest = rw f at rest' in
            elim (Bool-cases (same_units k n)) [
              | inl g ↦ rw (e, f, g) refl
              | inr g ↦ rw (e, f, g) h
            ]
      ]
]

tally-count_names :
    (n : Units) (exact : List (Units × ℕ)) (ns : List Units)
    → tally n (count_names exact ns) ≡ occurrences n ns + tally n exact
unfolding count_names occurrences
tally-count_names n exact [] = omega arith
tally-count_names n exact (m ∷ ms) =
    let one = tally-count_name n m exact in
    let rest = tally-count_names n (count_name m exact) ms in
    elim (Bool-cases (same_units m n)) [
      | inl f ↦
          let h : tally n (count_name m exact) ≡ suc (tally n exact) = rw f at one in
          rw f (omega (arith, rest, h))
      | inr f ↦
          let h : tally n (count_name m exact) ≡ tally n exact = rw f at one in
          rw f (omega (arith, rest, h))
    ]

-- No count is above one.
tally-single : (n : Units) (exact : List (Units × ℕ)) → duplicates exact ≡ [] → tally n exact ≤ 1
unfolding duplicates tally
tally-single n [] h = omega arith
tally-single n ((m, k) ∷ rest) h =
    let few : ltb 1 k ≡ false = when-nil (ltb 1 k) duplicate_entry (append-nil_left _ _ h) in
    let below = tally-single n rest (append-nil_right (when (ltb 1 k) duplicate_entry) _ h) in
    if_rule (λ t. t ≤ 1) (same_units m n) k (tally n rest) (λ _. ground arith) (λ _. below)

absent : (n : Units) (ns : List Units) → occurrences n ns ≤ 0 → All (λ m. n ≢ m) ns
unfolding occurrences
absent n [] h = tt
absent n (m ∷ ms) h = elim (Bool-cases (same_units m n)) [
  | inl e ↦ let h' : suc (occurrences n ms) ≤ 0 = rw e at h in absurd (omega (arith, h'))
  | inr e ↦
      let h' : occurrences n ms ≤ 0 = rw e at h in
      (λ same. (same_units-false_iff m n).0 e (sym same), absent n ms h')
]

few-IsDistinct : (ns : List Units) → ((n : Units) → occurrences n ns ≤ 1) → IsDistinct ns
unfolding occurrences
few-IsDistinct [] h = tt
few-IsDistinct (n ∷ ns) h =
    let here : suc (occurrences n ns) ≤ 1 = rw (same_units_refl n) at (h n) in
    (
      absent n ns (omega (arith, here)),
      few-IsDistinct ns (λ m. elim (Bool-cases (same_units n m)) [
        | inl e ↦ let one : suc (occurrences m ns) ≤ 1 = rw e at (h m) in omega (arith, one)
        | inr e ↦ rw e at (h m)
      ]),
    )

names-IsDistinct : (ns : List Units) → duplicates (count_names [] ns) ≡ [] → IsDistinct ns
unfolding tally
names-IsDistinct ns h =
    few-IsDistinct ns
      (λ n. omega (arith, tally-count_names n [] ns, tally-single n (count_names [] ns) h))

module _ (node : Platform) where
  first_met :
      (n : Units) (folded : List (Units × Units)) (ns : List Units)
      → folded_get (node.lower_case n) folded ≡ none
      → collisions node folded (n ∷ ns) ≡ []
      → collisions node ((node.lower_case n, n) ∷ folded) ns ≡ []
  unfolding collisions
  first_met n folded ns e h = rw (collisions, e) at h

  met_again :
      (n k : Units) (folded : List (Units × Units)) (ns : List Units)
      → folded_get (node.lower_case n) folded ≡ some k
      → collisions node folded (n ∷ ns) ≡ []
      → when (not (same_units k n)) case_collision ++ collisions node folded ns ≡ []
  unfolding collisions
  met_again n k folded ns e h = rw (collisions, e) at h

  -- A name with a lower-case form that is known is the name known for it.
  folded-known :
      (l m : Units) (folded : List (Units × Units)) (ns : List Units)
      → folded_get l folded ≡ some m
      → collisions node folded ns ≡ []
      → All (λ n. node.lower_case n ≡ l → m ≡ n) ns
  unfolding collisions folded_get
  folded-known l m folded [] g h = tt
  folded-known l m folded (n ∷ ns) g h =
      elim (Option-cases (folded_get (node.lower_case n) folded)) [
        | inl e ↦
            let fresh : (node.lower_case n) ≢ l = λ same.
              let no : none ≡ some m = sym e ∙ ap (λ x. folded_get x folded) same ∙ g in cc no in
            let other = (same_units-false_iff (node.lower_case n) l).1 fresh in
            (
              λ same. absurd (fresh same),
              folded-known l m ((node.lower_case n, n) ∷ folded) ns (rw other g)
                  (first_met n folded ns e h),
            )
        | inr (k, e) ↦
            let h' : when (not (same_units k n)) case_collision ++ collisions node folded ns ≡ [] =
              met_again n k folded ns e h in
            let agree : not (same_units k n) ≡ false =
              when-nil _ case_collision (append-nil_left _ _ h') in
            let is_n : k ≡ n = same_units-eq k n (ground arith) in
            (
              λ same.
                  let found : some m ≡ some k =
                    sym g ∙ ap (λ x. folded_get x folded) (sym same) ∙ e in
                  let m_is_k : m ≡ k = cc found in m_is_k ∙ is_n,
              folded-known l m folded ns g
                  (append-nil_right (when (not (same_units k n)) case_collision) _ h'),
            )
      ]

  apart :
      (l n : Units) (ns : List Units)
      → All (λ m. node.lower_case m ≡ l → n ≡ m) ns
      → All (λ m. n ≢ m) ns
      → All (λ k. l ≢ k) (map node.lower_case ns)
  apart l n [] a d = tt
  apart l n (m ∷ ms) (a, as') (d, ds) = (λ same. d (a (sym same)), apart l n ms as' ds)

  lower-IsDistinct :
      (folded : List (Units × Units)) (ns : List Units)
      → collisions node folded ns ≡ []
      → IsDistinct ns
      → IsDistinct (map node.lower_case ns)
  unfolding collisions folded_get
  lower-IsDistinct folded [] h d = tt
  lower-IsDistinct folded (n ∷ ns) h (d, ds) =
      elim (Option-cases (folded_get (node.lower_case n) folded)) [
        | inl e ↦
            let h' : collisions node ((node.lower_case n, n) ∷ folded) ns ≡ [] =
              first_met n folded ns e h in
            let self = same_units_refl (node.lower_case n) in
            (
              apart (node.lower_case n) n ns
                  (folded-known (node.lower_case n) n ((node.lower_case n, n) ∷ folded) ns
                    (rw self refl) h')
                  d,
              lower-IsDistinct ((node.lower_case n, n) ∷ folded) ns h' ds,
            )
        | inr (k, e) ↦
            let h' : when (not (same_units k n)) case_collision ++ collisions node folded ns ≡ [] =
              met_again n k folded ns e h in
            let agree : not (same_units k n) ≡ false =
              when-nil _ case_collision (append-nil_left _ _ h') in
            let is_n : k ≡ n = same_units-eq k n (ground arith) in
            let rest = append-nil_right (when (not (same_units k n)) case_collision) _ h' in
            (
              apart (node.lower_case n) n ns
                  (folded-known (node.lower_case n) n folded ns (e ∙ ap some is_n) rest) d,
              lower-IsDistinct folded ns rest ds,
            )
      ]

  -- The names stay distinct in lower case.
  pub detect_duplicates-IsDistinct :
      (names : List Units)
      → detect_duplicates node names ≡ []
      → IsDistinct names × IsDistinct (map node.lower_case names)
  unfolding detect_duplicates
  detect_duplicates-IsDistinct names h =
      let plain = names-IsDistinct names (append-nil_right (collisions node [] names) _ h) in
      (plain, lower-IsDistinct [] names (append-nil_left _ _ h) plain)
