-- ===== src/Merkle/Block/PathLoop.antt =====
-- The loop of `generateBlockInclusionProof` and the path that it collects.
use cdx_file_format_spec.Prelude.{
  ℕ, zero, suc, ◌+◌, ◌-◌, ◌*◌, ◌/◌, ◌%◌, ◌^◌, ◌<◌, ◌≤◌, ◌≡◌, sym, subst, ◌∙◌, inl, inr, true, false,
  List, [], ◌∷◌, ◌++◌, length, get_or, All, ltb, ltb→lt, ◌==◌, some, ok, Bool-cases, arith,
}
use native.Mathlib.Nat.{pow-suc}
use mathlib.Core.List.{append-nil, append_assoc}
use cdx_file_format_spec.Merkle.ContentHash.{Units, Bytes, decode_content_hash, print_hash}
use cdx_file_format_spec.Merkle.ContentHash.RoundTrip.{IsName, decode-print_hash}
use cdx_file_format_spec.Merkle.Block.{
  node_hash_name, named, PathElement, element, left, right, path_element, path_loop, is_promoted,
  fold_path,
}
use cdx_file_format_spec.Merkle.Block.Levels.{
  IsHashFunction, IsDigest, pair_up, reduce, length-pair_up, get_or-pair_up, get_or-pair_up_last,
  All-pair_up, All-get_or, tagged, internal_node-known, reduce_step, reduce_done, path_loop_done,
  path_loop_promoted, path_loop_sibling, same_units_refl,
}

module _ (digest : Units → Bytes → Bytes) (hash : IsHashFunction digest) (a name : Units)
    (known : node_hash_name a ≡ ok (named name)) (plain : IsName a) where
  pub tagged-IsDigest : (l r : Bytes) → IsDigest (tagged digest name l r)
  tagged-IsDigest l r = (hash.bytes name (1 ∷ l ++ r), hash.size name (1 ∷ l ++ r))

  pub decode-printed :
      (b : Bytes)
      → IsDigest b
      → decode_content_hash (some (print_hash a b)) ≡ ok (record { algorithm = a; bytes = b })
  decode-printed b good = decode-print_hash a b plain good.0 good.1

  -- A printed sibling on either side joins the accumulator.
  fold_right :
      (acc sib : Bytes) (rest : List PathElement)
      → IsDigest sib
      → fold_path digest a acc (element right (some (print_hash a sib)) ∷ rest)
        ≡ fold_path digest a (tagged digest name acc sib) rest
  unfolding fold_path
  fold_right acc sib rest good =
      rw (decode-printed sib good, same_units_refl, internal_node-known digest a name known)

  fold_left :
      (acc sib : Bytes) (rest : List PathElement)
      → IsDigest sib
      → fold_path digest a acc (element left (some (print_hash a sib)) ∷ rest)
        ≡ fold_path digest a (tagged digest name sib acc) rest
  unfolding fold_path
  fold_left acc sib rest good =
      rw (decode-printed sib good, same_units_refl, internal_node-known digest a name known)

  fold_even :
      (level : List Bytes) (i : ℕ) (rest : List PathElement)
      → All IsDigest level
      → 2 * i + 1 < length level
      → fold_path digest a (get_or level (2 * i) []) (path_element a level (2 * i) ∷ rest)
        ≡ fold_path digest a (get_or (pair_up (tagged digest name) level) i []) rest
  fold_even level i rest good h =
      let even : (2 * i % 2 == 0) ≡ true = ground arith in
      rw even (
        fold_right (get_or level (2 * i) []) (get_or level (2 * i + 1) []) rest
          (All-get_or IsDigest level (2 * i + 1) good h)
        ∙ rw (← get_or-pair_up (tagged digest name) level i h))

  fold_odd :
      (level : List Bytes) (i : ℕ) (rest : List PathElement)
      → All IsDigest level
      → 2 * i + 1 < length level
      → fold_path digest a (get_or level (2 * i + 1) []) (path_element a level (2 * i + 1) ∷ rest)
        ≡ fold_path digest a (get_or (pair_up (tagged digest name) level) i []) rest
  fold_odd level i rest good h =
      let odd : ((2 * i + 1) % 2 == 0) ≡ false = ground arith in
      let before : 2 * i + 1 - 1 ≡ 2 * i = omega arith in
      rw (odd, before)
        (fold_left (get_or level (2 * i + 1) []) (get_or level (2 * i) []) rest
            (All-get_or IsDigest level (2 * i) good (omega arith))
          ∙ rw (← get_or-pair_up (tagged digest name) level i h))

  -- A node with a sibling: folding its element moves one level up.
  fold_element :
      (level : List Bytes) (pos : ℕ) (rest : List PathElement)
      → All IsDigest level
      → pos < length level
      → is_promoted level pos ≡ false
      → fold_path digest a (get_or level pos []) (path_element a level pos ∷ rest)
        ≡ fold_path digest a (get_or (pair_up (tagged digest name) level) (pos / 2) []) rest
  fold_element level pos rest good h paired = elim (Bool-cases (pos % 2 == 0)) [
    | inl e ↦
        let at : pos ≡ 2 * (pos / 2) = ground arith in
        subst
          (λ p.
            fold_path digest a (get_or level p []) (path_element a level p ∷ rest)
            ≡ fold_path digest a (get_or (pair_up (tagged digest name) level) (pos / 2) []) rest)
          (sym at) (fold_even level (pos / 2) rest good (ground arith))
    | inr o ↦
        let at : pos ≡ 2 * (pos / 2) + 1 = ground arith in
        subst
          (λ p.
            fold_path digest a (get_or level p []) (path_element a level p ∷ rest)
            ≡ fold_path digest a (get_or (pair_up (tagged digest name) level) (pos / 2) []) rest)
          (sym at) (fold_odd level (pos / 2) rest good (ground arith))
  ]

  -- A promoted node keeps its value one level up.
  promoted_value :
      (level : List Bytes) (pos : ℕ)
      → is_promoted level pos ≡ true
      → pos < length level
      → get_or
          (pair_up (tagged digest name) level)
          (length (pair_up (tagged digest name) level) - 1)
          []
        ≡ get_or level pos []
  promoted_value level pos h k =
      let len : length level ≡ 2 * (pos / 2) + 1 = ground arith in
      let at : 2 * (pos / 2) ≡ pos = ground arith in
      let last : length (pair_up (tagged digest name) level) - 1 ≡ pos / 2 =
        omega (arith, len, length-pair_up (tagged digest name) level) in
      rw last (get_or-pair_up_last (tagged digest name) level (pos / 2) len ∙ rw at)

  -- What the generator appends to the path, from any level and position, folds to the root of that
  -- level; at most n elements, if the level has at most 2 ^ n nodes.
  abbrev pub Leads : ℕ → List Bytes → ℕ → List PathElement → ℕ → Type 0
  Leads fuel level pos path n =
      (rest : List PathElement) × (path_loop digest fuel a level pos path ≡ ok (path ++ rest))
      × (fold_path digest a (get_or level pos []) rest
          ≡ ok (get_or (reduce (tagged digest name) fuel level) 0 []))
      × (length rest ≤ n)

  pub path_loop-Leads :
      (fuel : ℕ) (level : List Bytes) (pos : ℕ) (path : List PathElement) (n : ℕ)
      → pos < length level
      → length level ≤ fuel
      → length level ≤ 2 ^ n
      → All IsDigest level
      → Leads fuel level pos path n
  unfolding fold_path
  path_loop-Leads zero level pos path n h k l good = absurd (omega arith)
  path_loop-Leads (suc fuel) level pos path zero h k l good =
      let single : ltb 1 (length level) ≡ false = ground arith in
      let at : pos ≡ 0 = omega arith in
      (
        [],
        path_loop_done digest a name known fuel level pos path single ∙ rw append-nil,
        rw (reduce_done (tagged digest name) fuel level single, at),
        omega arith,
      )
  path_loop-Leads (suc fuel) level pos path (suc n) h k l good =
      elim (Bool-cases (ltb 1 (length level))) [
        | inr f ↦
            let at : pos ≡ 0 = ground arith in
            (
              [],
              path_loop_done digest a name known fuel level pos path f ∙ rw append-nil,
              rw (reduce_done (tagged digest name) fuel level f, at),
              omega arith,
            )
        | inl t ↦
            let next = pair_up (tagged digest name) level in
            let size = length-pair_up (tagged digest name) level in
            let up = All-pair_up (tagged digest name) level tagged-IsDigest good in
            let more = ltb→lt 1 (length level) t in
            elim (Bool-cases (is_promoted level pos)) [
              | inl p ↦
                  let (rest, loop, fold, len) =
                    path_loop-Leads fuel next (length next - 1) path n (omega arith) (omega arith)
                      (omega (arith, pow-suc 2 n)) up in
                  (
                    rest,
                    path_loop_promoted digest a name known fuel level pos path t p ∙ loop,
                    rw
                        (
                          reduce_step (tagged digest name) fuel level t,
                          ← promoted_value level pos p h,
                        )
                        fold,
                    omega arith,
                  )
              | inr p ↦
                  let (rest, loop, fold, len) =
                    path_loop-Leads fuel next (pos / 2) (path ++ path_element a level pos ∷ []) n
                      (omega arith) (omega arith) (omega (arith, pow-suc 2 n)) up in
                  (
                    path_element a level pos ∷ rest,
                    path_loop_sibling digest a name known fuel level pos path t p
                        ∙ loop
                        ∙ rw append_assoc,
                    fold_element level pos rest good h p
                        ∙ rw (reduce_step (tagged digest name) fuel level t) fold,
                    omega arith,
                  )
            ]
      ]
