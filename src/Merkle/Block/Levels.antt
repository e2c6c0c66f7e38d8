-- ===== src/Merkle/Block/Levels.antt =====
-- The levels of a cdx-bmt-1 tree with the hash function in the open: what one round of the loop of
-- block-merkle.ts makes of a level, and where each node stands afterwards.
pub use cdx_file_format_spec.Prelude.{same_units_refl, same_units-eq}
use cdx_file_format_spec.Prelude.{
  ℕ, zero, suc, ◌+◌, ◌-◌, ◌*◌, ◌/◌, ◌<◌, ◌≤◌, ◌≡◌, refl, inl, inr, true, false, List, [], ◌∷◌, ◌++◌,
  length, get_or, All, ltb, ltb→lt, ok, Bool-cases, arith,
}
use cdx_file_format_spec.Merkle.ContentHash.{Units, Bytes}
use cdx_file_format_spec.Merkle.ContentHash.RoundTrip.{IsBytes}
use cdx_file_format_spec.Merkle.Block.{
  node_hash_name, named, internal_node, next_level, reduce_levels, path_loop, path_element,
  is_promoted, PathElement,
}

-- What Node documents of `digest()`: a Buffer that is not empty.
pub record IsHashFunction (digest : Units → Bytes → Bytes) : Type 0 where
  pub bytes : (a : Units) (x : Bytes) → IsBytes (digest a x)
  pub size : (a : Units) (x : Bytes) → 1 ≤ length (digest a x)

abbrev pub IsDigest : Bytes → Type 0
IsDigest b = IsBytes b × (1 ≤ length b)

module _ (node : Bytes → Bytes → Bytes) where
  -- Neighbours joined by `node`, an odd last node unchanged.
  unfoldable pub pair_up : List Bytes → List Bytes
  pair_up (l ∷ r ∷ rest) = node l r ∷ pair_up rest
  pair_up level = level

  unfoldable pub reduce : ℕ → List Bytes → List Bytes
  reduce zero level = level
  reduce (suc fuel) level = elim (ltb 1 (length level)) [
    | true ↦ reduce fuel (pair_up level)
    | false ↦ level
  ]

  pub reduce_step :
      (fuel : ℕ) (level : List Bytes)
      → ltb 1 (length level) ≡ true
      → reduce (suc fuel) level ≡ reduce fuel (pair_up level)
  unfolding reduce
  reduce_step fuel level t = rw (t, reduce)

  pub reduce_done :
      (fuel : ℕ) (level : List Bytes)
      → ltb 1 (length level) ≡ false
      → reduce (suc fuel) level ≡ level
  unfolding reduce
  reduce_done fuel level f = rw (f, reduce)

  pub length-pair_up : (level : List Bytes) → length (pair_up level) ≡ (length level + 1) / 2
  unfolding pair_up
  length-pair_up [] = refl
  length-pair_up (l ∷ []) = refl
  length-pair_up (l ∷ r ∷ rest) = omega (arith, length-pair_up rest)

  -- The node over the positions 2i and 2i + 1.
  pub get_or-pair_up :
      (level : List Bytes) (i : ℕ)
      → 2 * i + 1 < length level
      → get_or (pair_up level) i [] ≡ node (get_or level (2 * i) []) (get_or level (2 * i + 1) [])
  unfolding pair_up
  get_or-pair_up [] i h = absurd (omega arith)
  get_or-pair_up (l ∷ []) i h = absurd (omega arith)
  get_or-pair_up (l ∷ r ∷ rest) zero h = refl
  get_or-pair_up (l ∷ r ∷ rest) (suc i) h =
      let e : 2 * suc i ≡ suc (suc (2 * i)) = omega arith in
      let e' : 2 * suc i + 1 ≡ suc (suc (2 * i + 1)) = omega arith in
      rw (e', e) (get_or-pair_up rest i (omega arith))

  -- The last node of a level of odd length.
  pub get_or-pair_up_last :
      (level : List Bytes) (i : ℕ)
      → length level ≡ 2 * i + 1
      → get_or (pair_up level) i [] ≡ get_or level (2 * i) []
  unfolding pair_up
  get_or-pair_up_last [] i h = absurd (omega arith)
  get_or-pair_up_last (l ∷ []) zero h = refl
  get_or-pair_up_last (l ∷ []) (suc i) h = absurd (omega arith)
  get_or-pair_up_last (l ∷ r ∷ rest) zero h = absurd (omega arith)
  get_or-pair_up_last (l ∷ r ∷ rest) (suc i) h =
      let e : 2 * suc i ≡ suc (suc (2 * i)) = omega arith in
      rw e (get_or-pair_up_last rest i (omega arith))

  pub All-pair_up :
      (level : List Bytes)
      → ((l r : Bytes) → IsDigest (node l r))
      → All IsDigest level
      → All IsDigest (pair_up level)
  unfolding pair_up
  All-pair_up [] good h = h
  All-pair_up (l ∷ []) good h = h
  All-pair_up (l ∷ r ∷ rest) good h = (good l r, All-pair_up rest good h.1.1)

  -- Enough fuel leaves one node.
  pub length-reduce :
      (fuel : ℕ) (level : List Bytes)
      → 1 ≤ length level
      → length level ≤ fuel
      → length (reduce fuel level) ≡ 1
  unfolding reduce
  length-reduce zero level h k = absurd (omega arith)
  length-reduce (suc fuel) level h k = elim (Bool-cases (ltb 1 (length level))) [
    | inl t ↦
        rw (t, reduce)
          (length-reduce fuel (pair_up level) (omega (arith, length-pair_up level, ltb→lt))
            (omega (arith, length-pair_up level, ltb→lt)))
    | inr f ↦ rw (f, reduce) (ground arith)
  ]

  pub All-reduce :
      (fuel : ℕ) (level : List Bytes)
      → ((l r : Bytes) → IsDigest (node l r))
      → All IsDigest level
      → All IsDigest (reduce fuel level)
  unfolding reduce
  All-reduce zero level good h = h
  All-reduce (suc fuel) level good h = elim (Bool-cases (ltb 1 (length level))) [
    | inl t ↦ rw (t, reduce) (All-reduce fuel (pair_up level) good (All-pair_up level good h))
    | inr f ↦ rw (f, reduce) h
  ]

pub All-get_or :
    (P : Bytes → Type 0) (xs : List Bytes) (i : ℕ) → All P xs → i < length xs → P (get_or xs i [])
All-get_or P [] i h k = absurd (omega arith)
All-get_or P (x ∷ xs) zero h k = h.0
All-get_or P (x ∷ xs) (suc i) h k = All-get_or P xs i h.1 (omega arith)

-- The node function of a supported algorithm.
abbrev pub tagged : (Units → Bytes → Bytes) → Units → Bytes → Bytes → Bytes
tagged digest name l r = digest name (1 ∷ l ++ r)

module _ (digest : Units → Bytes → Bytes) (a name : Units)
    (known : node_hash_name a ≡ ok (named name)) where
  pub internal_node-known : (l r : Bytes) → internal_node digest a l r ≡ ok (tagged digest name l r)
  unfolding internal_node
  internal_node-known l r = rw known

  pub next_level-known :
      (level : List Bytes) → next_level digest a level ≡ ok (pair_up (tagged digest name) level)
  unfolding next_level pair_up
  next_level-known [] = refl
  next_level-known (l ∷ []) = refl
  next_level-known (l ∷ r ∷ rest) = rw (internal_node-known l r, next_level-known rest)

  pub reduce_levels-known :
      (fuel : ℕ) (level : List Bytes)
      → reduce_levels digest fuel a level ≡ ok (reduce (tagged digest name) fuel level)
  unfolding reduce_levels reduce
  reduce_levels-known zero level = refl
  reduce_levels-known (suc fuel) level = elim (Bool-cases (ltb 1 (length level))) [
    | inl t ↦
        rw (t, reduce_levels, reduce)
          (rw next_level-known (reduce_levels-known fuel (pair_up (tagged digest name) level)))
    | inr f ↦ rw (f, reduce_levels, reduce)
  ]

  pub path_loop_done :
      (fuel : ℕ) (level : List Bytes) (pos : ℕ) (path : List PathElement)
      → ltb 1 (length level) ≡ false
      → path_loop digest (suc fuel) a level pos path ≡ ok path
  unfolding path_loop
  path_loop_done fuel level pos path f = rw (f, path_loop)

  pub path_loop_promoted :
      (fuel : ℕ) (level : List Bytes) (pos : ℕ) (path : List PathElement)
      → ltb 1 (length level) ≡ true
      → is_promoted level pos ≡ true
      → path_loop digest (suc fuel) a level pos path
        ≡ path_loop digest fuel a
            (pair_up (tagged digest name) level)
            (length (pair_up (tagged digest name) level) - 1)
            path
  unfolding path_loop
  path_loop_promoted fuel level pos path t p =
      rw (t, path_loop) (rw next_level-known (rw (p, path_loop)))

  pub path_loop_sibling :
      (fuel : ℕ) (level : List Bytes) (pos : ℕ) (path : List PathElement)
      → ltb 1 (length level) ≡ true
      → is_promoted level pos ≡ false
      → path_loop digest (suc fuel) a level pos path
        ≡ path_loop digest fuel a
            (pair_up (tagged digest name) level)
            (pos / 2)
            (path ++ path_element a level pos ∷ [])
  unfolding path_loop
  path_loop_sibling fuel level pos path t p =
      rw (t, path_loop) (rw next_level-known (rw (p, path_loop)))
