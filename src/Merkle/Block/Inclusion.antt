-- ===== src/Merkle/Block/Inclusion.antt =====
-- Inclusion proofs of block-merkle.ts: the generator's path leads the verifier to the root.
use cdx_file_format_spec.Prelude.{
  ℕ, zero, suc, ◌^◌, ◌<◌, ◌≤◌, ◌≡◌, refl, ap, subst, true, false, List, [], ◌∷◌, length, get_or,
  All, ltb, leb, Option, none, some, ok, >>=-eq-ok, guard-eq-ok, arith,
}
use cdx_file_format_spec.Merkle.ContentHash.{
  Units, Bytes, mixed_algorithms, DecodedHash, decode_content_hash, print_hash,
}
use cdx_file_format_spec.Merkle.ContentHash.RoundTrip.{IsName, decode-IsBytes}
use cdx_file_format_spec.Merkle.Block.{
  node_hash_name, named, same_units, PathElement, path_loop, fold_path, decode_leaves,
  block_merkle_root, generate_block_inclusion_proof, verify_block_inclusion,
}
use cdx_file_format_spec.Merkle.Block.Levels.{
  IsHashFunction, IsDigest, reduce, length-reduce, All-reduce, All-get_or, tagged,
  reduce_levels-known, same_units_refl, same_units-eq,
}
use cdx_file_format_spec.Merkle.Block.PathLoop.{tagged-IsDigest, decode-printed, path_loop-Leads}

-- What the map over the leaves gives: a digest for each leaf, of the tree's algorithm.
pub record Decodes (a : Units) (ls : List (Option Units)) (level : List Bytes) : Type 0 where
  pub size : length level ≡ length ls
  pub digests : All IsDigest level
  pub leaf :
      (i : ℕ)
      → i < length ls
      → decode_content_hash (get_or ls i none)
        ≡ ok (record { algorithm = a; bytes = get_or level i [] })

Decodes-cons :
    (a : Units) (l : Option Units) (ls : List (Option Units)) (b : Bytes) (level : List Bytes)
    → decode_content_hash l ≡ ok (record { algorithm = a; bytes = b })
    → Decodes a ls level
    → Decodes a (l ∷ ls) (b ∷ level)
Decodes-cons a l ls b level h d = record {
  size = ap suc d.size;
  digests =
      let parts = decode-IsBytes l (record { algorithm = a; bytes = b }) h in
      ((parts.1, parts.2), d.digests);
  leaf = λ i. at i;
}
  where
    at :
        (i : ℕ)
        → i < length (l ∷ ls)
        → decode_content_hash (get_or (l ∷ ls) i none)
          ≡ ok (record { algorithm = a; bytes = get_or (b ∷ level) i [] })
    at zero k = h
    at (suc i) k = d.leaf i (omega arith)

pub decode_leaves-Decodes :
    (a : Units) (ls : List (Option Units)) (level : List Bytes)
    → decode_leaves a ls ≡ ok level
    → Decodes a ls level
unfolding decode_leaves
decode_leaves-Decodes a [] level h =
    let same : [] ≡ level = cc h in
    subst (Decodes a []) same
      (record { size = refl; digests = tt; leaf = λ i k. absurd (omega arith) })
decode_leaves-Decodes a (l ∷ ls) level h =
    let (d, decoded, rest) = >>=-eq-ok (decode_content_hash l) _ h in
    let (same, rest') = guard-eq-ok (same_units d.algorithm a) _ mixed_algorithms rest in
    let (below, loop, last) = >>=-eq-ok (decode_leaves a ls) _ rest' in
    let whole : d.bytes ∷ below ≡ level = cc last in
    let name = same_units-eq d.algorithm a same in
    subst (Decodes a (l ∷ ls)) whole (
      Decodes-cons a l ls d.bytes below
        (subst (λ x. decode_content_hash l ≡ ok (record { algorithm = x; bytes = d.bytes })) name
          decoded)
        (decode_leaves-Decodes a ls below loop))

module _ (digest : Units → Bytes → Bytes) (hash : IsHashFunction digest) where
  -- What a root that was computed tells: the level of the leaves, and the top above it.
  block_merkle_root_inverse :
      (leaf : Option Units) (leaves : List (Option Units)) (d : DecodedHash) (name root : Units)
      → decode_content_hash leaf ≡ ok d
      → node_hash_name d.algorithm ≡ ok (named name)
      → block_merkle_root digest (leaf ∷ leaves) ≡ ok root
      → (level : List Bytes) × (decode_leaves d.algorithm (leaf ∷ leaves) ≡ ok level)
        × (root
            ≡ print_hash d.algorithm
                (get_or (reduce (tagged digest name) (length level) level) 0 []))
  unfolding block_merkle_root
  block_merkle_root_inverse leaf leaves d name root decoded known h =
      let after_name = rw (decoded, known) at h in
      let (level, all_decoded, reduced) =
        >>=-eq-ok (decode_leaves d.algorithm (leaf ∷ leaves)) _ after_name in
      let printed =
        rw (reduce_levels-known digest d.algorithm name known (length level) level) at reduced in
      (level, all_decoded, cc printed)

  generate_runs :
      (leaf : Option Units) (leaves : List (Option Units)) (d : DecodedHash) (root : Units)
      (index : ℕ) (level : List Bytes) (path : List PathElement)
      → decode_content_hash leaf ≡ ok d
      → block_merkle_root digest (leaf ∷ leaves) ≡ ok root
      → decode_leaves d.algorithm (leaf ∷ leaves) ≡ ok level
      → index < length (leaf ∷ leaves)
      → path_loop digest (length level) d.algorithm level index [] ≡ ok path
      → generate_block_inclusion_proof digest (leaf ∷ leaves) index ≡ ok path
  unfolding generate_block_inclusion_proof
  generate_runs leaf leaves d root index level path decoded rooted all_decoded inside loop =
      let below : leb (length (leaf ∷ leaves)) index ≡ false = ground arith in
      rw (below, rooted, decoded, all_decoded) loop

  verify_runs :
      (leaf : Option Units) (a name : Units) (b top : Bytes) (path : List PathElement)
      → decode_content_hash leaf ≡ ok (record { algorithm = a; bytes = b })
      → node_hash_name a ≡ ok (named name)
      → IsName a
      → fold_path digest a b path ≡ ok top
      → IsDigest top
      → length path ≤ 256
      → verify_block_inclusion digest leaf (some path) (some (print_hash a top)) ≡ ok true
  unfolding verify_block_inclusion
  verify_runs leaf a name b top path decoded known plain fold good len =
      let short : ltb 256 (length path) ≡ false = ground arith in
      rw (
        short,
        decoded,
        known,
        fold,
        decode-printed digest hash a name known plain top good,
        same_units_refl a,
        same_units_refl top,
      )

  -- A proof that is generated verifies: for a tree of at most 2 ^ 256 leaves whose root was computed
  -- under a supported algorithm, the generator returns a path for every leaf, and the verifier
  -- accepts that leaf with that path at that root.
  pub verify-generate :
      (leaf : Option Units) (leaves : List (Option Units)) (d : DecodedHash) (name root : Units)
      (index : ℕ)
      → decode_content_hash leaf ≡ ok d
      → node_hash_name d.algorithm ≡ ok (named name)
      → block_merkle_root digest (leaf ∷ leaves) ≡ ok root
      → index < length (leaf ∷ leaves)
      → length (leaf ∷ leaves) ≤ 2 ^ 256
      → (path : List PathElement) × (generate_block_inclusion_proof digest (leaf ∷ leaves) index
          ≡ ok path)
        × (verify_block_inclusion digest (get_or (leaf ∷ leaves) index none) (some path) (some root)
            ≡ ok true)
  verify-generate leaf leaves d name root index decoded known rooted inside small =
      let (level, all_decoded, top) =
        block_merkle_root_inverse leaf leaves d name root decoded known rooted in
      let plain = (decode-IsBytes leaf d decoded).0 in
      let decodes = decode_leaves-Decodes d.algorithm (leaf ∷ leaves) level all_decoded in
      let size = decodes.size in
      let good = tagged-IsDigest digest hash d.algorithm name known plain in
      let (path, loop, fold, len) =
        path_loop-Leads digest hash d.algorithm name known plain (length level) level index [] 256
          (omega arith) (omega arith) (rw size small) decodes.digests in
      (
        path,
        generate_runs leaf leaves d root index level path decoded rooted all_decoded inside loop,
        rw top (
            verify_runs (get_or (leaf ∷ leaves) index none) d.algorithm name (get_or level index [])
              (get_or (reduce (tagged digest name) (length level) level) 0 []) path
              (decodes.leaf index inside) known plain fold
              (All-get_or IsDigest (reduce (tagged digest name) (length level) level) 0
                (All-reduce (tagged digest name) (length level) level good decodes.digests)
                (omega (
                  arith,
                  length-reduce (tagged digest name) (length level) level (omega arith)
                      (omega arith),
                )))
              len),
      )
