-- ===== src/Merkle/Block/Binding.antt =====
-- What a root of block-merkle.ts commits to: a second leaf under the same path, a second list of
-- leaves, or a leaf that passes for an inner node would be a collision of the hash function.
use cdx_file_format_spec.Prelude.{
  ℕ, ◌≡◌, refl, ◌≢◌, ap, sym, subst, ◌∙◌, ◌⊎◌, inl, inr, true, List, [], ◌∷◌, ◌++◌, length,
  length-append, ltb, Option, some, ok, >>=-eq-ok, guard-eq-ok, unless-eq-ok, Bool-cases, arith,
}
use cdx_file_format_spec.Merkle.ContentHash.{
  Units, Bytes, path_too_long, mixed_algorithms, DecodedHash, decode_content_hash, print_hash,
}
use cdx_file_format_spec.Merkle.ContentHash.RoundTrip.{IsName, decode-print_hash}
use cdx_file_format_spec.Merkle.Block.{
  NodeName, named, inherited, node_hash_name, create_hash, internal_node, block_leaf_hash,
  same_units, max_block_path, PathElement, malformed, element, Position, left, right, join_sibling,
  fold_path, verify_block_inclusion,
}
use cdx_file_format_spec.Merkle.Block.Levels.{
  IsHashFunction, IsDigest, same_units_refl, same_units-eq,
}

-- Two inputs of the hash function with one digest.
pub record Collision (digest : Units → Bytes → Bytes) : Type 0 where
  pub name : Units
  pub one : Bytes
  pub other : Bytes
  pub differ : one ≢ other
  pub agree : digest name one ≡ digest name other

dec_units : (a b : Bytes) → (a ≡ b) ⊎ (a ≢ b)
dec_units a b = elim (Bool-cases (same_units a b)) [
  | inl t ↦ inl (same_units-eq a b t)
  | inr f ↦ inr (λ e. cc (f, subst (λ x. same_units a x ≡ true) e (same_units_refl a)))
]

append-cancel_left : (x a b : Bytes) → x ++ a ≡ x ++ b → a ≡ b
append-cancel_left [] a b h = h
append-cancel_left (c ∷ x) a b h = append-cancel_left x a b (cc)

append_cons-ne : (a x : Bytes) (c : ℕ) → c ∷ a ++ x ≢ x
append_cons-ne a x c h = absurd (omega (arith, ap length h, length-append (c ∷ a) x))

append-cancel_right : (a b x : Bytes) → a ++ x ≡ b ++ x → a ≡ b
append-cancel_right [] [] x h = refl
append-cancel_right (c ∷ a) [] x h = absurd (append_cons-ne a x c h)
append-cancel_right [] (c ∷ b) x h = absurd (append_cons-ne b x c (sym h))
append-cancel_right (c ∷ a) (d ∷ b) x h = cc (h, append-cancel_right a b x (cc h))

zero-ne-one : (x y : Bytes) → ◌≢◌ {A = Bytes} (0 ∷ x) (1 ∷ y)
zero-ne-one x y h = ground arith

module _ (digest : Units → Bytes → Bytes) where
  pub collide :
      (name : Units) (x y : Bytes) → digest name x ≡ digest name y → (x ≡ y) ⊎ Collision digest
  collide name x y h = elim (dec_units x y) [
    | inl e ↦ inl e
    | inr n ↦ inr (record { name = name; one = x; other = y; differ = n; agree = h })
  ]

  create_hash_binds :
      (n : NodeName) (x y top : Bytes)
      → create_hash digest n x ≡ ok top
      → create_hash digest n y ≡ ok top
      → (x ≡ y) ⊎ Collision digest
  create_hash_binds (named name) x y top h k = collide name x y (cc (h, k))
  create_hash_binds inherited x y top h k = cc

  internal_node_binds :
      (a : Units) (l r l' r' top : Bytes)
      → internal_node digest a l r ≡ ok top
      → internal_node digest a l' r' ≡ ok top
      → (l ++ r ≡ l' ++ r') ⊎ Collision digest
  unfolding internal_node
  internal_node_binds a l r l' r' top h h' =
      let (n, known, made) = >>=-eq-ok (node_hash_name a) _ h in
      elim (create_hash_binds n (1 ∷ l ++ r) (1 ∷ l' ++ r') top made (rw known at h')) [
        | inl e ↦ inl (cc e)
        | inr c ↦ inr c
      ]

  join_sibling_binds :
      (a : Units) (p : Position) (sib acc acc' top : Bytes)
      → join_sibling digest a p sib acc ≡ ok top
      → join_sibling digest a p sib acc' ≡ ok top
      → (acc ≡ acc') ⊎ Collision digest
  join_sibling_binds a left sib acc acc' top h k =
      elim (internal_node_binds a sib acc sib acc' top h k) [
        | inl e ↦ inl (append-cancel_left sib acc acc' e)
        | inr c ↦ inr c
      ]
  join_sibling_binds a right sib acc acc' top h k =
      elim (internal_node_binds a acc sib acc' sib top h k) [
        | inl e ↦ inl (append-cancel_right acc acc' sib e)
        | inr c ↦ inr c
      ]

  -- One element of a path that was folded.
  fold_path_inverse :
      (a : Units) (acc : Bytes) (p : Position) (hash : Option Units) (path : List PathElement)
      (top : Bytes) (sib : DecodedHash)
      → decode_content_hash hash ≡ ok sib
      → fold_path digest a acc (element p hash ∷ path) ≡ ok top
      → (up : Bytes) × (join_sibling digest a p sib.bytes acc ≡ ok up)
        × (fold_path digest a up path ≡ ok top)
  unfolding fold_path
  fold_path_inverse a acc p hash path top sib decoded h =
      let (same, rest) =
        guard-eq-ok (same_units sib.algorithm a) _ mixed_algorithms (rw decoded at h) in
      >>=-eq-ok (join_sibling digest a p sib.bytes acc) _ rest

  fold_path_binds :
      (a : Units) (path : List PathElement) (acc acc' top : Bytes)
      → fold_path digest a acc path ≡ ok top
      → fold_path digest a acc' path ≡ ok top
      → (acc ≡ acc') ⊎ Collision digest
  unfolding fold_path
  fold_path_binds a [] acc acc' top h k = inl (cc (h, k))
  fold_path_binds a (malformed ∷ path) acc acc' top h k = cc
  fold_path_binds a (element p hash ∷ path) acc acc' top h k =
      let (sib, decoded, _rest) = >>=-eq-ok (decode_content_hash hash) _ h in
      let (up, joined, above) = fold_path_inverse a acc p hash path top sib decoded h in
      let (up', joined', above') = fold_path_inverse a acc' p hash path top sib decoded k in
      elim (fold_path_binds a path up up' top above above') [
        | inl e ↦ join_sibling_binds a p sib.bytes acc acc' up joined (joined' ∙ ap ok (sym e))
        | inr c ↦ inr c
      ]

  -- What the verifier accepted: a leaf that folds to the bytes of the root, under its algorithm.
  verify_inverse :
      (leaf root : Option Units) (path : List PathElement)
      → verify_block_inclusion digest leaf (some path) root ≡ ok true
      → (d : DecodedHash) × (r : DecodedHash) × (decode_content_hash leaf ≡ ok d)
        × (decode_content_hash root ≡ ok r)
        × (r.algorithm ≡ d.algorithm)
        × (fold_path digest d.algorithm d.bytes path ≡ ok r.bytes)
  unfolding verify_block_inclusion
  verify_inverse leaf root path h =
      let (short, h₀) = unless-eq-ok (ltb max_block_path (length path)) path_too_long _ h in
      let (d, decoded, h₁) = >>=-eq-ok (decode_content_hash leaf) _ h₀ in
      let (n, known, h₂) = >>=-eq-ok (node_hash_name d.algorithm) _ h₁ in
      let (acc, folded, h₃) = >>=-eq-ok (fold_path digest d.algorithm d.bytes path) _ h₂ in
      let (r, top, h₄) = >>=-eq-ok (decode_content_hash root) _ h₃ in
      let (same, h₅) = guard-eq-ok (same_units r.algorithm d.algorithm) _ mixed_algorithms h₄ in
      let bytes = same_units-eq acc r.bytes (cc h₅) in
      (d, r, decoded, top, same_units-eq r.algorithm d.algorithm same, folded ∙ ap ok bytes)

  -- A proof binds its leaf: two leaves that the verifier accepts with one path at one root have the
  -- same algorithm and digest bytes, or they show a collision of the hash function.
  pub verify_binds :
      (leaf leaf' root : Option Units) (path : List PathElement)
      → verify_block_inclusion digest leaf (some path) root ≡ ok true
      → verify_block_inclusion digest leaf' (some path) root ≡ ok true
      → (decode_content_hash leaf ≡ decode_content_hash leaf') ⊎ Collision digest
  verify_binds leaf leaf' root path h k =
      let (d, r, decoded, top, same, folded) = verify_inverse leaf root path h in
      let (d', r', decoded', top', same', folded') = verify_inverse leaf' root path k in
      let root_same : r ≡ r' = cc (top, top') in
      let algorithm : d'.algorithm ≡ d.algorithm = cc (same, same', root_same) in
      let folded_too : fold_path digest d.algorithm d'.bytes path ≡ ok r.bytes =
        cc (folded', algorithm, root_same) in
      elim (fold_path_binds d.algorithm path d.bytes d'.bytes r.bytes folded folded_too) [
        | inl e ↦ inl (cc (decoded, decoded', algorithm, e))
        | inr c ↦ inr c
      ]

  create_hash-IsDigest :
      (n : NodeName) (x b : Bytes)
      → IsHashFunction digest
      → create_hash digest n x ≡ ok b
      → IsDigest b
  create_hash-IsDigest (named name) x b hash h =
      subst IsDigest (cc h) (hash.bytes name x, hash.size name x)
  create_hash-IsDigest inherited x b hash h = cc

  -- Leaves and inner nodes are told apart: if the leaf hash of a block is split into the very bytes
  -- that an inner node of the same algorithm has, the hash function has a collision.
  pub leaf-internal_node :
      (jcs : Bytes) (a : Units) (l r : Bytes) (leaf : Units) (d : DecodedHash)
      → IsHashFunction digest
      → IsName a
      → block_leaf_hash digest jcs a ≡ ok leaf
      → decode_content_hash (some leaf) ≡ ok d
      → internal_node digest a l r ≡ ok d.bytes
      → Collision digest
  unfolding block_leaf_hash internal_node
  leaf-internal_node jcs a l r leaf d hash plain h decoded k =
      let (n, known, h₁) = >>=-eq-ok (node_hash_name a) _ h in
      let (b, made, printed) = >>=-eq-ok (create_hash digest n (0 ∷ jcs)) _ h₁ in
      let good = create_hash-IsDigest n (0 ∷ jcs) b hash made in
      let split = decode-print_hash a b plain good.0 good.1 in
      let whole : print_hash a b ≡ leaf = cc printed in
      let same : d.bytes ≡ b = cc (split, decoded, whole) in
      let node : create_hash digest n (1 ∷ l ++ r) ≡ ok b = (rw known at k) ∙ ap ok same in
      elim (create_hash_binds n (0 ∷ jcs) (1 ∷ l ++ r) b made node) [
        | inl e ↦ absurd (zero-ne-one jcs (l ++ r) e)
        | inr c ↦ c
      ]
